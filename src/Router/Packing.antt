-- ===== src/Router/Packing.antt =====
-- `_pack_record` and `_unpack_record`: a key and a value as the bytes that the log and the pages hold.
pub mod Tests
pub mod RoundTrip
use cachy_db.Base.{
  ℕ, ◌+◌, ◌<◌, Bool, Option, none, some, List, [], ◌∷◌, ◌++◌, Result, ok, raise, Error, ◌>>=◌, ◌>>◌,
  raise_if, type_error, value_error, unicode_error, router_error, ltb, if◌then◌else◌, length, drop,
  eq_str, Str,
}
use cachy_db.Bytes.{Bytes, read, from_big, pack_h}
use cachy_db.Utf8
use cachy_db.Json.{Json}

abbrev pub max_key_bytes : ℕ
max_key_bytes = 65535

-- `except (TypeError, ValueError) as exc: raise RouterError`; a UnicodeEncodeError is a ValueError.
abbrev pub router_error_of : Error → Error
router_error_of type_error = router_error
router_error_of value_error = router_error
router_error_of unicode_error = router_error
router_error_of e = e

-- `except (json.JSONDecodeError, UnicodeDecodeError) as exc: raise ValueError`; a JSONDecodeError is a
-- ValueError.
abbrev pub value_error_of : Error → Error
value_error_of unicode_error = value_error
value_error_of e = e

abbrev pub except_as {ℓ} : {A : Type ℓ} → (Error → Error) → Result A → Result A
except_as f (ok a) = ok a
except_as f (raise e) = raise (f e)

module _ {V : Type 0} ⦃json : Json V⦄ where
  -- `json.dumps(value).encode("utf-8")`
  unfoldable pub value_bytes : V → Result Bytes
  value_bytes value = do text ← json.dumps value; Utf8.encode text

  -- `json.loads(data.decode("utf-8"))`
  pub value_of : Bytes → Result V
  value_of b = do text ← Utf8.decode b; json.loads text

  unfoldable pub pack_record : Str → V → Result Bytes
  unfolding value_bytes
  pack_record key value = do
    k_bytes ← Utf8.encode key
    let k_len = length k_bytes
    raise_if (ltb max_key_bytes k_len) value_error
    v_bytes ← except_as router_error_of (value_bytes value)
    header ← pack_h k_len
    ok (header ++ (k_bytes ++ v_bytes))

  pub unpack_record : Bytes → Result (Str × V)
  unfolding value_of
  unpack_record payload = do
    raise_if (ltb (length payload) 2) value_error
    let k_len = from_big (read 0 2 payload)
    let min_length = 2 + k_len + 1
    raise_if (ltb (length payload) min_length) value_error
    key ← except_as value_error_of (Utf8.decode (read 2 k_len payload))
    value ← except_as value_error_of (value_of (drop (2 + k_len) payload))
    ok (key, value)

-- `b"null"`
abbrev pub null_bytes : Bytes
null_bytes = 0x6E ∷ 0x75 ∷ 0x6C ∷ 0x6C ∷ []

-- The flush's test for a deletion: `packed_record[2 + key_len :] == b"null"`.
pub is_deletion : ℕ → Bytes → Bool
is_deletion key_len packed_record = eq_str (drop (2 + key_len) packed_record) null_bytes
