-- ===== src/Record.antt =====
-- src/cachyDB/record/record.py: the encrypted record format. The cipher is the `cryptography` package's:
-- an interface. `os.urandom` is an argument: the nonce. The type checks of the key have nothing to
-- refuse.
pub mod RoundTrip
pub mod Damage
mod Tests
use cachy_db.Base.{
  ℕ, ◌+◌, ◌*◌, ◌≡◌, Bool, not, Option, none, some, List, [], ◌∷◌, ◌++◌, Result, ok, raise, ◌>>=◌,
  ◌>>◌, raise_if, value_error, ltb, ◌==◌, length, drop, Str,
}
use cachy_db.Bytes.{Bytes, read, from_big, bytes4, crc32, pack_i}
use cachy_db.Utf8
use cachy_db.Json.{Json}
use cachy_db.Router.Packing.{except_as, value_error_of}

-- `ChaCha20Poly1305(key)`: `decrypt` fails (`none`) unless the text is what `encrypt` made with the key
-- and the nonce, and a text is 16 bytes longer than what it encrypts.
pub record Cipher : Type 0 where
  pub encrypt : Bytes → Bytes → Bytes → Bytes
  pub decrypt : Bytes → Bytes → Bytes → Option Bytes
  pub decrypt-encrypt :
      (key nonce text : Bytes) → decrypt key nonce (encrypt key nonce text) ≡ some text
  pub length-encrypt : (key nonce text : Bytes) → length (encrypt key nonce text) ≡ length text + 16

abbrev pub magic_value : ℕ
magic_value = 1128546865

abbrev pub max_key_size : ℕ
max_key_size = 4096

abbrev pub max_value_size : ℕ
max_value_size = 16777216

abbrev pub nonce_size : ℕ
nonce_size = 12

abbrev pub min_encrypted_size : ℕ
min_encrypted_size = 28

abbrev pub min_record_size : ℕ
min_record_size = 20

pub validate_encryption_key : Bytes → Result (Unit {0})
validate_encryption_key encryption_key = raise_if (not (length encryption_key == 32)) value_error

pub validate_key_length : ℕ → Result (Unit {0})
validate_key_length key_length = do
  raise_if (ltb key_length 1) value_error
  raise_if (ltb max_key_size key_length) value_error

pub validate_value_length : ℕ → Result (Unit {0})
validate_value_length value_length = do
  raise_if (ltb value_length 0) value_error
  raise_if (ltb max_value_size value_length) value_error

-- `zlib.crc32(...) & 0xFFFFFFFF` of the fields
pub calculate_checksum : Bytes → Bytes → Bytes → Bytes → Bytes → ℕ
calculate_checksum record_length_bytes key_length_bytes key_bytes value_length_bytes value_bytes =
    crc32 (
      record_length_bytes
      ++ (key_length_bytes ++ (key_bytes ++ (value_length_bytes ++ value_bytes))))

-- The part of `pack_record` after the encryption.
pub pack_fields : Bytes → Bytes → Result Bytes
unfolding validate_key_length validate_value_length calculate_checksum
pack_fields key_bytes value_bytes = do
  let key_length = length key_bytes
  validate_key_length key_length
  let value_length = length value_bytes
  validate_value_length value_length
  key_length_bytes ← pack_i key_length
  value_length_bytes ← pack_i value_length
  let record_length = 4 + 4 + key_length + 4 + value_length + 4 + 4
  raise_if (ltb 4294967295 record_length) value_error
  record_length_bytes ← pack_i record_length
  let checksum =
      calculate_checksum record_length_bytes key_length_bytes key_bytes value_length_bytes
        value_bytes
  checksum_bytes ← pack_i checksum
  magic_bytes ← pack_i magic_value
  ok (
      record_length_bytes
      ++ (magic_bytes
          ++ (key_length_bytes
              ++ (key_bytes ++ (value_length_bytes ++ (value_bytes ++ checksum_bytes))))))

-- What `unpack_record` reads before it decrypts: the key and the encrypted value, with the end of the
-- record as the fields give it and as the header claims it.
pub record Fields : Type 0 where
  pub key : Str
  pub encrypted_value : Bytes
  pub expected_end : ℕ
  pub record_length : ℕ

pub unpack_fields : Bytes → Result Fields
unfolding validate_key_length validate_value_length calculate_checksum
unpack_fields packed_record = do
  raise_if (ltb (length packed_record) min_record_size) value_error
  let record_length = from_big (read 0 4 packed_record)
  raise_if (ltb 268435456 record_length) value_error
  raise_if (ltb record_length min_record_size) value_error
  raise_if (not (from_big (read 4 4 packed_record) == magic_value)) value_error
  let key_length = from_big (read 8 4 packed_record)
  validate_key_length key_length
  let key_end = 12 + key_length
  raise_if (ltb (length packed_record) key_end) value_error
  let key_bytes = read 12 key_length packed_record
  key ← except_as value_error_of (Utf8.decode key_bytes)
  raise_if (ltb (length packed_record) (key_end + 4)) value_error
  let value_length = from_big (read key_end 4 packed_record)
  validate_value_length value_length
  let value_end = key_end + 4 + value_length
  raise_if (ltb (length packed_record) value_end) value_error
  let value_bytes = read (key_end + 4) value_length packed_record
  raise_if (ltb (length packed_record) (value_end + 4)) value_error
  let checksum = from_big (read value_end 4 packed_record)
  let calculated =
      calculate_checksum (read 0 4 packed_record) (read 8 4 packed_record) key_bytes
        (read key_end 4 packed_record) value_bytes
  raise_if (not (checksum == calculated)) value_error
  ok (record {
    key = key;
    encrypted_value = value_bytes;
    expected_end = value_end + 4;
    record_length = record_length;
  })

-- `except Exception as exc: raise ValueError`
abbrev pub decrypted : Option Bytes → Result Bytes
decrypted none = raise value_error
decrypted (some text) = ok text

module _ {V : Type 0} (cipher : Cipher) ⦃json : Json V⦄ where
  pub pack_record : Str → V → Bytes → Bytes → Result Bytes
  unfolding validate_encryption_key pack_fields
  pack_record key value encryption_key nonce = do
    validate_encryption_key encryption_key
    key_bytes ← Utf8.encode key
    value_json_str ← json.dumps value
    raw_value_bytes ← Utf8.encode value_json_str
    let ciphertext = cipher.encrypt encryption_key nonce raw_value_bytes
    pack_fields key_bytes (nonce ++ ciphertext)

  -- The decryption and the last checks.
  pub open_value : Bytes → Bytes → Fields → Result (Str × V)
  open_value packed_record encryption_key fields = do
    raise_if (ltb (length fields.encrypted_value) min_encrypted_size) value_error
    let nonce = read 0 nonce_size fields.encrypted_value
    let ciphertext = drop nonce_size fields.encrypted_value
    value_bytes ← decrypted (cipher.decrypt encryption_key nonce ciphertext)
    value_str ← except_as value_error_of (Utf8.decode value_bytes)
    value ← except_as value_error_of (json.loads value_str)
    raise_if (not (fields.expected_end == fields.record_length)) value_error
    raise_if (not (length packed_record == fields.record_length)) value_error
    ok (fields.key, value)

  pub unpack_record : Bytes → Bytes → Result (Str × V)
  unfolding validate_encryption_key unpack_fields open_value
  unpack_record packed_record encryption_key = do
    validate_encryption_key encryption_key
    fields ← unpack_fields packed_record
    open_value packed_record encryption_key fields
