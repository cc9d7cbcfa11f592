-- ===== src/Record/Damage.antt =====
-- `unpack_record` refuses a record that was cut off.
use cachy_db.Base.{
  ℕ, zero, suc, length-take, ◌+◌, ◌≤◌, ◌<◌, ◌≡◌, refl, sym, ap, ◌∙◌, not, [], ◌∷◌, Result,
  Result-cases, Error, ok, raise, bind-ok, guard-ok, value_error, ltb, ◌==◌, length, take, drop,
  Str, arith, inl, inr,
}
use cachy_db.Bytes.{Bytes, read, from_big}
use cachy_db.Utf8
use cachy_db.Json.{Json}
use cachy_db.Router.Packing.{except_as, value_error_of}
use cachy_db.Record.{
  Cipher, Fields, magic_value, validate_key_length, validate_value_length, calculate_checksum,
  decrypted, validate_encryption_key, unpack_fields, open_value, unpack_record,
}

abbrev record_length_of : Result Fields → ℕ
record_length_of (ok f) = f.record_length
record_length_of (raise e) = 0

read-take : (n : ℕ) (b : Bytes) → 4 ≤ n → n ≤ length b → read 0 4 (take n b) ≡ read 0 4 b
unfolding read
read-take zero b l k = absurd (omega (arith, l))
read-take (suc zero) b l k = absurd (omega (arith, l))
read-take (suc (suc zero)) b l k = absurd (omega (arith, l))
read-take (suc (suc (suc zero))) b l k = absurd (omega (arith, l))
read-take (suc (suc (suc (suc n)))) [] l k = absurd (omega (arith, k))
read-take (suc (suc (suc (suc n)))) (x ∷ []) l k = absurd (omega (arith, k))
read-take (suc (suc (suc (suc n)))) (x ∷ y ∷ []) l k = absurd (omega (arith, k))
read-take (suc (suc (suc (suc n)))) (x ∷ y ∷ z ∷ []) l k = absurd (omega (arith, k))
read-take (suc (suc (suc (suc n)))) (x ∷ y ∷ z ∷ w ∷ b) l k = refl

-- The fields' checks: the record is at least 20 bytes long, and its length is read from its first four.
unpack_fields-length :
    (b : Bytes) (f : Fields)
    → unpack_fields b ≡ ok f
    → (20 ≤ length b) × (f.record_length ≡ from_big (read 0 4 b))
unfolding unpack_fields
unpack_fields-length b f h =
    let total = from_big (read 0 4 b) in
    let n = from_big (read 8 4 b) in
    let m = from_big (read (12 + n) 4 b) in
    let calculated =
      calculate_checksum (read 0 4 b) (read 8 4 b) (read 12 n b) (read (12 + n) 4 b)
        (read (12 + n + 4) m b) in
    let (long, h1) = guard-ok (ltb (length b) 20) value_error _ f h in
    let (c2, h2) = guard-ok (ltb 268435456 total) value_error _ f h1 in
    let (c3, h3) = guard-ok (ltb total 20) value_error _ f h2 in
    let (c4, h4) = guard-ok (not (from_big (read 4 4 b) == magic_value)) value_error _ f h3 in
    let (u5, v5, h5) = bind-ok (validate_key_length n) _ f h4 in
    let (c6, h6) = guard-ok (ltb (length b) (12 + n)) value_error _ f h5 in
    let (key, v7, h7) = bind-ok (except_as value_error_of (Utf8.decode (read 12 n b))) _ f h6 in
    let (c8, h8) = guard-ok (ltb (length b) (12 + n + 4)) value_error _ f h7 in
    let (u9, v9, h9) = bind-ok (validate_value_length m) _ f h8 in
    let (c10, h10) = guard-ok (ltb (length b) (12 + n + 4 + m)) value_error _ f h9 in
    let (c11, h11) = guard-ok (ltb (length b) (12 + n + 4 + m + 4)) value_error _ f h10 in
    let (c12, h12) =
      guard-ok (not (from_big (read (12 + n + 4 + m) 4 b) == calculated)) value_error _ f h11 in
    (ground (arith, long), sym (ap record_length_of h12))

-- The last checks: the record is as long as its header claims.
open_value-length :
    {V : Type 0} ⦃json : Json V⦄ (cipher : Cipher) (b encryption_key : Bytes) (f : Fields)
    (r : Str × V)
    → open_value cipher b encryption_key f ≡ ok r
    → length b ≡ f.record_length
unfolding open_value
open_value-length ⦃json = json⦄ cipher b encryption_key f r h =
    let v = f.encrypted_value in
    let (c1, h1) = guard-ok (ltb (length v) 28) value_error _ r h in
    let (text, v2, h2) =
      bind-ok (decrypted (cipher.decrypt encryption_key (read 0 12 v) (drop 12 v))) _ r h1 in
    let (str, v3, h3) = bind-ok (except_as value_error_of (Utf8.decode text)) _ r h2 in
    let (value, v4, h4) = bind-ok (except_as value_error_of (json.loads str)) _ r h3 in
    let (c5, h5) = guard-ok (not (f.expected_end == f.record_length)) value_error _ r h4 in
    let (c6, h6) = guard-ok (not (length b == f.record_length)) value_error _ r h5 in
    ground (arith, c6)

module _ {V : Type 0} (cipher : Cipher) ⦃json : Json V⦄ where
  -- A record that is accepted is as long as its first four bytes claim.
  unpack_record-length :
      (b encryption_key : Bytes) (r : Str × V)
      → unpack_record cipher b encryption_key ≡ ok r
      → (20 ≤ length b) × (length b ≡ from_big (read 0 4 b))
  unfolding unpack_record
  unpack_record-length b encryption_key r h =
      let (u, v1, h1) = bind-ok (validate_encryption_key encryption_key) _ r h in
      let (f, v2, h2) = bind-ok (unpack_fields b) _ r h1 in
      let (long, claimed) = unpack_fields-length b f v2 in
      (long, open_value-length cipher b encryption_key f r h2 ∙ claimed)

  -- Of a record that some key opens, no part that was cut off at the end is opened by any key.
  pub unpack_record-cut :
      (packed_record encryption_key other_key : Bytes) (r : Str × V) (n : ℕ)
      → unpack_record cipher packed_record encryption_key ≡ ok r
      → n < length packed_record
      → (e : Error) × (unpack_record {V = V} cipher (take n packed_record) other_key ≡ raise e)
  unpack_record-cut packed_record encryption_key other_key r n h l =
      elim (Result-cases (unpack_record {V = V} cipher (take n packed_record) other_key)) [
        | inr (e, refused) ↦ (e, refused)
        | inl (r', opened) ↦
            let (long, size) = unpack_record-length packed_record encryption_key r h in
            let (long', size') = unpack_record-length (take n packed_record) other_key r' opened in
            let cut : length (take n packed_record) ≡ n =
              omega (arith, length-take n packed_record, l) in
            absurd (
              omega (
                arith,
                size,
                size',
                cut,
                l,
                long',
                ap from_big
                    (read-take n packed_record (omega (arith, cut, long')) (omega (arith, l))),
              ))
      ]
