-- ===== src/Record/Tests.antt =====
-- Concrete records, with a cipher that encrypts nothing and adds a tag of 16 zeros.
use cachy_db.Base.{
  ◌-◌, ◌≡◌, refl, ap, ◌∙◌, some, [], ◌∷◌, ◌++◌, Result, Error, ok, raise, length, length-append,
  take, Str, arith,
}
use cachy_db.Bytes.{Bytes, zeros, pack_i, crc32, crc_loop, crc_byte, crc_bit}
use cachy_db.Bytes.Slices.{take-length-append}
use cachy_db.Utf8.{encode, encode_char}
use cachy_db.Json.Plain.{Plain, word, plain_json, dumps, plain_text, plain_char}
use cachy_db.Record.{
  Cipher, validate_encryption_key, validate_key_length, validate_value_length, calculate_checksum,
  pack_fields, pack_record, unpack_record,
}
use cachy_db.Record.RoundTrip.{unpack_record-pack_record_encrypted}
use cachy_db.Record.Damage.{unpack_record-cut}

-- The text without its last 16 bytes.
untag : Bytes → Bytes
untag b = take (length b - 16) b

untag-append : (text : Bytes) → untag (text ++ zeros 16) ≡ text
unfolding untag zeros
untag-append text =
    let n : length (text ++ zeros 16) - 16 ≡ length text =
      omega (arith, length-append text (zeros 16)) in
    ap (λ k. take k (text ++ zeros 16)) n ∙ take-length-append text (zeros 16)

tagged : Cipher
unfolding zeros
tagged = record {
  encrypt = λ key nonce text. text ++ zeros 16;
  decrypt = λ key nonce text. some (untag text);
  decrypt-encrypt = λ key nonce text. ap some (untag-append text);
  length-encrypt = λ key nonce text. length-append text (zeros 16);
}

abbrev secret : Bytes
unfolding zeros
secret = zeros 32

abbrev nonce : Bytes
unfolding zeros
nonce = zeros 12

-- `"ann"` and `"bob"`
abbrev ann : Str
ann = 0x61 ∷ 0x6E ∷ 0x6E ∷ []

abbrev bob : Str
bob = 0x62 ∷ 0x6F ∷ 0x62 ∷ []

or_nothing : Result Bytes → Bytes
or_nothing (ok b) = b
or_nothing (raise e) = []

abbrev ann_record : Bytes
ann_record = or_nothing (pack_record tagged ann (word bob) secret nonce)

program : Unit {0}
unfolding pack_record pack_fields validate_encryption_key validate_key_length validate_value_length
    calculate_checksum encode encode_char dumps plain_text plain_char pack_i crc32 crc_loop crc_byte
    crc_bit tagged or_nothing untag zeros
program = tt

pack-ann : pack_record tagged ann (word bob) secret nonce ≡ ok ann_record
unfolding program
pack-ann = refl

length-ann : length ann_record ≡ 56
unfolding program
length-ann = refl

length-nonce : length nonce ≡ 12
unfolding program
length-nonce = refl

unpack_record-pack_record_encrypted_example :
    unpack_record tagged ann_record secret ≡ ok (ann, word bob)
unpack_record-pack_record_encrypted_example =
    unpack_record-pack_record_encrypted tagged ann (word bob) secret nonce ann_record length-nonce
      pack-ann

unpack-ann : unpack_record tagged ann_record secret ≡ ok (ann, word bob)
unpack-ann =
    unpack_record-pack_record_encrypted tagged ann (word bob) secret nonce ann_record length-nonce
      pack-ann

-- The record without its last byte.
unpack_record-cut_example :
    (e : Error) × (unpack_record {V = Plain} tagged (take 55 ann_record) secret ≡ raise e)
unpack_record-cut_example =
    unpack_record-cut tagged ann_record secret secret (ann, word bob) 55 unpack-ann
      (omega (arith, length-ann))
