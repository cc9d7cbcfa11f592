-- ===== src/Router/Packing/Tests.antt =====
-- Concrete records.
use cachy_db.Base.{◌≡◌, refl, [], ◌∷◌, ok, length, Str}
use cachy_db.Bytes.{Bytes, pack_h}
use cachy_db.Utf8.{encode, encode_char}
use cachy_db.Json.Plain.{word, nothing, plain_json, dumps, plain_text, plain_char}
use cachy_db.Router.Packing.{value_bytes, pack_record, unpack_record, is_deletion}
use cachy_db.Router.Packing.RoundTrip.{unpack_record-pack_record, is_deletion-pack_record}

-- `"ann"` and `"bob"`
abbrev pub ann : Str
ann = 0x61 ∷ 0x6E ∷ 0x6E ∷ []

abbrev pub bob : Str
bob = 0x62 ∷ 0x6F ∷ 0x62 ∷ []

abbrev pub ann_record : Bytes
ann_record = 0 ∷ 3 ∷ 0x61 ∷ 0x6E ∷ 0x6E ∷ 0x22 ∷ 0x62 ∷ 0x6F ∷ 0x62 ∷ 0x22 ∷ []

abbrev ann_deleted : Bytes
ann_deleted = 0 ∷ 3 ∷ 0x61 ∷ 0x6E ∷ 0x6E ∷ 0x6E ∷ 0x75 ∷ 0x6C ∷ 0x6C ∷ []

program : Unit {0}
unfolding pack_record value_bytes encode encode_char dumps plain_text plain_char pack_h
program = tt

pub pack-ann : pack_record ann (word bob) ≡ ok ann_record
unfolding program
pack-ann = refl

pack_deletion : pack_record ann nothing ≡ ok ann_deleted
unfolding program
pack_deletion = refl

encode-ann : encode ann ≡ ok ann
unfolding program
encode-ann = refl

unpack_record-pack_record_example : unpack_record ann_record ≡ ok (ann, word bob)
unpack_record-pack_record_example = unpack_record-pack_record ann (word bob) ann_record pack-ann

deletion-ann : is_deletion (length ann) ann_deleted ≡ plain_json.is_null nothing
deletion-ann = is_deletion-pack_record ann nothing ann_deleted ann pack_deletion encode-ann
