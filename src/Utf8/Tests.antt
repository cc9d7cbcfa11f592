-- ===== src/Utf8/Tests.antt =====
-- A text of four characters, of one to four bytes.
use cachy_db.Base.{◌≡◌, refl, [], ◌∷◌, ok, raise, unicode_error, Str}
use cachy_db.Bytes.{Bytes}
use cachy_db.Utf8.{encode, encode_char, decode, decode_from, start}
use cachy_db.Utf8.RoundTrip.{decode-encode}

abbrev text : Str
text = 0x41 ∷ 0xE9 ∷ 0x20AC ∷ 0x1F600 ∷ []

abbrev text_bytes : Bytes
text_bytes = 0x41 ∷ 0xC3 ∷ 0xA9 ∷ 0xE2 ∷ 0x82 ∷ 0xAC ∷ 0xF0 ∷ 0x9F ∷ 0x98 ∷ 0x80 ∷ []

program : Unit {0}
unfolding encode encode_char decode decode_from start
program = tt

encode_text : encode text ≡ ok text_bytes
unfolding program
encode_text = refl

-- A surrogate and an overlong form are refused.
encode_surrogate : encode (0xD800 ∷ []) ≡ raise unicode_error
unfolding program
encode_surrogate = refl

decode_overlong : decode (0xC0 ∷ 0x80 ∷ []) ≡ raise unicode_error
unfolding program
decode_overlong = refl

decode_text : decode text_bytes ≡ ok text
decode_text = decode-encode text text_bytes encode_text
