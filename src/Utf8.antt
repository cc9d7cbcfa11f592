-- ===== src/Utf8.antt =====
-- `str.encode("utf-8")` and `bytes.decode("utf-8")`, with the errors of strict mode.
pub mod RoundTrip
mod Tests
use cachy_db.Base.{
  ℕ, zero, suc, ◌+◌, ◌-◌, ◌*◌, ◌/◌, ◌%◌, Bool, true, false, ◌&&◌, Option, none, some, List, [], ◌∷◌,
  ◌++◌, Result, ok, raise, ◌>>=◌, unicode_error, ltb, leb, ◌==◌, if◌then◌else◌, Str,
}
use cachy_db.Bytes.{Bytes}

-- The bytes of one code point; a surrogate has none.
unfoldable pub encode_char : ℕ → Option Bytes
encode_char c =
    if ltb c 128
    then some (c ∷ [])
    else if ltb c 2048
    then some ((192 + c / 64) ∷ (128 + c % 64) ∷ [])
    else if leb 55296 c && ltb c 57344
    then none
    else if ltb c 65536
    then some ((224 + c / 4096) ∷ (128 + c / 64 % 64) ∷ (128 + c % 64) ∷ [])
    else if ltb c 1114112
    then some
        ((240 + c / 262144) ∷ (128 + c / 4096 % 64) ∷ (128 + c / 64 % 64) ∷ (128 + c % 64) ∷ [])
    else none

abbrev pub bytes_or_error : Option Bytes → Result Bytes
bytes_or_error none = raise unicode_error
bytes_or_error (some b) = ok b

unfoldable pub encode : Str → Result Bytes
unfolding encode_char
encode [] = ok []
encode (c ∷ s) = do b ← bytes_or_error (encode_char c); rest ← encode s; ok (b ++ rest)

-- What a first byte announces: how many bytes follow, the bits that it gives, and the range of the
-- second byte, which leaves out overlong forms and surrogates.
pub start : ℕ → Option (ℕ × (ℕ × (ℕ × ℕ)))
start b =
    if ltb b 194
    then none
    else if ltb b 224
    then some (1, (b - 192, (128, 191)))
    else if b == 224
    then some (2, (0, (160, 191)))
    else if b == 237
    then some (2, (13, (128, 159)))
    else if ltb b 240
    then some (2, (b - 224, (128, 191)))
    else if b == 240
    then some (3, (0, (144, 191)))
    else if ltb b 244
    then some (3, (b - 240, (128, 191)))
    else if b == 244
    then some (3, (4, (128, 143)))
    else none

abbrev pub emit : ℕ → Result Str → Result Str
emit c (ok s) = ok (c ∷ s)
emit c (raise e) = raise e

-- The rest of a text, where `need` more bytes complete the code point with the bits `acc`.
pub decode_from : ℕ → ℕ → ℕ → ℕ → Bytes → Result Str
unfolding start
decode_from zero acc low high [] = ok []
decode_from (suc need) acc low high [] = raise unicode_error
decode_from zero acc low high (b ∷ bs) = elim (ltb b 128) [
  | true ↦ emit b (decode_from 0 0 128 191 bs)
  | false ↦ elim (start b) [
    | none ↦ raise unicode_error
    | some s ↦ decode_from s.0 s.1.0 s.1.1.0 s.1.1.1 bs
  ]
]
decode_from (suc zero) acc low high (b ∷ bs) = elim (leb low b && leb b high) [
  | true ↦ emit (acc * 64 + (b - 128)) (decode_from 0 0 128 191 bs)
  | false ↦ raise unicode_error
]
decode_from (suc (suc need)) acc low high (b ∷ bs) = elim (leb low b && leb b high) [
  | true ↦ decode_from (suc need) (acc * 64 + (b - 128)) 128 191 bs
  | false ↦ raise unicode_error
]

pub decode : Bytes → Result Str
unfolding decode_from
decode b = decode_from 0 0 128 191 b
