-- ===== src/Json/Plain.antt =====
-- An instance of the interface, for concrete runs: `None`, and words without a character that JSON
-- would escape.
use cachy_db.Base.{
  ℕ, ◌<◌, ◌≡◌, refl, ap, ◌↔◌, Bool, true, false, ◌&&◌, not, Option, none, some, [], ◌∷◌, ◌++◌,
  length, Result, ok, raise, value_error, All, Str, eq_str, leb, ltb, ◌==◌, if◌then◌else◌, arith,
  Bool-cases, inl, inr,
}
use cachy_db.Json.{Json, null_text}

pub data Plain : Type 0 where
  nothing : Plain
  word : Str → Plain

-- Printable ASCII but for the quote and the backslash.
unfoldable pub plain_char : ℕ → Bool
plain_char c = leb 32 c && ltb c 127 && not (c == 34) && not (c == 92)

unfoldable pub plain_text : Str → Bool
unfolding plain_char
plain_text [] = true
plain_text (c ∷ s) = plain_char c && plain_text s

unfoldable pub dumps : Plain → Result Str
unfolding plain_text
dumps nothing = ok null_text
dumps (word s) = if plain_text s then ok (34 ∷ (s ++ 34 ∷ [])) else raise value_error

-- The characters up to a quote that ends the text.
unfoldable pub word_to_quote : Str → Option Str
unfolding plain_char
word_to_quote [] = none
word_to_quote (c ∷ s) = elim (plain_char c) [
  | true ↦ elim (word_to_quote s) [ none ↦ none | some w ↦ some (c ∷ w) ]
  | false ↦ elim s [ [] ↦ if c == 34 then some [] else none | d ∷ r ↦ none ]
]

unfoldable pub word_or_error : Option Str → Result Plain
word_or_error none = raise value_error
word_or_error (some w) = ok (word w)

unfoldable pub loads : Str → Result Plain
unfolding word_to_quote word_or_error
loads [] = raise value_error
loads (c ∷ s) =
    if c == 34
    then word_or_error (word_to_quote s)
    else if eq_str (c ∷ s) null_text
    then ok nothing
    else raise value_error

word_to_quote-append : (s : Str) → plain_text s ≡ true → word_to_quote (s ++ 34 ∷ []) ≡ some s
unfolding word_to_quote plain_text plain_char
word_to_quote-append [] h = refl
word_to_quote-append (c ∷ s) h = ground (arith, h, word_to_quote-append s)

ascii-append : (s : Str) → plain_text s ≡ true → All (λ c. c < 128) (s ++ 34 ∷ [])
unfolding plain_text plain_char
ascii-append [] h = (omega arith, tt)
ascii-append (c ∷ s) h = ground (arith, h, ascii-append s)

unfoldable pub is_nothing : Plain → Bool
is_nothing nothing = true
is_nothing (word s) = false

pub is_nothing_iff : (v : Plain) → (is_nothing v ≡ true) ↔ (v ≡ nothing)
unfolding is_nothing
is_nothing_iff nothing = (λ e. refl, λ e. refl)
is_nothing_iff (word s) = (λ e. cc, λ e. cc)

quoted : (w s : Str) → dumps (word w) ≡ ok s → (plain_text w ≡ true) × (s ≡ 34 ∷ (w ++ 34 ∷ []))
unfolding dumps
quoted w s h = elim (Bool-cases (plain_text w)) [
  | inl e ↦ (e, ground (arith, h, e))
  | inr e ↦ absurd (ground (arith, h, e))
]

null_eq : (s : Str) → dumps nothing ≡ ok s → s ≡ null_text
unfolding dumps
null_eq s h = cc

pub dumps-ascii : (v : Plain) (s : Str) → dumps v ≡ ok s → All (λ c. c < 128) s
unfolding dumps
dumps-ascii nothing s h = rw (null_eq s h) (omega arith)
dumps-ascii (word w) s h = let (p, q) = quoted w s h in rw q (omega arith, ascii-append w p)

pub dumps_nonempty : (v : Plain) (s : Str) → dumps v ≡ ok s → 0 < length s
unfolding dumps
dumps_nonempty nothing s h = rw (null_eq s h) (omega arith)
dumps_nonempty (word w) s h = let (p, q) = quoted w s h in rw q (omega arith)

pub loads-dumps : (v : Plain) (s : Str) → dumps v ≡ ok s → loads s ≡ ok v
unfolding dumps loads word_or_error
loads-dumps nothing s h = rw (null_eq s h) refl
loads-dumps (word w) s h =
    let (p, q) = quoted w s h in rw q (ap word_or_error (word_to_quote-append w p))

pub dumps-nothing : dumps nothing ≡ ok null_text
unfolding dumps
dumps-nothing = refl

instance abbrev pub plain_json : Json Plain
plain_json = record {
  null = nothing;
  is_null = is_nothing;
  is_null_iff = is_nothing_iff;
  dumps = dumps;
  loads = loads;
  dumps-null = dumps-nothing;
  dumps-ascii = dumps-ascii;
  dumps_nonempty = dumps_nonempty;
  loads-dumps = loads-dumps;
}
