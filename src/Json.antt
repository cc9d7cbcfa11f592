-- ===== src/Json.antt =====
-- `json.dumps` and `json.loads` as the engine calls them: an interface, which the modules that pack
-- values take as an instance. `V` is the type of the values that JSON text can stand for.
pub mod Plain
use cachy_db.Base.{ℕ, ◌<◌, ◌≡◌, ◌↔◌, Bool, true, List, [], ◌∷◌, length, Result, ok, All, Str}

-- `"null"`
abbrev pub null_text : Str
null_text = 0x6E ∷ 0x75 ∷ 0x6C ∷ 0x6C ∷ []

pub record Json (V : Type 0) : Type 0 where
  pub null : V
  -- `value is None`
  pub is_null : V → Bool
  pub is_null_iff : (v : V) → (is_null v ≡ true) ↔ (v ≡ null)
  -- With the default `ensure_ascii=True`; it raises a TypeError or a ValueError.
  pub dumps : V → Result Str
  pub loads : Str → Result V
  pub dumps-null : dumps null ≡ ok null_text
  pub dumps-ascii : (v : V) (s : Str) → dumps v ≡ ok s → All (λ c. c < 128) s
  pub dumps_nonempty : (v : V) (s : Str) → dumps v ≡ ok s → 0 < length s
  pub loads-dumps : (v : V) (s : Str) → dumps v ≡ ok s → loads s ≡ ok v
