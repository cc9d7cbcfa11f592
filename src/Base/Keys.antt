-- ===== src/Base/Keys.antt =====
-- Python's `str` as a list of code points, and the interface of an ordered type of keys.
use mathlib.Core.Path.{◌≡◌, refl}
use mathlib.Core.Logic.{◌↔◌}
use mathlib.Core.Bool.{Bool, true, false, ◌&&◌}
use mathlib.Core.List.{List, [], ◌∷◌}
use Prim.Native.Nat.{ℕ}
use native.Mathlib.Omega.{arith}
use cachy_db.Base.Tests.{ltb, ◌==◌, if◌then◌else◌}

-- `<` and `==` as the source calls them, with the laws of a strict total order.
pub record Order {ℓ} (K : Type ℓ) : Type ℓ where
  pub lt : K → K → Bool
  pub eq : K → K → Bool
  pub eq_iff : (a b : K) → (eq a b ≡ true) ↔ (a ≡ b)
  pub lt_irrefl : (a : K) → lt a a ≡ false
  pub lt_trans : (a b c : K) → lt a b ≡ true → lt b c ≡ true → lt a c ≡ true
  pub lt_total : (a b : K) → lt a b ≡ false → eq a b ≡ false → lt b a ≡ true

abbrev pub Str : Type 0
Str = List ℕ

-- `a < b` on texts: lexicographic, by code points.
abbrev pub lt_str : Str → Str → Bool
lt_str [] [] = false
lt_str [] (b ∷ bs) = true
lt_str (a ∷ as') [] = false
lt_str (a ∷ as') (b ∷ bs) = if ltb a b then true else if a == b then lt_str as' bs else false

abbrev pub eq_str : Str → Str → Bool
eq_str [] [] = true
eq_str [] (b ∷ bs) = false
eq_str (a ∷ as') [] = false
eq_str (a ∷ as') (b ∷ bs) = a == b && eq_str as' bs

pub eq_str_sound : (a b : Str) → eq_str a b ≡ true → a ≡ b
eq_str_sound [] [] h = refl
eq_str_sound [] (b ∷ bs) h = cc
eq_str_sound (a ∷ as') [] h = cc
eq_str_sound (a ∷ as') (b ∷ bs) h = ground (arith, eq_str_sound as' bs)

pub eq_str_refl : (a : Str) → eq_str a a ≡ true
eq_str_refl [] = refl
eq_str_refl (a ∷ as') = ground (arith, eq_str_refl as')

pub eq_str_iff : (a b : Str) → (eq_str a b ≡ true) ↔ (a ≡ b)
eq_str_iff a b = (eq_str_sound a b, λ e. cc (eq_str_refl a))

pub lt_str_irrefl : (a : Str) → lt_str a a ≡ false
lt_str_irrefl [] = refl
lt_str_irrefl (a ∷ as') = ground (arith, lt_str_irrefl as')

pub lt_str_trans : (a b c : Str) → lt_str a b ≡ true → lt_str b c ≡ true → lt_str a c ≡ true
lt_str_trans [] [] c p q = cc
lt_str_trans [] (b ∷ bs) [] p q = cc
lt_str_trans [] (b ∷ bs) (c ∷ cs) p q = refl
lt_str_trans (a ∷ as') [] c p q = cc
lt_str_trans (a ∷ as') (b ∷ bs) [] p q = cc
lt_str_trans (a ∷ as') (b ∷ bs) (c ∷ cs) p q = ground (arith, lt_str_trans as' bs cs)

pub lt_str_total : (a b : Str) → lt_str a b ≡ false → eq_str a b ≡ false → lt_str b a ≡ true
lt_str_total [] [] p q = cc
lt_str_total [] (b ∷ bs) p q = cc
lt_str_total (a ∷ as') [] p q = refl
lt_str_total (a ∷ as') (b ∷ bs) p q = ground (arith, lt_str_total as' bs)

instance abbrev pub str_order : Order Str
str_order = record {
  lt = lt_str;
  eq = eq_str;
  eq_iff = eq_str_iff;
  lt_irrefl = lt_str_irrefl;
  lt_trans = lt_str_trans;
  lt_total = lt_str_total;
}

module _ {ℓ} {K : Type ℓ} ⦃o : Order K⦄ where
  pub eq_refl : (a : K) → o.eq a a ≡ true
  eq_refl a = (o.eq_iff a a).1 refl

  -- Exactly one of `<`, `==`, `>` holds.
  pub eq_of_lt : (a b : K) → o.lt a b ≡ true → o.eq a b ≡ false
  eq_of_lt a b h = ground (arith, o.eq_iff a b, o.lt_irrefl a)

  pub eq_of_gt : (a b : K) → o.lt b a ≡ true → o.eq a b ≡ false
  eq_of_gt a b h = ground (arith, o.eq_iff a b, o.lt_irrefl a)

  pub lt_asymm : (a b : K) → o.lt a b ≡ true → o.lt b a ≡ false
  lt_asymm a b h = ground (arith, o.lt_trans a b a, o.lt_irrefl a)

  pub eq_of_not_lt : (a b : K) → o.lt a b ≡ false → o.lt b a ≡ false → a ≡ b
  eq_of_not_lt a b p q = ground (arith, o.eq_iff a b, o.lt_total a b)
