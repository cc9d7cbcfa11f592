-- ===== src/Base/Dict.antt =====
-- Python's `dict` as a list of entries in the order of insertion, and the keys of an `OrderedDict`.
use Prim.Native.Nat.{ℕ, ◌+◌}
use mathlib.Core.Path.{◌≡◌, refl}
use mathlib.Core.Logic.{◌↔◌}
use mathlib.Core.Bool.{Bool, true, false, ◌&&◌, ◌||◌}
use mathlib.Core.Option.{Option, none, some}
use mathlib.Core.List.{List, [], ◌∷◌, ◌++◌}
use native.Mathlib.Omega.{arith}
use cachy_db.Base.Tests.{◌==◌, ==_iff, if◌then◌else◌, is_some}
use cachy_db.Base.Lists.{length}
use cachy_db.Base.Keys.{Str, eq_str, eq_str_iff}

-- `==` of a type of keys.
pub record Eq {ℓ} (K : Type ℓ) : Type ℓ where
  pub beq : K → K → Bool
  pub beq_iff : (a b : K) → (beq a b ≡ true) ↔ (a ≡ b)

instance abbrev pub str_eq : Eq Str
str_eq = record { beq = eq_str; beq_iff = eq_str_iff }

instance abbrev pub nat_eq : Eq ℕ
nat_eq = record { beq = ◌==◌; beq_iff = ==_iff }

-- A pair of texts, such as (table, key).
abbrev pub pair_beq : Str × Str → Str × Str → Bool
pair_beq a b = eq_str a.0 b.0 && eq_str a.1 b.1

pub pair_beq_iff : (a b : Str × Str) → (pair_beq a b ≡ true) ↔ (a ≡ b)
pair_beq_iff a b = ground (arith, eq_str_iff a.0 b.0, eq_str_iff a.1 b.1)

instance abbrev pub pair_eq : Eq (Str × Str)
pair_eq = record { beq = pair_beq; beq_iff = pair_beq_iff }

module _ {ℓ} {K : Type ℓ} ⦃e : Eq K⦄ where
  -- `key in group`
  unfoldable pub mem : K → List K → Bool
  mem k [] = false
  mem k (j ∷ l) = e.beq k j || mem k l

  -- `group[key] = None`: a new key goes to the end.
  unfoldable pub append_key : K → List K → List K
  append_key k [] = k ∷ []
  append_key k (j ∷ l) = if e.beq k j then j ∷ l else j ∷ append_key k l

  -- `del group[key]`
  unfoldable pub remove_key : K → List K → List K
  remove_key k [] = []
  remove_key k (j ∷ l) = let rest = remove_key k l in if e.beq k j then rest else j ∷ rest

  -- No key twice.
  abbrev pub Distinct : List K → Type 0
  Distinct [] = Unit
  Distinct (j ∷ l) = (mem j l ≡ false) × Distinct l

  pub beq_refl : (k : K) → e.beq k k ≡ true
  beq_refl k = (e.beq_iff k k).1 refl

  pub mem-append_key : (k j : K) (l : List K) → mem j (append_key k l) ≡ (e.beq j k || mem j l)
  unfolding mem append_key
  mem-append_key k j [] = refl
  mem-append_key k j (i ∷ l) =
      ground (arith, mem-append_key k j l, e.beq_iff k i, e.beq_iff j i, e.beq_iff j k)

  pub mem-remove_key :
      (k j : K) (l : List K) → mem j (remove_key k l) ≡ (if e.beq j k then false else mem j l)
  unfolding mem remove_key
  mem-remove_key k j [] = ground arith
  mem-remove_key k j (i ∷ l) =
      ground (arith, mem-remove_key k j l, e.beq_iff k i, e.beq_iff j i, e.beq_iff j k)

  pub mem-append : (j k : K) (l : List K) → mem j (l ++ k ∷ []) ≡ (e.beq j k || mem j l)
  unfolding mem
  mem-append j k [] = refl
  mem-append j k (i ∷ l) = ground (arith, mem-append j k l)

  pub append_key-Distinct : (k : K) (l : List K) → Distinct l → Distinct (append_key k l)
  unfolding mem append_key
  append_key-Distinct k [] d = (refl, tt)
  append_key-Distinct k (i ∷ l) d =
      ground
        (arith, append_key-Distinct k l d.1, mem-append_key k i l, e.beq_iff k i, e.beq_iff i k)

  pub remove_key-Distinct : (k : K) (l : List K) → Distinct l → Distinct (remove_key k l)
  unfolding mem remove_key
  remove_key-Distinct k [] d = tt
  remove_key-Distinct k (i ∷ l) d =
      ground
        (arith, remove_key-Distinct k l d.1, mem-remove_key k i l, e.beq_iff k i, e.beq_iff i k)

module _ {ℓ κ} {K : Type ℓ} {V : Type κ} ⦃e : Eq K⦄ where
  -- `d.get(k)`
  unfoldable pub get : K → List (K × V) → Option V
  get k [] = none
  get k (x ∷ d) = if e.beq k x.0 then some x.1 else get k d

  -- `d[k] = v`
  unfoldable pub put : K → V → List (K × V) → List (K × V)
  put k v [] = (k, v) ∷ []
  put k v (x ∷ d) = if e.beq k x.0 then (k, v) ∷ d else x ∷ put k v d

  -- `del d[k]`, `d.pop(k, None)`
  unfoldable pub remove : K → List (K × V) → List (K × V)
  remove k [] = []
  remove k (x ∷ d) = let rest = remove k d in if e.beq k x.0 then rest else x ∷ rest

  -- A key has one entry.
  abbrev pub Unique : List (K × V) → Type κ
  Unique [] = Unit
  Unique (x ∷ d) = (get x.0 d ≡ none) × Unique d

  pub get-put :
      (k j : K) (v : V) (d : List (K × V))
      → get j (put k v d) ≡ (if e.beq j k then some v else get j d)
  unfolding get put
  get-put k j v [] = refl
  get-put k j v (x ∷ d) =
      ground (arith, get-put k j v d, e.beq_iff j k, e.beq_iff j x.0, e.beq_iff k x.0)

  pub get-remove :
      (k j : K) (d : List (K × V)) → get j (remove k d) ≡ (if e.beq j k then none else get j d)
  unfolding get remove
  get-remove k j [] = ground arith
  get-remove k j (x ∷ d) =
      ground (arith, get-remove k j d, e.beq_iff j k, e.beq_iff j x.0, e.beq_iff k x.0)

  pub put-Unique : (k : K) (v : V) (d : List (K × V)) → Unique d → Unique (put k v d)
  unfolding get put
  put-Unique k v [] u = (refl, tt)
  put-Unique k v (x ∷ d) u =
      ground (arith, put-Unique k v d u.1, get-put k x.0 v d, e.beq_iff k x.0, e.beq_iff x.0 k)

  pub remove-Unique : (k : K) (d : List (K × V)) → Unique d → Unique (remove k d)
  unfolding get remove
  remove-Unique k [] u = tt
  remove-Unique k (x ∷ d) u =
      ground (arith, remove-Unique k d u.1, get-remove k x.0 d, e.beq_iff x.0 k, e.beq_iff k x.0)

  pub length-put :
      (k : K) (v : V) (d : List (K × V))
      → length (put k v d) ≡ (if is_some (get k d) then length d else length d + 1)
  unfolding get put
  length-put k v [] = omega arith
  length-put k v (x ∷ d) = ground (arith, length-put k v d)

  pub remove_absent : (k : K) (d : List (K × V)) → get k d ≡ none → remove k d ≡ d
  unfolding get remove
  remove_absent k [] a = refl
  remove_absent k (x ∷ d) a = ground (arith, remove_absent k d)

  pub length-remove :
      (k : K) (d : List (K × V))
      → Unique d
      → length (remove k d) + (if is_some (get k d) then 1 else 0) ≡ length d
  unfolding get remove
  length-remove k [] u = refl
  length-remove k (x ∷ d) u =
      ground (arith, length-remove k d u.1, remove_absent k d, e.beq_iff k x.0)
