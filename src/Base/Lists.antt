-- ===== src/Base/Lists.antt =====
-- Python's lists over the native numbers: lengths, indices, slices, insertion.
use Prim.Native.Nat.{ℕ, zero, suc, ◌+◌, ◌-◌, ◌<◌, min}
use mathlib.Core.Path.{◌≡◌, refl, ap, subst}
use mathlib.Core.Option.{Option, none, some}
use mathlib.Core.List.{List, [], ◌∷◌, ◌++◌, map}
use native.Mathlib.Omega.{arith}

module _ {ℓ} {A : Type ℓ} where
  abbrev pub length : List A → ℕ
  length [] = 0
  length (x ∷ xs) = suc (length xs)

  -- `l[i]`; `none` is the IndexError.
  abbrev pub get_elem? : List A → ℕ → Option A
  get_elem? [] i = none
  get_elem? (x ∷ xs) zero = some x
  get_elem? (x ∷ xs) (suc i) = get_elem? xs i

  -- `l[i] = v`, for an index that is in range.
  abbrev pub set : List A → ℕ → A → List A
  set [] i v = []
  set (x ∷ xs) zero v = v ∷ xs
  set (x ∷ xs) (suc i) v = x ∷ set xs i v

  -- `l[:n]`
  abbrev pub take : ℕ → List A → List A
  take zero xs = []
  take (suc n) [] = []
  take (suc n) (x ∷ xs) = x ∷ take n xs

  -- `l[n:]`
  abbrev pub drop : ℕ → List A → List A
  drop zero xs = xs
  drop (suc n) [] = []
  drop (suc n) (x ∷ xs) = drop n xs

  -- `l.insert(i, v)`: past the end it appends.
  abbrev pub insert_at : ℕ → A → List A → List A
  insert_at zero v xs = v ∷ xs
  insert_at (suc i) v [] = v ∷ []
  insert_at (suc i) v (x ∷ xs) = x ∷ insert_at i v xs

  abbrev pub replicate : ℕ → A → List A
  replicate zero a = []
  replicate (suc n) a = a ∷ replicate n a

  abbrev pub All {κ} : (A → Type κ) → List A → Type κ
  All P [] = Unit {κ}
  All P (x ∷ xs) = P x × All P xs

module _ {ℓ} {A : Type ℓ} where
  pub length-append : (xs ys : List A) → length (xs ++ ys) ≡ length xs + length ys
  length-append [] ys = omega arith
  length-append (x ∷ xs) ys = omega (arith, length-append xs ys)

  pub length-set : (xs : List A) (i : ℕ) (v : A) → length (set xs i v) ≡ length xs
  length-set [] i v = refl
  length-set (x ∷ xs) zero v = refl
  length-set (x ∷ xs) (suc i) v = ap suc (length-set xs i v)

  pub length-insert_at : (i : ℕ) (v : A) (xs : List A) → length (insert_at i v xs) ≡ length xs + 1
  length-insert_at zero v xs = omega arith
  length-insert_at (suc i) v [] = omega arith
  length-insert_at (suc i) v (x ∷ xs) = omega (arith, length-insert_at i v xs)

  pub length-take : (n : ℕ) (xs : List A) → length (take n xs) ≡ min n (length xs)
  length-take zero xs = omega arith
  length-take (suc n) [] = omega arith
  length-take (suc n) (x ∷ xs) = omega (arith, length-take n xs)

  pub length-drop : (n : ℕ) (xs : List A) → length (drop n xs) ≡ length xs - n
  length-drop zero xs = omega arith
  length-drop (suc n) [] = omega arith
  length-drop (suc n) (x ∷ xs) = omega (arith, length-drop n xs)

  pub length-replicate : (n : ℕ) (a : A) → length (replicate n a) ≡ n
  length-replicate zero a = refl
  length-replicate (suc n) a = ap suc (length-replicate n a)

  pub take-append-drop : (n : ℕ) (xs : List A) → take n xs ++ drop n xs ≡ xs
  take-append-drop zero xs = refl
  take-append-drop (suc n) [] = refl
  take-append-drop (suc n) (x ∷ xs) = ap (◌∷◌ x) (take-append-drop n xs)

  pub get_elem?-lt : (xs : List A) (i : ℕ) → i < length xs → (a : A) × (get_elem? xs i ≡ some a)
  get_elem?-lt [] i h = elim h [ ]
  get_elem?-lt (x ∷ xs) zero h = (x, refl)
  get_elem?-lt (x ∷ xs) (suc i) h = get_elem?-lt xs i (omega arith)

module _ {ℓ κ} {A : Type ℓ} (P : A → Type κ) where
  pub All-get_elem? : (xs : List A) (i : ℕ) {a : A} → All P xs → get_elem? xs i ≡ some a → P a
  All-get_elem? [] i h e = cc
  All-get_elem? (x ∷ xs) zero {a} h e = let p : x ≡ a = cc in subst P p h.0
  All-get_elem? (x ∷ xs) (suc i) h e = All-get_elem? xs i h.1 e

  pub All-set : (xs : List A) (i : ℕ) (a : A) → All P xs → P a → All P (set xs i a)
  All-set [] i a h p = tt
  All-set (x ∷ xs) zero a h p = (p, h.1)
  All-set (x ∷ xs) (suc i) a h p = (h.0, All-set xs i a h.1 p)

  pub All-insert_at : (i : ℕ) (a : A) (xs : List A) → All P xs → P a → All P (insert_at i a xs)
  All-insert_at zero a xs h p = (p, h)
  All-insert_at (suc i) a [] h p = (p, tt)
  All-insert_at (suc i) a (x ∷ xs) h p = (h.0, All-insert_at i a xs h.1 p)

  pub All-take : (n : ℕ) (xs : List A) → All P xs → All P (take n xs)
  All-take zero xs h = tt
  All-take (suc n) [] h = tt
  All-take (suc n) (x ∷ xs) h = (h.0, All-take n xs h.1)

  pub All-drop : (n : ℕ) (xs : List A) → All P xs → All P (drop n xs)
  All-drop zero xs h = h
  All-drop (suc n) [] h = tt
  All-drop (suc n) (x ∷ xs) h = All-drop n xs h.1

  pub All-append : (xs ys : List A) → All P xs → All P ys → All P (xs ++ ys)
  All-append [] ys h k = k
  All-append (x ∷ xs) ys h k = (h.0, All-append xs ys h.1 k)

  pub All-append_left : (xs ys : List A) → All P (xs ++ ys) → All P xs
  All-append_left [] ys h = tt
  All-append_left (x ∷ xs) ys h = (h.0, All-append_left xs ys h.1)

  pub All-append_right : (xs ys : List A) → All P (xs ++ ys) → All P ys
  All-append_right [] ys h = h
  All-append_right (x ∷ xs) ys h = All-append_right xs ys h.1

module _ {ℓ κ} {A : Type ℓ} {B : Type κ} (f : A → B) where
  pub length-map : (xs : List A) → length (map f xs) ≡ length xs
  length-map [] = refl
  length-map (x ∷ xs) = ap suc (length-map xs)

  pub get_elem?-map :
      (xs : List A) (i : ℕ) {a : A} → get_elem? xs i ≡ some a → get_elem? (map f xs) i ≡ some (f a)
  get_elem?-map [] i e = cc
  get_elem?-map (x ∷ xs) zero e = cc
  get_elem?-map (x ∷ xs) (suc i) e = get_elem?-map xs i e

  pub map-set : (xs : List A) (i : ℕ) (a : A) → map f (set xs i a) ≡ set (map f xs) i (f a)
  map-set [] i a = refl
  map-set (x ∷ xs) zero a = refl
  map-set (x ∷ xs) (suc i) a = ap (◌∷◌ (f x)) (map-set xs i a)

  pub map-insert_at :
      (i : ℕ) (a : A) (xs : List A) → map f (insert_at i a xs) ≡ insert_at i (f a) (map f xs)
  map-insert_at zero a xs = refl
  map-insert_at (suc i) a [] = refl
  map-insert_at (suc i) a (x ∷ xs) = ap (◌∷◌ (f x)) (map-insert_at i a xs)

  pub map-take : (n : ℕ) (xs : List A) → map f (take n xs) ≡ take n (map f xs)
  map-take zero xs = refl
  map-take (suc n) [] = refl
  map-take (suc n) (x ∷ xs) = ap (◌∷◌ (f x)) (map-take n xs)

  pub map-drop : (n : ℕ) (xs : List A) → map f (drop n xs) ≡ drop n (map f xs)
  map-drop zero xs = refl
  map-drop (suc n) [] = refl
  map-drop (suc n) (x ∷ xs) = map-drop n xs

-- An element replaced by two.
module _ {ℓ} {A : Type ℓ} where
  pub get_elem?-split_left :
      (xs : List A) (i : ℕ) (a b : A) {c : A}
      → get_elem? xs i ≡ some c
      → get_elem? (insert_at (suc i) b (set xs i a)) i ≡ some a
  get_elem?-split_left [] i a b e = cc
  get_elem?-split_left (x ∷ xs) zero a b e = refl
  get_elem?-split_left (x ∷ xs) (suc i) a b e = get_elem?-split_left xs i a b e

  pub get_elem?-split_right :
      (xs : List A) (i : ℕ) (a b : A) {c : A}
      → get_elem? xs i ≡ some c
      → get_elem? (insert_at (suc i) b (set xs i a)) (suc i) ≡ some b
  get_elem?-split_right [] i a b e = cc
  get_elem?-split_right (x ∷ xs) zero a b e = refl
  get_elem?-split_right (x ∷ xs) (suc i) a b e = get_elem?-split_right xs i a b e

-- A second list that is as long has an element at the same index.
pub get_elem?-same_length {ℓ κ} :
    {A : Type ℓ} {B : Type κ} (xs : List A) (ys : List B) (i : ℕ) {a : A}
    → length ys ≡ length xs
    → get_elem? xs i ≡ some a
    → (b : B) × (get_elem? ys i ≡ some b)
get_elem?-same_length [] ys i l e = cc
get_elem?-same_length (x ∷ xs) [] i l e = absurd (omega arith)
get_elem?-same_length (x ∷ xs) (y ∷ ys) zero l e = (y, refl)
get_elem?-same_length (x ∷ xs) (y ∷ ys) (suc i) l e = get_elem?-same_length xs ys i (omega arith) e

pub lt_of_get_elem? {ℓ} :
    {A : Type ℓ} (xs : List A) (i : ℕ) {a : A} → get_elem? xs i ≡ some a → i < length xs
lt_of_get_elem? [] i e = cc
lt_of_get_elem? (x ∷ xs) zero e = omega arith
lt_of_get_elem? (x ∷ xs) (suc i) e = omega (arith, lt_of_get_elem? xs i e)

module _ {ℓ} {A : Type ℓ} where
  pub get_elem?-append_left :
      (xs ys : List A) (i : ℕ) {a : A} → get_elem? xs i ≡ some a → get_elem? (xs ++ ys) i ≡ some a
  get_elem?-append_left [] ys i e = cc
  get_elem?-append_left (x ∷ xs) ys zero e = e
  get_elem?-append_left (x ∷ xs) ys (suc i) e = get_elem?-append_left xs ys i e

  pub get_elem?-append_here :
      (xs ys : List A) (a : A) → get_elem? (xs ++ a ∷ ys) (length xs) ≡ some a
  get_elem?-append_here [] ys a = refl
  get_elem?-append_here (x ∷ xs) ys a = get_elem?-append_here xs ys a
