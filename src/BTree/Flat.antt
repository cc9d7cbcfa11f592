-- ===== src/BTree/Flat.antt =====
-- The sorted entries of a tree in a list, and what the pieces of a node contribute to it.
use cachy_db.Base.{
  ℕ, zero, suc, ◌≡◌, refl, ap, some, List, [], ◌∷◌, ◌++◌, append_assoc, arith, length, get_elem?,
  set, take, drop, insert_at, All, All-append_left, All-get_elem?, All-append_right,
}

module _ {ℓ} {K V : Type ℓ} where
  -- The entries of a leaf.
  abbrev pub pairs : List K → List V → List (K × V)
  pairs [] vs = []
  pairs (k ∷ ks) [] = []
  pairs (k ∷ ks) (v ∷ vs) = (k, v) ∷ pairs ks vs

  -- The entries of an internal node, from those of its children.
  abbrev pub join : List (List (K × V)) → List K → List V → List (K × V)
  join [] ks vs = []
  join (a ∷ as') [] vs = a
  join (a ∷ as') (k ∷ ks) [] = a
  join (a ∷ as') (k ∷ ks) (v ∷ vs) = a ++ ((k, v) ∷ join as' ks vs)

  pub pairs-cut :
      (n : ℕ) (ks : List K) (vs : List V) {k : K} {v : V}
      → get_elem? ks n ≡ some k
      → get_elem? vs n ≡ some v
      → pairs (take n ks) (take n vs) ++ ((k, v) ∷ pairs (drop (suc n) ks) (drop (suc n) vs))
        ≡ pairs ks vs
  pairs-cut n [] vs p q = cc
  pairs-cut n (a ∷ ks) [] p q = cc
  pairs-cut zero (a ∷ ks) (b ∷ vs) p q = cc
  pairs-cut (suc n) (a ∷ ks) (b ∷ vs) p q = ap (◌∷◌ (a, b)) (pairs-cut n ks vs p q)

  pub join-cut :
      (n : ℕ) (as' : List (List (K × V))) (ks : List K) (vs : List V) {k : K} {v : V}
      → get_elem? ks n ≡ some k
      → get_elem? vs n ≡ some v
      → length as' ≡ suc (length ks)
      → join (take (suc n) as') (take n ks) (take n vs)
          ++ ((k, v) ∷ join (drop (suc n) as') (drop (suc n) ks) (drop (suc n) vs))
        ≡ join as' ks vs
  join-cut n as' [] vs p q l = cc
  join-cut n as' (a ∷ ks) [] p q l = cc
  join-cut n [] (a ∷ ks) (b ∷ vs) p q l = absurd (omega arith)
  join-cut zero (e ∷ as') (a ∷ ks) (b ∷ vs) p q l = cc
  join-cut (suc n) (e ∷ as') (a ∷ ks) (b ∷ vs) p q l =
      rw append_assoc (ap (λ r. e ++ ((a, b) ∷ r)) (join-cut n as' ks vs p q (omega arith)))

  -- A child cut in two around an entry that moves up.
  pub join-split :
      (i : ℕ) (as' : List (List (K × V))) (ks : List K) (vs : List V) (l r : List (K × V)) (k : K)
      (v : V)
      → get_elem? as' i ≡ some (l ++ ((k, v) ∷ r))
      → length as' ≡ suc (length ks)
      → length vs ≡ length ks
      → join (insert_at (suc i) r (set as' i l)) (insert_at i k ks) (insert_at i v vs)
        ≡ join as' ks vs
  join-split i [] ks vs l r k v p q s = cc
  join-split zero (a ∷ as') [] [] l r k v p q s = cc
  join-split zero (a ∷ as') [] (c ∷ vs) l r k v p q s = absurd (omega arith)
  join-split zero (a ∷ as') (b ∷ ks) [] l r k v p q s = absurd (omega arith)
  join-split zero (a ∷ as') (b ∷ ks) (c ∷ vs) l r k v p q s =
      let e : l ++ ((k, v) ∷ r) ≡ a = cc in rw (← e, append_assoc) refl
  join-split (suc i) (a ∷ []) ks vs l r k v p q s = cc
  join-split (suc i) (a ∷ a' ∷ as') [] vs l r k v p q s = absurd (omega arith)
  join-split (suc i) (a ∷ a' ∷ as') (b ∷ ks) [] l r k v p q s = absurd (omega arith)
  join-split (suc i) (a ∷ a' ∷ as') (b ∷ ks) (c ∷ vs) l r k v p q s =
      ap (λ t. a ++ ((b, c) ∷ t))
        (join-split i (a' ∷ as') ks vs l r k v p (omega arith) (omega arith))

-- What all entries of a node satisfy, the entries of a child do.
module _ {ℓ κ} {K V : Type ℓ} (P : K × V → Type κ) where
  pub All-join_child :
      (j : ℕ) (as' : List (List (K × V))) (ks : List K) (vs : List V) {a : List (K × V)}
      → get_elem? as' j ≡ some a
      → length as' ≡ suc (length ks)
      → length vs ≡ length ks
      → All P (join as' ks vs)
      → All P a
  All-join_child j [] ks vs p q s h = cc
  All-join_child zero (e ∷ as') [] vs {a} p q s h = let x : a ≡ e = cc in rw x h
  All-join_child (suc j) (e ∷ []) [] vs p q s h = cc
  All-join_child (suc j) (e ∷ e' ∷ as') [] vs p q s h = absurd (omega arith)
  All-join_child j (e ∷ as') (k ∷ ks) [] p q s h = absurd (omega arith)
  All-join_child zero (e ∷ as') (k ∷ ks) (v ∷ vs) {a} p q s h =
      let x : a ≡ e = cc in rw x (All-append_left P e ((k, v) ∷ join as' ks vs) h)
  All-join_child (suc j) (e ∷ as') (k ∷ ks) (v ∷ vs) p q s h =
      All-join_child j as' ks vs p (omega arith) (omega arith)
        (All-append_right P e ((k, v) ∷ join as' ks vs) h).1

-- What holds of all keys of the entries holds of the keys of the node.
module _ {ℓ κ} {K V : Type ℓ} (P : K → Type κ) where
  pub All-pairs_keys :
      (ks : List K) (vs : List V)
      → length vs ≡ length ks
      → All (λ e. P e.0) (pairs ks vs)
      → All P ks
  All-pairs_keys [] vs l h = tt
  All-pairs_keys (k ∷ ks) [] l h = absurd (omega arith)
  All-pairs_keys (k ∷ ks) (v ∷ vs) l h = (h.0, All-pairs_keys ks vs (omega arith) h.1)

  pub All-join_keys :
      (as' : List (List (K × V))) (ks : List K) (vs : List V)
      → length as' ≡ suc (length ks)
      → length vs ≡ length ks
      → All (λ e. P e.0) (join as' ks vs)
      → All P ks
  All-join_keys as' [] vs l m h = tt
  All-join_keys [] (k ∷ ks) vs l m h = absurd (omega arith)
  All-join_keys (a ∷ as') (k ∷ ks) [] l m h = absurd (omega arith)
  All-join_keys (a ∷ as') (k ∷ ks) (v ∷ vs) l m h =
      let rest = All-append_right (λ e. P e.0) a ((k, v) ∷ join as' ks vs) h in
      (rest.0, All-join_keys as' ks vs (omega arith) (omega arith) rest.1)

  pub All-pairs_key :
      (i : ℕ) (ks : List K) (vs : List V) {key : K}
      → get_elem? ks i ≡ some key
      → length vs ≡ length ks
      → All (λ e. P e.0) (pairs ks vs)
      → P key
  All-pairs_key i ks vs e l h = All-get_elem? P ks i (All-pairs_keys ks vs l h) e

  pub All-join_key :
      (i : ℕ) (as' : List (List (K × V))) (ks : List K) (vs : List V) {key : K}
      → get_elem? ks i ≡ some key
      → length as' ≡ suc (length ks)
      → length vs ≡ length ks
      → All (λ e. P e.0) (join as' ks vs)
      → P key
  All-join_key i as' ks vs e l m h = All-get_elem? P ks i (All-join_keys as' ks vs l m h) e
