-- ===== src/BTree/Children.antt =====
-- The keys and the children of a sorted node: ascending keys, sorted children, and the child that a
-- lookup goes on with.
use cachy_db.Base.{
  ℕ, zero, suc, ◌≡◌, true, some, List, [], ◌∷◌, map, arith, length, get_elem?, Order, get_elem?-map,
  length-map,
}
use cachy_db.BTree.{Node, node, to_list, keys, children}
use cachy_db.BTree.Flat.{pairs, join, All-pairs_keys, All-join_keys}
use cachy_db.BTree.Sorted.{IsSorted, lookup, IsSorted-append_left, IsSorted-append_right}
use cachy_db.BTree.Places.{Slot, Ascending}
use cachy_db.BTree.Effects.{lookup-join_child}
use cachy_db.BTree.Shape.{flat, flats-map, IsTree}

module _ {ℓ} {K V : Type ℓ} ⦃o : Order K⦄ where
  pub Ascending-pairs :
      (ks : List K) (vs : List V) → length vs ≡ length ks → IsSorted (pairs ks vs) → Ascending ks
  Ascending-pairs [] vs l h = tt
  Ascending-pairs (k ∷ ks) [] l h = absurd (omega arith)
  Ascending-pairs (k ∷ ks) (v ∷ vs) l h = (
    All-pairs_keys (λ j. o.lt k j ≡ true) ks vs (omega arith) h.0,
    Ascending-pairs ks vs (omega arith) h.1,
  )

  pub Ascending-join :
      (as' : List (List (K × V))) (ks : List K) (vs : List V)
      → length as' ≡ suc (length ks)
      → length vs ≡ length ks
      → IsSorted (join as' ks vs)
      → Ascending ks
  Ascending-join as' [] vs l m h = tt
  Ascending-join [] (k ∷ ks) vs l m h = absurd (omega arith)
  Ascending-join (a ∷ as') (k ∷ ks) [] l m h = absurd (omega arith)
  Ascending-join (a ∷ as') (k ∷ ks) (v ∷ vs) l m h =
      let rest = IsSorted-append_right a ((k, v) ∷ join as' ks vs) h in
      (
        All-join_keys (λ j. o.lt k j ≡ true) as' ks vs (omega arith) (omega arith) rest.0,
        Ascending-join as' ks vs (omega arith) (omega arith) rest.1,
      )

  pub IsSorted-join_child :
      (j : ℕ) (as' : List (List (K × V))) (ks : List K) (vs : List V) {a : List (K × V)}
      → get_elem? as' j ≡ some a
      → length as' ≡ suc (length ks)
      → length vs ≡ length ks
      → IsSorted (join as' ks vs)
      → IsSorted a
  IsSorted-join_child j [] ks vs e l m h = cc
  IsSorted-join_child zero (b ∷ as') [] vs {a} e l m h = let x : a ≡ b = cc in rw x h
  IsSorted-join_child (suc j) (b ∷ []) [] vs e l m h = cc
  IsSorted-join_child (suc j) (b ∷ b' ∷ as') [] vs e l m h = absurd (omega arith)
  IsSorted-join_child j (b ∷ as') (k ∷ ks) [] e l m h = absurd (omega arith)
  IsSorted-join_child zero (b ∷ as') (k ∷ ks) (v ∷ vs) {a} e l m h =
      let x : a ≡ b = cc in rw x (IsSorted-append_left b ((k, v) ∷ join as' ks vs) h)
  IsSorted-join_child (suc j) (b ∷ as') (k ∷ ks) (v ∷ vs) e l m h =
      IsSorted-join_child j as' ks vs e (omega arith) (omega arith)
        (IsSorted-append_right b ((k, v) ∷ join as' ks vs) h).1

  pub lookup-child :
      (t h i : ℕ) (n b : Node K V) (key : K)
      → IsTree t (suc h) n
      → IsSorted (flat n)
      → Slot (keys n) i key
      → get_elem? (children n) i ≡ some b
      → lookup key (flat n) ≡ lookup key (flat b)
  unfolding flat
  lookup-child t h i (node leaf ks vs cs) b key (x, p, q, r, c) s slot g =
      let l = to_list cs in
      let as' = map flat l in
      let la : length as' ≡ suc (length ks) = omega (arith, length-map {ℓ, ℓ} flat l) in
      let s' : IsSorted (join as' ks vs) = rw (x, flats-map cs) at s in
      rw (x, flats-map cs)
        (lookup-join_child i as' ks vs key (get_elem?-map flat l i g) slot s' la p)

  pub IsSorted-child :
      (t h i : ℕ) (n b : Node K V)
      → IsTree t (suc h) n
      → IsSorted (flat n)
      → get_elem? (children n) i ≡ some b
      → IsSorted (flat b)
  unfolding flat
  IsSorted-child t h i (node leaf ks vs cs) b (x, p, q, r, c) s g =
      let l = to_list cs in
      let as' = map flat l in
      let la : length as' ≡ suc (length ks) = omega (arith, length-map {ℓ, ℓ} flat l) in
      let s' : IsSorted (join as' ks vs) = rw (x, flats-map cs) at s in
      IsSorted-join_child i as' ks vs (get_elem?-map flat l i g) la p s'
