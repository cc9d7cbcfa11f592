-- ===== src/BTree/Effects.antt =====
-- What is done at one place of a node is done to the sorted entries: an insertion into a leaf or
-- into a child, a new value, a lookup.
use cachy_db.Base.{
  ℕ, zero, suc, ◌≡◌, refl, ap, true, some, List, [], ◌∷◌, ◌++◌, arith, length, get_elem?, set,
  insert_at, Order, sym, eq_of_gt, lt_asymm,
}
use cachy_db.BTree.Flat.{pairs, join, All-pairs_key, All-join_key}
use cachy_db.BTree.Sorted.{
  IsSorted, Above, Below, Absent, lookup, insert_sorted, Below-of_IsSorted, Below-of_IsSorted_self,
  insert_sorted-append_left, insert_sorted-append_right, insert_sorted_here, insert_sorted-cons,
  lookup-cons_self, lookup-cons_ne, IsSorted-append_right, Absent-of_Above, Absent-of_Below,
  Above-trans, lookup-append_left, lookup-append_right,
}
use cachy_db.BTree.Places.{Slot}

module _ {ℓ} {K V : Type ℓ} ⦃o : Order K⦄ where
  pub pairs-insert_at :
      (i : ℕ) (ks : List K) (vs : List V) (key : K) (v : V)
      → Slot ks i key
      → length vs ≡ length ks
      → pairs (insert_at i key ks) (insert_at i v vs) ≡ insert_sorted key v (pairs ks vs)
  unfolding insert_sorted
  pairs-insert_at zero [] [] key v s l = refl
  pairs-insert_at (suc i) [] [] key v s l = absurd s
  pairs-insert_at i [] (w ∷ vs) key v s l = absurd (omega arith)
  pairs-insert_at i (k ∷ ks) [] key v s l = absurd (omega arith)
  pairs-insert_at zero (k ∷ ks) (w ∷ vs) key v s l = rw (lt_asymm key k s, s)
  pairs-insert_at (suc i) (k ∷ ks) (w ∷ vs) key v s l =
      rw (s.0) (ap (◌∷◌ (k, w)) (pairs-insert_at i ks vs key v s.1 (omega arith)))

  -- An insertion into the child between the keys that surround `key`.
  pub join-set_child :
      (j : ℕ) (as' : List (List (K × V))) (ks : List K) (vs : List V) (key : K) (v : V)
      {a : List (K × V)}
      → get_elem? as' j ≡ some a
      → Slot ks j key
      → IsSorted (join as' ks vs)
      → length as' ≡ suc (length ks)
      → length vs ≡ length ks
      → join (set as' j (insert_sorted key v a)) ks vs ≡ insert_sorted key v (join as' ks vs)
  join-set_child j [] ks vs key v e s h l m = cc
  join-set_child zero (b ∷ as') [] vs key v {a} e s h l m = let x : a ≡ b = cc in rw x
  join-set_child (suc j) (b ∷ as') [] vs key v e s h l m = absurd s
  join-set_child j (b ∷ as') (k ∷ ks) [] key v e s h l m = absurd (omega arith)
  join-set_child zero (b ∷ as') (k ∷ ks) (w ∷ vs) key v {a} e s h l m =
      let x : a ≡ b = cc in rw (x, insert_sorted-append_left key v b (k, w) (join as' ks vs) s)
  join-set_child (suc j) (b ∷ as') (k ∷ ks) (w ∷ vs) key v e s h l m =
      let rest = join as' ks vs in
      let below : Below key b = Below-of_IsSorted key k w b rest h s.0 in
      let ih =
        join-set_child j as' ks vs key v e s.1 (IsSorted-append_right b ((k, w) ∷ rest) h).1
          (omega arith) (omega arith) in
      rw (insert_sorted-append_right key v b ((k, w) ∷ rest) below, ih)
        (ap (λ r. b ++ r) (sym (insert_sorted-cons key k v w rest s.0)))

  -- A new value for a key of the node itself.
  pub pairs-set_value :
      (i : ℕ) (ks : List K) (vs : List V) (key : K) (v : V)
      → get_elem? ks i ≡ some key
      → IsSorted (pairs ks vs)
      → length vs ≡ length ks
      → pairs ks (set vs i v) ≡ insert_sorted key v (pairs ks vs)
  pairs-set_value i [] vs key v e h l = cc
  pairs-set_value i (k ∷ ks) [] key v e h l = absurd (omega arith)
  pairs-set_value zero (k ∷ ks) (w ∷ vs) key v e h l =
      let x : k ≡ key = cc in rw (x, insert_sorted_here key v w (pairs ks vs))
  pairs-set_value (suc i) (k ∷ ks) (w ∷ vs) key v e h l =
      let below : o.lt k key ≡ true =
        All-pairs_key (λ j. o.lt k j ≡ true) i ks vs e (omega arith) h.0 in
      rw (insert_sorted-cons key k v w (pairs ks vs) below)
        (ap (◌∷◌ (k, w)) (pairs-set_value i ks vs key v e h.1 (omega arith)))

  pub join-set_value :
      (i : ℕ) (as' : List (List (K × V))) (ks : List K) (vs : List V) (key : K) (v : V)
      → get_elem? ks i ≡ some key
      → IsSorted (join as' ks vs)
      → length as' ≡ suc (length ks)
      → length vs ≡ length ks
      → join as' ks (set vs i v) ≡ insert_sorted key v (join as' ks vs)
  join-set_value i as' [] vs key v e h l m = cc
  join-set_value i [] (k ∷ ks) vs key v e h l m = absurd (omega arith)
  join-set_value i (a ∷ as') (k ∷ ks) [] key v e h l m = absurd (omega arith)
  join-set_value zero (a ∷ as') (k ∷ ks) (w ∷ vs) key v e h l m =
      let x : k ≡ key = cc in
      let rest = join as' ks vs in
      let below : Below key a = rw (← x) (Below-of_IsSorted_self k w a rest h) in
      rw (
        x,
        insert_sorted-append_right key v a ((key, w) ∷ rest) below,
        insert_sorted_here key v w rest,
      )
  join-set_value (suc i) (a ∷ as') (k ∷ ks) (w ∷ vs) key v e h l m =
      let rest = join as' ks vs in
      let sorted : IsSorted ((k, w) ∷ rest) = IsSorted-append_right a ((k, w) ∷ rest) h in
      let p : o.lt k key ≡ true =
        All-join_key (λ j. o.lt k j ≡ true) i as' ks vs e (omega arith) (omega arith) sorted.0 in
      let below : Below key a = Below-of_IsSorted key k w a rest h p in
      rw
        (
          insert_sorted-append_right key v a ((k, w) ∷ rest) below,
          insert_sorted-cons key k v w rest p,
        )
        (ap (λ r. a ++ ((k, w) ∷ r))
          (join-set_value i as' ks vs key v e sorted.1 (omega arith) (omega arith)))

  -- A lookup at a key of the node, or below it.
  pub lookup-pairs_hit :
      (i : ℕ) (ks : List K) (vs : List V) (key : K)
      → get_elem? ks i ≡ some key
      → IsSorted (pairs ks vs)
      → length vs ≡ length ks
      → lookup key (pairs ks vs) ≡ get_elem? vs i
  lookup-pairs_hit i [] vs key e h l = cc
  lookup-pairs_hit i (k ∷ ks) [] key e h l = absurd (omega arith)
  lookup-pairs_hit zero (k ∷ ks) (v ∷ vs) key e h l =
      let x : k ≡ key = cc in rw (x, lookup-cons_self key v (pairs ks vs))
  lookup-pairs_hit (suc i) (k ∷ ks) (v ∷ vs) key e h l =
      let p : o.lt k key ≡ true =
        All-pairs_key (λ j. o.lt k j ≡ true) i ks vs e (omega arith) h.0 in
      rw (lookup-cons_ne key k v (pairs ks vs) (eq_of_gt key k p))
        (lookup-pairs_hit i ks vs key e h.1 (omega arith))

  pub Absent-pairs :
      (i : ℕ) (ks : List K) (vs : List V) (key : K)
      → Slot ks i key
      → IsSorted (pairs ks vs)
      → length vs ≡ length ks
      → Absent key (pairs ks vs)
  Absent-pairs zero [] vs key s h l = tt
  Absent-pairs (suc i) [] vs key s h l = absurd s
  Absent-pairs i (k ∷ ks) [] key s h l = tt
  Absent-pairs zero (k ∷ ks) (v ∷ vs) key s h l =
      Absent-of_Above key (pairs (k ∷ ks) (v ∷ vs)) (s, Above-trans key k (pairs ks vs) s h.0)
  Absent-pairs (suc i) (k ∷ ks) (v ∷ vs) key s h l =
      (eq_of_gt key k s.0, Absent-pairs i ks vs key s.1 h.1 (omega arith))

  pub lookup-join_hit :
      (i : ℕ) (as' : List (List (K × V))) (ks : List K) (vs : List V) (key : K)
      → get_elem? ks i ≡ some key
      → IsSorted (join as' ks vs)
      → length as' ≡ suc (length ks)
      → length vs ≡ length ks
      → lookup key (join as' ks vs) ≡ get_elem? vs i
  lookup-join_hit i as' [] vs key e h l m = cc
  lookup-join_hit i [] (k ∷ ks) vs key e h l m = absurd (omega arith)
  lookup-join_hit i (a ∷ as') (k ∷ ks) [] key e h l m = absurd (omega arith)
  lookup-join_hit zero (a ∷ as') (k ∷ ks) (v ∷ vs) key e h l m =
      let x : k ≡ key = cc in
      let rest = join as' ks vs in
      let below : Below key a = rw (← x) (Below-of_IsSorted_self k v a rest h) in
      rw (x, lookup-append_right key a ((key, v) ∷ rest) (Absent-of_Below key a below))
        (lookup-cons_self key v rest)
  lookup-join_hit (suc i) (a ∷ as') (k ∷ ks) (v ∷ vs) key e h l m =
      let rest = join as' ks vs in
      let sorted : IsSorted ((k, v) ∷ rest) = IsSorted-append_right a ((k, v) ∷ rest) h in
      let p : o.lt k key ≡ true =
        All-join_key (λ j. o.lt k j ≡ true) i as' ks vs e (omega arith) (omega arith) sorted.0 in
      let below : Below key a = Below-of_IsSorted key k v a rest h p in
      rw
        (
          lookup-append_right key a ((k, v) ∷ rest) (Absent-of_Below key a below),
          lookup-cons_ne key k v rest (eq_of_gt key k p),
        )
        (lookup-join_hit i as' ks vs key e sorted.1 (omega arith) (omega arith))

  pub lookup-join_child :
      (j : ℕ) (as' : List (List (K × V))) (ks : List K) (vs : List V) (key : K) {a : List (K × V)}
      → get_elem? as' j ≡ some a
      → Slot ks j key
      → IsSorted (join as' ks vs)
      → length as' ≡ suc (length ks)
      → length vs ≡ length ks
      → lookup key (join as' ks vs) ≡ lookup key a
  lookup-join_child j [] ks vs key e s h l m = cc
  lookup-join_child zero (b ∷ as') [] vs key {a} e s h l m = let x : a ≡ b = cc in rw x
  lookup-join_child (suc j) (b ∷ as') [] vs key e s h l m = absurd s
  lookup-join_child j (b ∷ as') (k ∷ ks) [] key e s h l m = absurd (omega arith)
  lookup-join_child zero (b ∷ as') (k ∷ ks) (v ∷ vs) key {a} e s h l m =
      let x : a ≡ b = cc in
      let rest = join as' ks vs in
      let sorted : IsSorted ((k, v) ∷ rest) = IsSorted-append_right b ((k, v) ∷ rest) h in
      let above : Above key ((k, v) ∷ rest) = (s, Above-trans key k rest s sorted.0) in
      rw (x, lookup-append_left key b ((k, v) ∷ rest) (Absent-of_Above key ((k, v) ∷ rest) above))
  lookup-join_child (suc j) (b ∷ as') (k ∷ ks) (v ∷ vs) key e s h l m =
      let rest = join as' ks vs in
      let below : Below key b = Below-of_IsSorted key k v b rest h s.0 in
      rw
        (
          lookup-append_right key b ((k, v) ∷ rest) (Absent-of_Below key b below),
          lookup-cons_ne key k v rest (eq_of_gt key k s.0),
        )
        (lookup-join_child j as' ks vs key e s.1 (IsSorted-append_right b ((k, v) ∷ rest) h).1
          (omega arith) (omega arith))
