-- ===== src/BTree/MemTable/Entries.antt =====
-- Counts, heights and traversals of the entries of a tree.
use cachy_db.Base.{
  ℕ, zero, suc, ◌+◌, ◌≡◌, refl, ap, false, none, some, List, [], ◌∷◌, Result, ok, raise,
  index_error, arith, length, All, Order, eq_of_not_lt, eq_of_gt, Bool-cases, inl, inr,
}
use cachy_db.BTree.{
  Node, node, Nodes, nil, cons, to_list, height, in_order, in_order_children, in_order_leaf,
}
use cachy_db.BTree.Flat.{pairs, join}
use cachy_db.BTree.Sorted.{
  IsSorted, lookup, insert_sorted, lookup_of_Absent, Absent-of_Above, Above-trans,
}
use cachy_db.BTree.Shape.{flat, flats, IsTree}

module _ {K V : Type 0} ⦃o : Order K⦄ where
  pub length-insert_sorted_new :
      (key : K) (v : V) (es : List (K × V))
      → lookup key es ≡ none
      → length (insert_sorted key v es) ≡ length es + 1
  unfolding insert_sorted lookup
  length-insert_sorted_new key v [] a = omega arith
  length-insert_sorted_new key v (e ∷ es) a =
      ground (arith, length-insert_sorted_new key v es, eq_of_not_lt e.0 key, o.eq_iff key e.0)

  pub length-insert_sorted_old :
      (key : K) (v w : V) (es : List (K × V))
      → IsSorted es
      → lookup key es ≡ some w
      → length (insert_sorted key v es) ≡ length es
  unfolding insert_sorted lookup
  length-insert_sorted_old key v w [] s a = cc
  length-insert_sorted_old key v w (e ∷ es) s a = elim (Bool-cases (o.lt e.0 key)) [
    | inl p ↦
        let ne : o.eq key e.0 ≡ false = eq_of_gt key e.0 p in
        let a' : lookup key es ≡ some w = rw (ne) at a in
        rw p (ap suc (length-insert_sorted_old key v w es s.1 a'))
    | inr p ↦ elim (Bool-cases (o.lt key e.0)) [
      | inl q ↦
          let absent =
            lookup_of_Absent key (e ∷ es)
              (Absent-of_Above key (e ∷ es) (q, Above-trans key e.0 es q s.0)) in
          absurd (cc (absent, a))
      | inr q ↦ rw (p, q)
    ]
  ]

module _ {K V : Type 0} where
  no_child : {c : Node K V} {cs : Nodes K V} → cons c cs ≡ nil → ⊥
  no_child e = cc

  pub height-IsTree : (t h : ℕ) (n : Node K V) → IsTree t h n → height n ≡ h
  unfolding height
  height-IsTree t zero (node leaf ks vs nil) (x, p, q, r) = refl
  height-IsTree t zero (node leaf ks vs (cons c cs)) (x, p, q, r) = absurd (no_child r)
  height-IsTree t (suc h) (node leaf ks vs nil) (x, p, q, r, c) = absurd (omega arith)
  height-IsTree t (suc h) (node leaf ks vs (cons b cs)) (x, p, q, r, c) =
      ap suc (height-IsTree t h b (c.0).0)

  in_order_leaf-pairs :
      (ks : List K) (vs : List V) → length vs ≡ length ks → in_order_leaf ks vs ≡ ok (pairs ks vs)
  unfolding in_order
  in_order_leaf-pairs [] vs l = refl
  in_order_leaf-pairs (k ∷ ks) [] l = absurd (omega arith)
  in_order_leaf-pairs (k ∷ ks) (v ∷ vs) l = rw (in_order_leaf-pairs ks vs (omega arith))

  -- The loop of `_in_order` lists what the children are known to list.
  in_order_children-join :
      (cs : Nodes K V) (ks : List K) (vs : List V) (last : Result (List (K × V)))
      → All (λ c. in_order c ≡ ok (flat c)) (to_list cs)
      → length (to_list cs) ≡ suc (length ks)
      → length vs ≡ length ks
      → in_order_children cs ks vs last ≡ ok (join (flats cs) ks vs)
  unfolding in_order flat
  in_order_children-join nil ks vs last h l m = absurd (omega arith)
  in_order_children-join (cons c nil) [] vs last h l m = h.0
  in_order_children-join (cons c (cons c' cs)) [] vs last h l m = absurd (omega arith)
  in_order_children-join (cons c cs) (k ∷ ks) [] last h l m = absurd (omega arith)
  in_order_children-join (cons c cs) (k ∷ ks) (v ∷ vs) last h l m =
      rw (h.0, in_order_children-join cs ks vs (ok (flat c)) h.1 (omega arith) (omega arith))

  All-map :
      {P Q : Node K V → Type 0} (l : List (Node K V))
      → ((n : Node K V) → P n → Q n)
      → All P l
      → All Q l
  All-map [] f h = tt
  All-map (n ∷ l) f h = (f n h.0, All-map l f h.1)

  -- `_in_order` lists the entries.
  pub in_order-flat : (t h : ℕ) (n : Node K V) → IsTree t h n → in_order n ≡ ok (flat n)
  unfolding in_order flat
  in_order-flat t zero (node leaf ks vs cs) (x, p, q, r) = rw x (in_order_leaf-pairs ks vs p)
  in_order-flat t (suc h) (node leaf ks vs cs) (x, p, q, r, c) = rw x (
      in_order_children-join cs ks vs (raise index_error)
        (All-map (to_list cs) (λ n d. in_order-flat t h n d.0) c) r p)
