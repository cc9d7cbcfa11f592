-- ===== src/BTree/Search.antt =====
-- `_search` reads the map of the sorted entries.
use cachy_db.Base.{
  ℕ, zero, suc, ◌≡◌, some, map, arith, ok, length, get_elem?, inl, inr, Bool-cases, Order,
  get_elem?-same_length, get_elem?-map, length-map, get_elem?-lt, All-get_elem?,
}
use cachy_db.BTree.{
  Node, node, Nodes, nil, cons, to_list, search_node, search_child, scan, found_at,
}
use cachy_db.BTree.Flat.{pairs, join}
use cachy_db.BTree.Sorted.{IsSorted, lookup, lookup_of_Absent}
use cachy_db.BTree.Places.{scan-Slot, get_elem?-scan, scan-le, bisect_left-eq-scan}
use cachy_db.BTree.Effects.{lookup-pairs_hit, Absent-pairs, lookup-join_hit, lookup-join_child}
use cachy_db.BTree.Shape.{flat, flats-map, IsTree, IsChild}
use cachy_db.BTree.Children.{Ascending-pairs, Ascending-join, IsSorted-join_child}

module _ {ℓ} {K V : Type ℓ} ⦃o : Order K⦄ where
  search_child-at :
      (cs : Nodes K V) (i : ℕ) (key : K) {c : Node K V}
      → get_elem? (to_list cs) i ≡ some c
      → search_child cs i key ≡ search_node c key
  unfolding search_node
  search_child-at nil i key e = cc
  search_child-at (cons b cs) zero key {c} e = let x : b ≡ c = cc in rw x
  search_child-at (cons b cs) (suc i) key e = search_child-at cs i key e

  -- The binary search of `_search` finds the value that the map of the entries has for the key.
  pub search_node-lookup :
      (t h : ℕ) (n : Node K V) (key : K)
      → IsTree t h n
      → IsSorted (flat n)
      → search_node n key ≡ ok (lookup key (flat n))
  unfolding search_node flat
  search_node-lookup t zero (node leaf ks vs cs) key (x, p, q, r) s =
      let s' : IsSorted (pairs ks vs) = rw (x) at s in
      let i = scan ks key in
      elim (Bool-cases (found_at ks i key)) [
        | inl f ↦
            let g = get_elem?-scan ks key f in
            let (v, gv) = get_elem?-same_length ks vs i p g in
            rw (
              x,
              bisect_left-eq-scan ks key (Ascending-pairs ks vs p s'),
              f,
              lookup-pairs_hit i ks vs key g s' p,
              gv,
            )
        | inr f ↦ rw (
          x,
          bisect_left-eq-scan ks key (Ascending-pairs ks vs p s'),
          f,
          lookup_of_Absent key (pairs ks vs) (Absent-pairs i ks vs key (scan-Slot ks key f) s' p),
        )
      ]
  search_node-lookup t (suc h) (node leaf ks vs cs) key (x, p, q, r, c) s =
      let l = to_list cs in
      let as' = map flat l in
      let la : length as' ≡ suc (length ks) = omega (arith, length-map {ℓ, ℓ} flat l) in
      let s' : IsSorted (join as' ks vs) = rw (x, flats-map cs) at s in
      let i = scan ks key in
      elim (Bool-cases (found_at ks i key)) [
        | inl f ↦
            let g = get_elem?-scan ks key f in
            let (v, gv) = get_elem?-same_length ks vs i p g in
            rw (
              x,
              flats-map cs,
              bisect_left-eq-scan ks key (Ascending-join as' ks vs la p s'),
              f,
              lookup-join_hit i as' ks vs key g s' la p,
              gv,
            )
        | inr f ↦
            let (b, gb) = get_elem?-lt l i (omega (arith, scan-le ks key)) in
            let ga : get_elem? as' i ≡ some (flat b) = get_elem?-map flat l i gb in
            let child : IsChild t h b = All-get_elem? (IsChild t h) l i c gb in
            rw
              (
                x,
                flats-map cs,
                bisect_left-eq-scan ks key (Ascending-join as' ks vs la p s'),
                f,
                search_child-at cs i key gb,
                lookup-join_child i as' ks vs key ga (scan-Slot ks key f) s' la p,
              )
              (search_node-lookup t h b key child.0 (IsSorted-join_child i as' ks vs ga la p s'))
      ]
