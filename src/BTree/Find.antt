-- ===== src/BTree/Find.antt =====
-- `_find_node_and_index`, and a write at the place that it finds.
use cachy_db.Base.{
  ℕ, zero, suc, ◌≡◌, refl, Bool, false, Option, none, some, List, [], ◌∷◌, map, arith, ok, length,
  get_elem?, set, ◌∙◌, inl, inr, Bool-cases, Order, get_elem?-same_length, lt_of_get_elem?,
  get_elem?-map, map-set, length-map, All-set, get_elem?-lt, All-get_elem?, length-set, leb,
}
use cachy_db.BTree.{
  Node, node, Nodes, nil, cons, to_list, of_list, keys, children, find_node, scan, found_at, enter,
  set_value, find_child,
}
use cachy_db.BTree.Flat.{pairs, join}
use cachy_db.BTree.Sorted.{IsSorted, lookup, insert_sorted, lookup_of_Absent}
use cachy_db.BTree.Places.{Slot, scan-Slot, get_elem?-scan, scan-le}
use cachy_db.BTree.Effects.{
  lookup-pairs_hit, Absent-pairs, lookup-join_hit, lookup-join_child, pairs-set_value,
  join-set_value, join-set_child,
}
use cachy_db.BTree.Shape.{flat, flats, flats-map, flats-of_list, IsTree, IsChild, to_list-of_list}
use cachy_db.BTree.Children.{lookup-child, IsSorted-child}

module _ {ℓ} {K V : Type ℓ} ⦃o : Order K⦄ where
  find_child-at :
      (cs : Nodes K V) (i : ℕ) (key : K) {c : Node K V}
      → get_elem? (to_list cs) i ≡ some c
      → find_child cs i key ≡ find_node c key
  unfolding find_node
  find_child-at nil i key e = cc
  find_child-at (cons b cs) zero key {c} e = let x : b ≡ c = cc in rw x
  find_child-at (cons b cs) (suc i) key e = find_child-at cs i key e

  -- The place of a key that is there: a write of a value at it is the update of the map, and keeps
  -- the shape.
  pub record Place (t h : ℕ) (n : Node K V) (key : K) (path : List ℕ) (idx : ℕ) : Type ℓ where
    pub value : V
    pub held : lookup key (flat n) ≡ some value
    pub write :
        (v : V)
        → (n' : Node K V) × (set_value path idx v n ≡ ok n')
          × IsTree t h n'
          × (length (keys n') ≡ length (keys n))
          × (flat n' ≡ insert_sorted key v (flat n))

  -- What `_find_node_and_index` may answer.
  abbrev pub Finds : ℕ → ℕ → Node K V → K → Option (List ℕ × ℕ) → Type ℓ
  Finds t h n key none = lookup key (flat n) ≡ none
  Finds t h n key (some (path, idx)) = Place t h n key path idx

  write_here :
      (i : ℕ) (leaf : Bool) (ks : List K) (vs : List V) (cs : Nodes K V) {w : V} (v : V)
      → get_elem? vs i ≡ some w
      → set_value [] i v (node leaf ks vs cs) ≡ ok (node leaf ks (set vs i v) cs)
  unfolding set_value
  write_here i leaf ks vs cs v e =
      let inside : leb (length vs) i ≡ false = ground (arith, lt_of_get_elem? vs i e) in rw inside

  pub Place-leaf :
      (t i : ℕ) (n : Node K V) (key : K)
      → IsTree t 0 n
      → IsSorted (flat n)
      → get_elem? (keys n) i ≡ some key
      → Place t 0 n key [] i
  unfolding flat
  Place-leaf t i (node leaf ks vs cs) key (x, p, q, r) s g =
      let s' : IsSorted (pairs ks vs) = rw (x) at s in
      let (w, gw) = get_elem?-same_length ks vs i p g in
      record {
        value = w;
        held = rw (x, lookup-pairs_hit i ks vs key g s' p, gw);
        write = λ v. (
          node leaf ks (set vs i v) cs,
          write_here i leaf ks vs cs v gw,
          (x, length-set vs i v ∙ p, q, r),
          refl,
          rw x (pairs-set_value i ks vs key v g s' p),
        );
      }

  pub Place-inner :
      (t h i : ℕ) (n : Node K V) (key : K)
      → IsTree t (suc h) n
      → IsSorted (flat n)
      → get_elem? (keys n) i ≡ some key
      → Place t (suc h) n key [] i
  unfolding flat
  Place-inner t h i (node leaf ks vs cs) key (x, p, q, r, c) s g =
      let as' = flats cs in
      let la : length as' ≡ suc (length ks) =
        rw (flats-map cs) (omega (arith, length-map {ℓ, ℓ} flat (to_list cs))) in
      let s' : IsSorted (join as' ks vs) = rw (x) at s in
      let (w, gw) = get_elem?-same_length ks vs i p g in
      record {
        value = w;
        held = rw (x, lookup-join_hit i as' ks vs key g s' la p, gw);
        write = λ v. (
          node leaf ks (set vs i v) cs,
          write_here i leaf ks vs cs v gw,
          (x, length-set vs i v ∙ p, q, r, c),
          refl,
          rw x (join-set_value i as' ks vs key v g s' la p),
        );
      }

  -- A place in the child between the keys that surround the key.
  Place-child :
      (t h i : ℕ) (n b : Node K V) (key : K) {path : List ℕ} {j : ℕ}
      → IsTree t (suc h) n
      → IsSorted (flat n)
      → Slot (keys n) i key
      → get_elem? (children n) i ≡ some b
      → Place t h b key path j
      → Place t (suc h) n key (i ∷ path) j
  unfolding flat set_value
  Place-child t h i (node leaf ks vs cs) b key {path} {j} (x, p, q, r, c) s slot g place =
      let l = to_list cs in
      let as' = map flat l in
      let la : length as' ≡ suc (length ks) = omega (arith, length-map {ℓ, ℓ} flat l) in
      let s' : IsSorted (join as' ks vs) = rw (x, flats-map cs) at s in
      let ga : get_elem? as' i ≡ some (flat b) = get_elem?-map flat l i g in
      let child : IsChild t h b = All-get_elem? (IsChild t h) l i c g in
      record {
        value = place.value;
        held = rw (x, flats-map cs, lookup-join_child i as' ks vs key ga slot s' la p) place.held;
        write = λ v.
            let (b', done, tree, kept, became) = place.write v in
            (
              node leaf ks vs (of_list (set l i b')),
              rw (g, done),
              rw (to_list-of_list (set l i b')) (
                x,
                p,
                q,
                length-set l i b' ∙ r,
                All-set (IsChild t h) l i b' c (tree, omega (arith, child.1)),
              ),
              refl,
              rw (x, flats-of_list (set l i b'), map-set, became, flats-map cs)
                  (join-set_child i as' ks vs key v ga slot s' la p),
            );
      }

  lookup-leaf_miss :
      (t i : ℕ) (n : Node K V) (key : K)
      → IsTree t 0 n
      → IsSorted (flat n)
      → Slot (keys n) i key
      → lookup key (flat n) ≡ none
  unfolding flat
  lookup-leaf_miss t i (node leaf ks vs cs) key (x, p, q, r) s slot =
      let s' : IsSorted (pairs ks vs) = rw (x) at s in
      rw x (lookup_of_Absent key (pairs ks vs) (Absent-pairs i ks vs key slot s' p))

  Finds-enter :
      (t h i : ℕ) (n b : Node K V) (key : K) (r : Option (List ℕ × ℕ))
      → IsTree t (suc h) n
      → IsSorted (flat n)
      → Slot (keys n) i key
      → get_elem? (children n) i ≡ some b
      → Finds t h b key r
      → Finds t (suc h) n key (enter i r)
  Finds-enter t h i n b key none tree s slot g f = lookup-child t h i n b key tree s slot g ∙ f
  Finds-enter t h i n b key (some (path, j)) tree s slot g f =
      Place-child t h i n b key tree s slot g f

  -- `_find_node_and_index` finds every key that is there, at its place, and only those.
  pub find_node-Finds :
      (t h : ℕ) (n : Node K V) (key : K)
      → IsTree t h n
      → IsSorted (flat n)
      → (r : Option (List ℕ × ℕ)) × (find_node n key ≡ ok r) × Finds t h n key r
  unfolding find_node
  find_node-Finds t zero (node leaf ks vs cs) key (x, p, q, r) s =
      let i = scan ks key in
      elim (Bool-cases (found_at ks i key)) [
        | inl f ↦ (
          some ([], i),
          rw f,
          Place-leaf t i (node leaf ks vs cs) key (x, p, q, r) s (get_elem?-scan ks key f),
        )
        | inr f ↦ (
          none,
          rw (f, x),
          lookup-leaf_miss t i (node leaf ks vs cs) key (x, p, q, r) s (scan-Slot ks key f),
        )
      ]
  find_node-Finds t (suc h) (node leaf ks vs cs) key (x, p, q, r, c) s =
      let i = scan ks key in
      elim (Bool-cases (found_at ks i key)) [
        | inl f ↦ (
          some ([], i),
          rw f,
          Place-inner t h i (node leaf ks vs cs) key (x, p, q, r, c) s (get_elem?-scan ks key f),
        )
        | inr f ↦
            let slot = scan-Slot ks key f in
            let l = to_list cs in
            let (b, g) = get_elem?-lt l i (omega (arith, scan-le ks key)) in
            let child : IsChild t h b = All-get_elem? (IsChild t h) l i c g in
            let n = node leaf ks vs cs in
            let sb = IsSorted-child t h i n b (x, p, q, r, c) s g in
            let (found, done, finds) = find_node-Finds t h b key child.0 sb in
            (
              enter i found,
              rw (f, x, find_child-at cs i key g, done),
              Finds-enter t h i n b key found (x, p, q, r, c) s slot g finds,
            )
      ]
