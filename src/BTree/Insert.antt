-- ===== src/BTree/Insert.antt =====
-- `_insert_non_full`: with fuel above the height it returns a tree of the same height that has the
-- entries with the new one.
use cachy_db.Base.{
  ℕ, zero, suc, ◌+◌, ◌*◌, ◌≤◌, ◌<◌, ◌≡◌, refl, ap, false, none, some, map, arith, ok, length,
  get_elem?, set, insert_at, sym, ◌∙◌, Order, get_elem?-map, map-set, length-map, All-set,
  All-get_elem?, length-set, length-insert_at,
}
use cachy_db.BTree.{
  Node, node, nil, to_list, keys, values, leaf_of, children, scan, bisect_left, replace_child,
  prepare, insert_non_full,
}
use cachy_db.BTree.Flat.{join}
use cachy_db.BTree.Sorted.{IsSorted, lookup, insert_sorted}
use cachy_db.BTree.Places.{Slot}
use cachy_db.BTree.Effects.{pairs-insert_at, join-set_child}
use cachy_db.BTree.Shape.{flat, flats-map, flats-of_list, IsTree, IsChild, to_list-of_list}
use cachy_db.BTree.Children.{IsSorted-child, lookup-child}
use cachy_db.BTree.Prepare.{
  absent-Slot_leaf, absent-Slot_inner, bisect-inner, bisect-leaf, prepare-Ready,
}

module _ {ℓ} {K V : Type ℓ} ⦃o : Order K⦄ where
  -- One entry more, in the same shape.
  pub record Inserted (t h : ℕ) (n n' : Node K V) (key : K) (v : V) : Type ℓ where
    pub tree : IsTree t h n'
    pub grown : length (keys n) ≤ length (keys n')
    pub entries : flat n' ≡ insert_sorted key v (flat n)

  replace_child-Inserted :
      (t h j : ℕ) (n b b' : Node K V) (key : K) (v : V)
      → IsTree t (suc h) n
      → IsSorted (flat n)
      → Slot (keys n) j key
      → get_elem? (children n) j ≡ some b
      → Inserted t h b b' key v
      → Inserted t (suc h) n (replace_child n j b') key v
  unfolding flat
  replace_child-Inserted t h j (node leaf ks vs cs) b b' key v (x, p, q, r, c) s slot g ins =
      let l = to_list cs in
      let la : length (map flat l) ≡ suc (length ks) = omega (arith, length-map {ℓ, ℓ} flat l) in
      let s' : IsSorted (join (map flat l) ks vs) = rw (x, flats-map cs) at s in
      let ga : get_elem? (map flat l) j ≡ some (flat b) = get_elem?-map flat l j g in
      let child : IsChild t h b = All-get_elem? (IsChild t h) l j c g in
      record {
        tree = rw (to_list-of_list (set l j b')) (
          x,
          p,
          q,
          length-set l j b' ∙ r,
          All-set (IsChild t h) l j b' c (ins.tree, omega (arith, child.1, ins.grown)),
        );
        grown = omega arith;
        entries =
            rw (x, flats-of_list (set l j b'), map-set, ins.entries, flats-map cs)
              (join-set_child j (map flat l) ks vs key v ga slot s' la p);
      }

  leaf-Inserted :
      (t i : ℕ) (n : Node K V) (key : K) (v : V)
      → IsTree t 0 n
      → length (keys n) + 1 < 2 * t
      → Slot (keys n) i key
      → Inserted t 0 n
          (node (leaf_of n) (insert_at i key (keys n)) (insert_at i v (values n)) nil)
          key
          v
  unfolding flat
  leaf-Inserted t i (node leaf ks vs cs) key v (x, p, q, r) room slot = record {
    tree = (
      x,
      omega (arith, length-insert_at i key ks, length-insert_at i v vs),
      omega (arith, length-insert_at i key ks),
      refl,
    );
    grown = omega (arith, length-insert_at i key ks);
    entries = rw x (pairs-insert_at i ks vs key v slot p);
  }

  -- One step down, with what each part returns.
  insert_down :
      (fuel t i : ℕ) (n : Node K V) (key : K) (v : V) {j : ℕ} {n' b b' : Node K V}
      → leaf_of n ≡ false
      → bisect_left (keys n) key ≡ i
      → prepare t n i key ≡ ok (n', j)
      → get_elem? (children n') j ≡ some b
      → insert_non_full fuel t b key v ≡ ok b'
      → insert_non_full (suc fuel) t n key v ≡ ok (replace_child n' j b')
  unfolding insert_non_full
  insert_down fuel t i (node leaf ks vs cs) key v x e p g d = rw (x, e, rw (x) at p, g, d)

  pub insert_non_full-Inserted :
      (fuel t h : ℕ) (n : Node K V) (key : K) (v : V)
      → h < fuel
      → 1 < t
      → IsTree t h n
      → length (keys n) + 1 < 2 * t
      → IsSorted (flat n)
      → lookup key (flat n) ≡ none
      → (n' : Node K V) × (insert_non_full fuel t n key v ≡ ok n') × Inserted t h n n' key v
  unfolding insert_non_full
  insert_non_full-Inserted zero t h n key v f t1 tree room s a = absurd (omega arith)
  insert_non_full-Inserted (suc fuel) t zero (node leaf ks vs cs) key v f t1 (x, p, q, r) room s a =
      let n = node leaf ks vs cs in
      let i = scan ks key in
      let slot = absent-Slot_leaf t n key (x, p, q, r) s a in
      (
        node leaf (insert_at i key ks) (insert_at i v vs) nil,
        rw (x, r, bisect-leaf t n key (x, p, q, r) s),
        leaf-Inserted t i n key v (x, p, q, r) room slot,
      )
  insert_non_full-Inserted (suc fuel) t (suc h) (node leaf ks vs cs) key v f t1 tree room s a =
      let n = node leaf ks vs cs in
      let slot = absent-Slot_inner t h n key tree s a in
      let (n1, j, prepared, ready) = prepare-Ready t h (scan ks key) n key t1 tree room s a slot in
      let b = ready.child in
      let sorted : IsSorted (flat n1) = rw ready.same s in
      let b_sorted = IsSorted-child t h j n1 b ready.tree sorted ready.child_at in
      let b_tree = child_tree n1 b j ready.tree ready.child_at in
      let b_absent : lookup key (flat b) ≡ none =
        sym (lookup-child t h j n1 b key ready.tree sorted ready.slot ready.child_at)
        ∙ rw ready.same a in
      let (b', done, ins) =
        insert_non_full-Inserted fuel t h b key v (omega arith) t1 b_tree ready.room b_sorted
          b_absent in
      let all =
        replace_child-Inserted t h j n1 b b' key v ready.tree sorted ready.slot ready.child_at
          ins in
      (
        replace_child n1 j b',
        insert_down fuel t (scan ks key) n key v tree.0 (bisect-inner t h n key tree s) prepared
            ready.child_at done,
        record {
          tree = all.tree;
          grown = omega (arith, ready.grown, all.grown);
          entries = all.entries ∙ ap (insert_sorted key v) ready.same;
        },
      )
    where
      child_tree :
          (n b : Node K V) (j : ℕ)
          → IsTree t (suc h) n
          → get_elem? (children n) j ≡ some b
          → IsTree t h b
      child_tree (node leaf ks vs cs) b j (x, p, q, r, c) g =
          (All-get_elem? (IsChild t h) (to_list cs) j c g).0
