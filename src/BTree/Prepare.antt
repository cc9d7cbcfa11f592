-- ===== src/BTree/Prepare.antt =====
-- The place of a new key in a node, and the child that `_insert_non_full` makes ready by a split.
use cachy_db.Base.{
  ℕ, zero, suc, ◌+◌, ◌-◌, ◌*◌, ◌≤◌, ◌<◌, ◌≡◌, refl, ap, true, false, none, some, List, [], ◌∷◌, map,
  arith, ok, if◌then◌else◌, length, get_elem?, insert_at, All, ◌∙◌, inl, inr, Bool-cases, Order,
  length-map, get_elem?-lt, All-get_elem?, length-insert_at, ◌==◌, ==_iff,
}
use cachy_db.BTree.{Node, node, to_list, keys, children, scan, found_at, bisect_left, prepare}
use cachy_db.BTree.Flat.{pairs, join}
use cachy_db.BTree.Sorted.{IsSorted, lookup}
use cachy_db.BTree.Places.{Slot, scan-Slot, get_elem?-scan, bisect_left-eq-scan}
use cachy_db.BTree.Shape.{flat, flats-map, IsTree, IsChild, Split, split_child-Split}
use cachy_db.BTree.Children.{Ascending-pairs, Ascending-join}
use cachy_db.BTree.Find.{Place-leaf, Place-inner}

module _ {ℓ} {K : Type ℓ} ⦃o : Order K⦄ where
  Slot-le : (ks : List K) (i : ℕ) (key : K) → Slot ks i key → i ≤ length ks
  Slot-le [] zero key s = omega arith
  Slot-le [] (suc i) key s = absurd s
  Slot-le (k ∷ ks) zero key s = omega arith
  Slot-le (k ∷ ks) (suc i) key s = omega (arith, Slot-le ks i key s.1)

  get_elem?-insert_at-Slot :
      (ks : List K) (i : ℕ) (key m : K) → Slot ks i key → get_elem? (insert_at i m ks) i ≡ some m
  get_elem?-insert_at-Slot [] zero key m s = refl
  get_elem?-insert_at-Slot [] (suc i) key m s = absurd s
  get_elem?-insert_at-Slot (k ∷ ks) zero key m s = refl
  get_elem?-insert_at-Slot (k ∷ ks) (suc i) key m s = get_elem?-insert_at-Slot ks i key m s.1

  Slot-median_below :
      (ks : List K) (i : ℕ) (key m : K)
      → Slot ks i key
      → o.lt m key ≡ true
      → Slot (insert_at i m ks) (suc i) key
  Slot-median_below [] zero key m s p = (p, tt)
  Slot-median_below [] (suc i) key m s p = absurd s
  Slot-median_below (k ∷ ks) zero key m s p = (p, s)
  Slot-median_below (k ∷ ks) (suc i) key m s p = (s.0, Slot-median_below ks i key m s.1 p)

  Slot-median_above :
      (ks : List K) (i : ℕ) (key m : K)
      → Slot ks i key
      → o.lt key m ≡ true
      → Slot (insert_at i m ks) i key
  Slot-median_above [] zero key m s p = p
  Slot-median_above [] (suc i) key m s p = absurd s
  Slot-median_above (k ∷ ks) zero key m s p = p
  Slot-median_above (k ∷ ks) (suc i) key m s p = (s.0, Slot-median_above ks i key m s.1 p)

module _ {ℓ} {K V : Type ℓ} ⦃o : Order K⦄ where
  -- A key that is not there has its place between two keys of the node.
  pub absent-Slot_leaf :
      (t : ℕ) (n : Node K V) (key : K)
      → IsTree t 0 n
      → IsSorted (flat n)
      → lookup key (flat n) ≡ none
      → Slot (keys n) (scan (keys n) key) key
  absent-Slot_leaf t n key tree s a =
      elim (Bool-cases (found_at (keys n) (scan (keys n) key) key)) [
        | inl f ↦
            let place =
              Place-leaf t (scan (keys n) key) n key tree s (get_elem?-scan (keys n) key f) in
            absurd (cc (place.held, a))
        | inr f ↦ scan-Slot (keys n) key f
      ]

  no_key_inner :
      (t h i : ℕ) (n : Node K V) (key : K)
      → IsTree t (suc h) n
      → IsSorted (flat n)
      → lookup key (flat n) ≡ none
      → ¬ (get_elem? (keys n) i ≡ some key)
  no_key_inner t h i n key tree s a g =
      let place = Place-inner t h i n key tree s g in cc (place.held, a)

  pub absent-Slot_inner :
      (t h : ℕ) (n : Node K V) (key : K)
      → IsTree t (suc h) n
      → IsSorted (flat n)
      → lookup key (flat n) ≡ none
      → Slot (keys n) (scan (keys n) key) key
  absent-Slot_inner t h n key tree s a =
      elim (Bool-cases (found_at (keys n) (scan (keys n) key) key)) [
        | inl f ↦
            absurd
              (no_key_inner t h (scan (keys n) key) n key tree s a (get_elem?-scan (keys n) key f))
        | inr f ↦ scan-Slot (keys n) key f
      ]

  pub bisect-inner :
      (t h : ℕ) (n : Node K V) (key : K)
      → IsTree t (suc h) n
      → IsSorted (flat n)
      → bisect_left (keys n) key ≡ scan (keys n) key
  unfolding flat
  bisect-inner t h (node leaf ks vs cs) key (x, p, q, r, c) s =
      let l = to_list cs in
      let la : length (map flat l) ≡ suc (length ks) = omega (arith, length-map {ℓ, ℓ} flat l) in
      let s' : IsSorted (join (map flat l) ks vs) = rw (x, flats-map cs) at s in
      bisect_left-eq-scan ks key (Ascending-join (map flat l) ks vs la p s')

  pub bisect-leaf :
      (t : ℕ) (n : Node K V) (key : K)
      → IsTree t 0 n
      → IsSorted (flat n)
      → bisect_left (keys n) key ≡ scan (keys n) key
  unfolding flat
  bisect-leaf t (node leaf ks vs cs) key (x, p, q, r) s =
      let s' : IsSorted (pairs ks vs) = rw (x) at s in
      bisect_left-eq-scan ks key (Ascending-pairs ks vs p s')

  -- The node and the child with which `_insert_non_full` goes on.
  pub record Ready (t h : ℕ) (n n' : Node K V) (j : ℕ) (key : K) : Type ℓ where
    pub tree : IsTree t (suc h) n'
    pub same : flat n' ≡ flat n
    pub slot : Slot (keys n') j key
    pub grown : length (keys n) ≤ length (keys n')
    pub child : Node K V
    pub child_at : get_elem? (children n') j ≡ some child
    pub room : length (keys child) + 1 < 2 * t

  Split-median_at :
      (t h i : ℕ) (n n' : Node K V) (key : K)
      → Slot (keys n) i key
      → (split : Split t h i n n') → get_elem? (keys n') i ≡ some split.median
  Split-median_at t h i n n' key slot split =
      rw split.new_keys (get_elem?-insert_at-Slot (keys n) i key split.median slot)

  Split-keys :
      (t h i : ℕ) (n n' : Node K V) → Split t h i n n' → length (keys n') ≡ length (keys n) + 1
  Split-keys t h i n n' split = ap length split.new_keys ∙ length-insert_at i split.median (keys n)

  -- After a split the code goes on in the half on the key's side of the median.
  Split-Ready :
      (t h i : ℕ) (n n' : Node K V) (key : K)
      → 1 < t
      → IsSorted (flat n)
      → lookup key (flat n) ≡ none
      → Slot (keys n) i key
      → (split : Split t h i n n') → Ready t h n n' (if o.lt split.median key then suc i else i) key
  Split-Ready t h i n n' key t1 s a slot split = elim (Bool-cases (o.lt m key)) [
    | inl below ↦ rw below (record {
      tree = split.tree;
      same = split.same;
      slot = rw split.new_keys (Slot-median_below (keys n) i key m slot below);
      grown = omega (arith, Split-keys t h i n n' split);
      child = split.right;
      child_at = split.right_at;
      room = omega (arith, split.right_keys);
    })
    | inr not_below ↦ rw not_below (record {
      tree = split.tree;
      same = split.same;
      slot = rw split.new_keys (Slot-median_above (keys n) i key m slot (above not_below));
      grown = omega (arith, Split-keys t h i n n' split);
      child = split.left;
      child_at = split.left_at;
      room = omega (arith, split.left_keys);
    })
  ]
    where
      m : K
      m = split.median

      ne : o.eq m key ≡ true → ⊥
      ne e =
          let e' : m ≡ key = (o.eq_iff m key).0 e in
          no_key_inner t h i n' key split.tree (rw split.same s) (rw split.same a)
            (Split-median_at t h i n n' key slot split ∙ ap some e')

      above : o.lt m key ≡ false → o.lt key m ≡ true
      above p = elim (Bool-cases (o.eq m key)) [
        | inl e ↦ absurd (ne e)
        | inr e ↦ o.lt_total m key p e
      ]

  pub prepare-Ready :
      (t h i : ℕ) (n : Node K V) (key : K)
      → 1 < t
      → IsTree t (suc h) n
      → length (keys n) + 1 < 2 * t
      → IsSorted (flat n)
      → lookup key (flat n) ≡ none
      → Slot (keys n) i key
      → (n' : Node K V) × (j : ℕ) × (prepare t n i key ≡ ok (n', j)) × Ready t h n n' j key
  unfolding prepare
  prepare-Ready t h i n key t1 tree room s a slot =
      let (c, g) = child_of n tree slot in
      let child : IsChild t h c =
        All-get_elem? (IsChild t h) (children n) i (all_children n tree) g in
      elim (Bool-cases (length (keys c) == 2 * t - 1)) [
        | inl full ↦
            let (n', done, split) =
              split_child-Split t h i n c (omega arith) tree g ((==_iff _ _).0 full) room in
            (
              n',
              if o.lt split.median key then suc i else i,
              rw (g, full, done, Split-median_at t h i n n' key slot split),
              Split-Ready t h i n n' key t1 s a slot split,
            )
        | inr not_full ↦ (
          n,
          i,
          rw (g, not_full),
          record {
            tree = tree;
            same = refl;
            slot = slot;
            grown = omega arith;
            child = c;
            child_at = g;
            room = ground (arith, keys_bound c h child.0);
          },
        )
      ]
    where
      all_children : (n : Node K V) → IsTree t (suc h) n → All (IsChild t h) (children n)
      all_children (node leaf ks vs cs) (x, p, q, r, c) = c

      child_of :
          (n : Node K V)
          → IsTree t (suc h) n
          → Slot (keys n) i key
          → (c : Node K V) × (get_elem? (children n) i ≡ some c)
      child_of (node leaf ks vs cs) (x, p, q, r, c) slot =
          get_elem?-lt (to_list cs) i (omega (arith, Slot-le ks i key slot))

      keys_bound : (c : Node K V) (h : ℕ) → IsTree t h c → length (keys c) < 2 * t
      keys_bound (node leaf ks vs cs) zero (x, p, q, r) = q
      keys_bound (node leaf ks vs cs) (suc h) (x, p, q, r, c) = q
