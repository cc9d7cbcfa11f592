-- ===== src/BTree/Shape.antt =====
-- The shape of a B-tree of minimum degree `t`, its entries in order, and the split of a full child.
use cachy_db.Base.{
  ℕ, zero, suc, ◌+◌, ◌-◌, ◌*◌, ◌≤◌, ◌<◌, ◌≡◌, refl, ap, true, false, some, List, [], ◌∷◌, ◌++◌, map,
  arith, ok, if◌then◌else◌, length, get_elem?, set, take, drop, insert_at, All, sym, ◌∙◌,
  length-take, length-drop, map-take, map-drop, map-set, map-insert_at, get_elem?-map,
  get_elem?-split_left, get_elem?-split_right, length-set, length-insert_at, length-map, All-take,
  All-drop, All-set, All-insert_at, get_elem?-lt, All-get_elem?,
}
use cachy_db.BTree.{
  Node, node, Nodes, nil, cons, to_list, of_list, keys, values, children, left_half, right_half,
  split_child,
}
use cachy_db.BTree.Flat.{pairs, join, pairs-cut, join-cut, join-split}

module _ {ℓ} {K V : Type ℓ} where
  -- The entries of a subtree, in order.
  unfoldable mutual
    pub flat : Node K V → List (K × V)
    flat (node leaf ks vs cs) = if leaf then pairs ks vs else join (flats cs) ks vs

    pub flats : Nodes K V → List (List (K × V))
    flats nil = []
    flats (cons c cs) = flat c ∷ flats cs

  pub to_list-of_list : (l : List (Node K V)) → to_list (of_list l) ≡ l
  to_list-of_list [] = refl
  to_list-of_list (c ∷ l) = ap (◌∷◌ c) (to_list-of_list l)

  pub flats-map : (cs : Nodes K V) → flats cs ≡ map flat (to_list cs)
  unfolding flats
  flats-map nil = refl
  flats-map (cons c cs) = ap (◌∷◌ (flat c)) (flats-map cs)

  pub flats-of_list : (l : List (Node K V)) → flats (of_list l) ≡ map flat l
  flats-of_list l = rw (flats-map, to_list-of_list)

  -- A tree whose leaves are all `h` levels down, with at most 2t - 1 keys in a node, at least t - 1
  -- below the root, a value for each key, and one child more than keys.
  abbrev pub IsTree : ℕ → ℕ → Node K V → Type ℓ
  IsTree t zero (node leaf ks vs cs) =
      (leaf ≡ true) × (length vs ≡ length ks) × (length ks < 2 * t) × (cs ≡ nil)
  IsTree t (suc h) (node leaf ks vs cs) =
      (leaf ≡ false)
      × (length vs ≡ length ks)
      × (length ks < 2 * t)
      × (length (to_list cs) ≡ suc (length ks))
      × All (λ c. IsTree t h c × (t ≤ length (keys c) + 1)) (to_list cs)

  abbrev pub IsChild : ℕ → ℕ → Node K V → Type ℓ
  IsChild t h c = IsTree t h c × (t ≤ length (keys c) + 1)

  -- The halves of a full node are children with t - 1 keys, around the median.
  pub record Halves (t h : ℕ) (c : Node K V) (k : K) (v : V) : Type ℓ where
    pub left : IsChild t h (left_half t c)
    pub right : IsChild t h (right_half t c)
    pub left_keys : length (keys (left_half t c)) ≡ t - 1
    pub right_keys : length (keys (right_half t c)) ≡ t - 1
    pub cut : flat (left_half t c) ++ ((k, v) ∷ flat (right_half t c)) ≡ flat c

  Halves-leaf :
      (m : ℕ) (ks : List K) (vs : List V) {k : K} {v : V}
      → length vs ≡ length ks
      → length ks ≡ 2 * suc m - 1
      → get_elem? ks m ≡ some k
      → get_elem? vs m ≡ some v
      → Halves (suc m) 0 (node true ks vs nil) k v
  unfolding left_half right_half flat
  Halves-leaf m ks vs p q a b =
      let e : suc m - 1 ≡ m = omega arith in
      record {
        left = rw e (
          (
            refl,
            omega (arith, length-take m ks, length-take m vs),
            omega (arith, length-take m ks),
            refl,
          ),
          omega (arith, length-take m ks),
        );
        right = (
          (
            refl,
            omega (arith, length-drop (suc m) ks, length-drop (suc m) vs),
            omega (arith, length-drop (suc m) ks),
            refl,
          ),
          omega (arith, length-drop (suc m) ks),
        );
        left_keys = rw e (omega (arith, length-take m ks));
        right_keys = omega (arith, length-drop (suc m) ks);
        cut = rw e (pairs-cut m ks vs a b);
      }

  Halves-inner :
      (m h : ℕ) (ks : List K) (vs : List V) (cs : Nodes K V) {k : K} {v : V}
      → IsTree (suc m) (suc h) (node false ks vs cs)
      → length ks ≡ 2 * suc m - 1
      → get_elem? ks m ≡ some k
      → get_elem? vs m ≡ some v
      → Halves (suc m) (suc h) (node false ks vs cs) k v
  unfolding left_half right_half flat
  Halves-inner m h ks vs cs (_, p, _, r, s) q a b =
      let e : suc m - 1 ≡ m = omega arith in
      let l = to_list cs in
      record {
        left =
            rw (e, to_list-of_list)
              (
                (
                  refl,
                  omega (arith, length-take m ks, length-take m vs),
                  omega (arith, length-take m ks),
                  omega (arith, length-take m ks, length-take (suc m) l),
                  All-take (IsChild (suc m) h) (suc m) l s,
                ),
                omega (arith, length-take m ks),
              );
        right = rw to_list-of_list (
          (
            refl,
            omega (arith, length-drop (suc m) ks, length-drop (suc m) vs),
            omega (arith, length-drop (suc m) ks),
            omega (arith, length-drop (suc m) ks, length-drop (suc m) l),
            All-drop (IsChild (suc m) h) (suc m) l s,
          ),
          omega (arith, length-drop (suc m) ks),
        );
        left_keys = rw e (omega (arith, length-take m ks));
        right_keys = omega (arith, length-drop (suc m) ks);
        cut =
            rw
              (
                e,
                flats-of_list (take (suc m) l),
                flats-of_list (drop (suc m) l),
                flats-map cs,
                map-take,
                map-drop,
              )
              (join-cut m (map flat l) ks vs a b (omega (arith, length-map {ℓ, ℓ} flat l)));
      }

  pub halves_lem :
      (t h : ℕ) (c : Node K V)
      → 0 < t
      → IsTree t h c
      → length (keys c) ≡ 2 * t - 1
      → (k : K) × (v : V) × (get_elem? (keys c) (t - 1) ≡ some k)
        × (get_elem? (values c) (t - 1) ≡ some v)
        × Halves t h c k v
  halves_lem zero h c z i f = absurd (omega arith)
  halves_lem (suc m) zero (node leaf ks vs cs) z (x, p, q, r) f =
      let (k, a) = get_elem?-lt ks m (omega arith) in
      let (v, b) = get_elem?-lt vs m (omega arith) in
      let e : suc m - 1 ≡ m = omega arith in rw (e, x, r) (k, v, a, b, Halves-leaf m ks vs p f a b)
  halves_lem (suc m) (suc h) (node leaf ks vs cs) z (x, p, q, r, s) f =
      let (k, a) = get_elem?-lt ks m (omega arith) in
      let (v, b) = get_elem?-lt vs m (omega arith) in
      let e : suc m - 1 ≡ m = omega arith in
      rw (e, x) (k, v, a, b, Halves-inner m h ks vs cs (refl, p, q, r, s) f a b)

  -- The node after a split at the index `i`.
  pub record Split (t h i : ℕ) (n n' : Node K V) : Type ℓ where
    pub tree : IsTree t (suc h) n'
    pub same : flat n' ≡ flat n
    pub median : K
    pub new_keys : keys n' ≡ insert_at i median (keys n)
    pub left : Node K V
    pub right : Node K V
    pub left_at : get_elem? (children n') i ≡ some left
    pub right_at : get_elem? (children n') (suc i) ≡ some right
    pub left_keys : length (keys left) ≡ t - 1
    pub right_keys : length (keys right) ≡ t - 1

  abbrev split_node : ℕ → ℕ → K → V → Node K V → Node K V → Node K V
  split_node t i k v (node leaf ks vs cs) c =
      node leaf (insert_at i k ks) (insert_at i v vs)
        (of_list (insert_at (suc i) (right_half t c) (set (to_list cs) i (left_half t c))))

  flat-split_node :
      (t h i : ℕ) (n c : Node K V) {k : K} {v : V}
      → IsTree t (suc h) n
      → get_elem? (children n) i ≡ some c
      → Halves t h c k v
      → flat (split_node t i k v n c) ≡ flat n
  unfolding flat
  flat-split_node t h i (node leaf ks vs cs) c {k} {v} (x, p, q, r, s) g halves =
      let l = to_list cs in
      let at_child : get_elem? (map flat l) i
          ≡ some (flat (left_half t c) ++ ((k, v) ∷ flat (right_half t c))) =
        get_elem?-map flat l i g ∙ ap some (sym halves.cut) in
      rw (x, flats-of_list, map-insert_at, map-set, flats-map)
        (join-split i (map flat l) ks vs (flat (left_half t c)) (flat (right_half t c)) k v at_child
          (omega (arith, r, length-map {ℓ, ℓ} flat l)) p)

  split_node-Split :
      (t h i : ℕ) (n c : Node K V) {k : K} {v : V}
      → IsTree t (suc h) n
      → get_elem? (children n) i ≡ some c
      → length (keys n) + 1 < 2 * t
      → Halves t h c k v
      → Split t h i n (split_node t i k v n c)
  split_node-Split t h i (node leaf ks vs cs) c {k} {v} (x, p, q, r, s) g room halves =
      let l = to_list cs in
      let l' = insert_at (suc i) (right_half t c) (set l i (left_half t c)) in
      record {
        tree = rw (to_list-of_list l') (
          x,
          omega (arith, length-insert_at i k ks, length-insert_at i v vs),
          omega (arith, length-insert_at i k ks),
          omega (
            arith,
            length-insert_at i k ks,
            length-insert_at (suc i) (right_half t c) (set l i (left_half t c)),
            length-set l i (left_half t c),
          ),
          All-insert_at (IsChild t h) (suc i) (right_half t c) (set l i (left_half t c))
              (All-set (IsChild t h) l i (left_half t c) s halves.left) halves.right,
        );
        same = flat-split_node t h i (node leaf ks vs cs) c (x, p, q, r, s) g halves;
        median = k;
        new_keys = refl;
        left = left_half t c;
        right = right_half t c;
        left_at =
            rw (to_list-of_list l') (get_elem?-split_left l i (left_half t c) (right_half t c) g);
        right_at =
            rw (to_list-of_list l') (get_elem?-split_right l i (left_half t c) (right_half t c) g);
        left_keys = halves.left_keys;
        right_keys = halves.right_keys;
      }

  -- `_split_child` of a full child of a node with room never raises. It keeps the entries, in order,
  -- and the shape; the median key goes to the node's keys at the child's index, and two children of
  -- t - 1 keys stand where the child was.
  pub split_child-Split :
      (t h i : ℕ) (n c : Node K V)
      → 0 < t
      → IsTree t (suc h) n
      → get_elem? (children n) i ≡ some c
      → length (keys c) ≡ 2 * t - 1
      → length (keys n) + 1 < 2 * t
      → (n' : Node K V) × (split_child t n i ≡ ok n') × Split t h i n n'
  unfolding split_child
  split_child-Split t h i (node leaf ks vs cs) c z (x, p, q, r, s) g f room =
      let child : IsChild t h c = All-get_elem? (IsChild t h) (to_list cs) i s g in
      let (k, v, a, b, halves) = halves_lem t h c z child.0 f in
      (
        split_node t i k v (node leaf ks vs cs) c,
        rw (g, a, b) refl,
        split_node-Split t h i (node leaf ks vs cs) c (x, p, q, r, s) g room halves,
      )
