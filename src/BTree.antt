-- ===== src/BTree.antt =====
-- src/cachyDB/index/btree.py: the node, its children, and the routines of `BTreeMemTable` that work
-- on nodes. A node owns its children, so a subtree is a value; the place of a node is the list of
-- the child indices on the way to it. An index out of range is Python's IndexError.
mod Flat
pub mod Sorted
mod Places
mod Effects
pub mod Shape
mod Children
mod Search
mod Find
mod Prepare
mod Insert
pub mod MemTable
use cachy_db.Base.{
  ℕ, zero, suc, ◌+◌, ◌-◌, ◌*◌, ◌/◌, Bool, true, false, ◌&&◌, Option, none, some, List, [], ◌∷◌,
  ◌++◌, Result, ok, raise, Error, ◌>>=◌, ◌>>◌, raise_if, or_raise, index_error, value_error,
  out_of_fuel, ltb, leb, ◌==◌, if◌then◌else◌, length, get_elem?, set, take, drop, insert_at, Order,
  Str,
}

-- `BTreeNode`: leaf, keys, values, children.
mutual
  pub data Node {ℓ} (K V : Type ℓ) : Type ℓ where
    node : Bool → List K → List V → Nodes K V → Node K V

  pub data Nodes {ℓ} (K V : Type ℓ) : Type ℓ where
    nil : Nodes K V
    cons : Node K V → Nodes K V → Nodes K V

module _ {ℓ} {K V : Type ℓ} where
  -- The list of the children as a list of the library, and back.
  abbrev pub to_list : Nodes K V → List (Node K V)
  to_list nil = []
  to_list (cons c cs) = c ∷ to_list cs

  abbrev pub of_list : List (Node K V) → Nodes K V
  of_list [] = nil
  of_list (c ∷ cs) = cons c (of_list cs)

  abbrev pub leaf_of : Node K V → Bool
  leaf_of (node leaf ks vs cs) = leaf

  abbrev pub keys : Node K V → List K
  keys (node leaf ks vs cs) = ks

  abbrev pub values : Node K V → List V
  values (node leaf ks vs cs) = vs

  abbrev pub children : Node K V → List (Node K V)
  children (node leaf ks vs cs) = to_list cs

  -- `BTreeNode(leaf)`
  abbrev pub new_node : Bool → Node K V
  new_node leaf = node leaf [] [] nil

-- `bisect.bisect_left(keys, key)`: `fuel` bounds the rounds of its loop over `lo` and `hi`.
module _ {ℓ} {K : Type ℓ} ⦃o : Order K⦄ where
  -- `keys[mid] < key`; `mid` is always in range.
  below_at : List K → K → ℕ → Bool
  below_at ks key mid = elim (get_elem? ks mid) [ none ↦ false | some a ↦ o.lt a key ]

  pub bisect_loop : ℕ → List K → K → ℕ → ℕ → ℕ
  unfolding below_at
  bisect_loop zero ks key lo hi = lo
  bisect_loop (suc fuel) ks key lo hi =
      let mid = (lo + hi) / 2 in
      let right = bisect_loop fuel ks key (mid + 1) hi in
      let left = bisect_loop fuel ks key lo mid in
      if ltb lo hi then if below_at ks key mid then right else left else lo

  -- The interval shrinks in each round, so its length is fuel enough.
  pub bisect_left : List K → K → ℕ
  unfolding bisect_loop
  bisect_left ks key = bisect_loop (length ks) ks key 0 (length ks)

  -- `while i < n and key > node.keys[i]: i += 1`, from the first key that is not passed yet
  pub scan : List K → K → ℕ
  scan [] key = 0
  scan (a ∷ ks) key = if o.lt a key then suc (scan ks key) else 0

  -- `i < len(keys) and key == keys[i]`
  pub found_at : List K → ℕ → K → Bool
  found_at ks i key = elim (get_elem? ks i) [ none ↦ false | some a ↦ o.eq key a ]

-- One more child index on the way to a place.
abbrev pub enter : ℕ → Option (List ℕ × ℕ) → Option (List ℕ × ℕ)
enter i none = none
enter i (some (path, j)) = some (i ∷ path, j)

module _ {ℓ} {K V : Type ℓ} ⦃o : Order K⦄ where
  -- `_search`
  mutual
    unfolding bisect_left found_at

    pub search_node : Node K V → K → Result (Option V)
    search_node (node leaf ks vs cs) key =
        let i = bisect_left ks key in
        let here = (do v ← or_raise index_error (get_elem? vs i); ok (some v)) in
        let below = search_child cs i key in
        if found_at ks i key then here else if leaf then ok none else below

    -- `self._search(node.children[i], key)`
    search_child : Nodes K V → ℕ → K → Result (Option V)
    search_child nil i key = raise index_error
    search_child (cons c cs) zero key = search_node c key
    search_child (cons c cs) (suc i) key = search_child cs i key

  -- `_find_node_and_index`: where the key lives, `none` for `(None, -1)`
  mutual
    unfolding scan found_at

    pub find_node : Node K V → K → Result (Option (List ℕ × ℕ))
    find_node (node leaf ks vs cs) key =
        let i = scan ks key in
        let below = (do r ← find_child cs i key; ok (enter i r)) in
        if found_at ks i key then ok (some ([], i)) else if leaf then ok none else below

    find_child : Nodes K V → ℕ → K → Result (Option (List ℕ × ℕ))
    find_child nil i key = raise index_error
    find_child (cons c cs) zero key = find_node c key
    find_child (cons c cs) (suc i) key = find_child cs i key

module _ {ℓ} {K V : Type ℓ} where
  -- `node.values[idx] = value`, at the node that `path` leads to.
  pub set_value : List ℕ → ℕ → V → Node K V → Result (Node K V)
  set_value [] idx v (node leaf ks vs cs) = do
    raise_if (leb (length vs) idx) index_error
    ok (node leaf ks (set vs idx v) cs)
  set_value (i ∷ path) idx v (node leaf ks vs cs) = do
    c ← or_raise index_error (get_elem? (to_list cs) i)
    c' ← set_value path idx v c
    ok (node leaf ks vs (of_list (set (to_list cs) i c')))

  -- The two halves of a full child around its median.
  pub left_half : ℕ → Node K V → Node K V
  left_half t (node leaf ks vs cs) =
      node leaf (take (t - 1) ks) (take (t - 1) vs)
        (if leaf then cs else of_list (take t (to_list cs)))

  pub right_half : ℕ → Node K V → Node K V
  right_half t (node leaf ks vs cs) =
      node leaf (drop t ks) (drop t vs) (if leaf then nil else of_list (drop t (to_list cs)))

  -- `_split_child(parent, i)`
  pub split_child : ℕ → Node K V → ℕ → Result (Node K V)
  unfolding left_half right_half
  split_child t (node leaf ks vs cs) i = do
    full ← or_raise index_error (get_elem? (to_list cs) i)
    k ← or_raise index_error (get_elem? (keys full) (t - 1))
    v ← or_raise index_error (get_elem? (values full) (t - 1))
    ok (
        node leaf (insert_at i k ks) (insert_at i v vs)
          (of_list (insert_at (suc i) (right_half t full) (set (to_list cs) i (left_half t full)))))

  -- `node.children[j]` has become `c`.
  abbrev pub replace_child : Node K V → ℕ → Node K V → Node K V
  replace_child (node leaf ks vs cs) j c = node leaf ks vs (of_list (set (to_list cs) j c))

  -- The number of levels below a node.
  pub height : Node K V → ℕ
  height (node leaf ks vs nil) = 0
  height (node leaf ks vs (cons c cs)) = suc (height c)

  -- `_in_order`: the pairs of a leaf; the loop over an internal node, and `self._in_order(node.children[-1])` at its
  -- end; `last` is the traversal of the last child that was passed.
  in_order_leaf : List K → List V → Result (List (K × V))
  in_order_leaf [] vs = ok []
  in_order_leaf (k ∷ ks) [] = raise index_error
  in_order_leaf (k ∷ ks) (v ∷ vs) = do rest ← in_order_leaf ks vs; ok ((k, v) ∷ rest)

  mutual
    unfolding in_order_leaf

    pub in_order : Node K V → Result (List (K × V))
    in_order (node leaf ks vs cs) =
        let inner = in_order_children cs ks vs (raise index_error) in
        if leaf then in_order_leaf ks vs else inner

    in_order_children : Nodes K V → List K → List V → Result (List (K × V)) → Result (List (K × V))
    in_order_children nil [] vs last = last
    in_order_children nil (k ∷ ks) vs last = raise index_error
    in_order_children (cons c cs) [] vs last = in_order_children cs [] vs (in_order c)
    in_order_children (cons c cs) (k ∷ ks) [] last = do a ← in_order c; raise index_error
    in_order_children (cons c cs) (k ∷ ks) (v ∷ vs) last = do
      a ← in_order c
      rest ← in_order_children cs ks vs (in_order c)
      ok (a ++ ((k, v) ∷ rest))

module _ {ℓ} {K V : Type ℓ} ⦃o : Order K⦄ where
  -- The proactive split of `_insert_non_full`: the node after it, and the child to go on with.
  pub prepare : ℕ → Node K V → ℕ → K → Result (Node K V × ℕ)
  prepare t n i key = do
    c ← or_raise index_error (get_elem? (children n) i)
    if length (keys c) == 2 * t - 1
        then (do
          n' ← split_child t n i
          k ← or_raise index_error (get_elem? (keys n') i)
          ok (n', if o.lt k key then suc i else i))
        else ok (n, i)

  -- `_insert_non_full`. The recursion goes down one level, so the height bounds the fuel.
  pub insert_non_full : ℕ → ℕ → Node K V → K → V → Result (Node K V)
  insert_non_full zero t n key v = raise out_of_fuel
  insert_non_full (suc fuel) t (node leaf ks vs cs) key v =
      let i = bisect_left ks key in
      let down = (do
        (n, j) ← prepare t (node leaf ks vs cs) i key
        c ← or_raise index_error (get_elem? (children n) j)
        c' ← insert_non_full fuel t c key v
        ok (replace_child n j c')) in
      if leaf then ok (node leaf (insert_at i key ks) (insert_at i v vs) cs) else down
