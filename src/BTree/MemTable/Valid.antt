-- ===== src/BTree/MemTable/Valid.antt =====
-- The invariant of `BTreeMemTable`, the map that a table stands for, and that `insert` keeps the one
-- and updates the other.
use cachy_db.Base.{
  ℕ, zero, suc, ◌+◌, ◌-◌, ◌*◌, ◌<◌, ◌≡◌, refl, ap, false, Option, none, some, List, [], ◌⊎◌, inl,
  inr, ok, arith, length, Str, str_order, Bool-cases, ==_iff, ◌==◌, ◌∙◌, sym,
}
use cachy_db.BTree.{Node, node, nil, cons, keys, height, find_node, split_child, insert_non_full}
use cachy_db.BTree.Sorted.{IsSorted, lookup, insert_sorted, insert_sorted-IsSorted}
use cachy_db.BTree.Shape.{flat, IsTree, split_child-Split}
use cachy_db.BTree.Find.{Place, Finds, find_node-Finds}
use cachy_db.BTree.Insert.{insert_non_full-Inserted}
use cachy_db.BTree.MemTable.{MemTable, insert, insert_entry, insert_found, is_empty}
use cachy_db.BTree.MemTable.Entries.{
  length-insert_sorted_new, length-insert_sorted_old, height-IsTree,
}

module _ {V : Type 0} where
  -- The sorted entries, and the map.
  abbrev pub entries : MemTable V → List (Str × V)
  entries m = flat m.root

  abbrev pub view : MemTable V → Str → Option V
  view m key = lookup key (flat m.root)

  -- A B-tree of the degree `t`, in order, with `size` entries; a root that has children has a key.
  pub record IsValid (m : MemTable V) : Type 0 where
    pub degree : 1 < m.t
    pub depth : ℕ
    pub tree : IsTree m.t depth m.root
    pub root_key : (depth ≡ 0) ⊎ (0 < length (keys m.root))
    pub sorted : IsSorted (flat m.root)
    pub counted : m.size ≡ length (flat m.root)

  -- The table with one entry more or one value changed.
  pub record Updated (m m' : MemTable V) (key : Str) (value : V) : Type 0 where
    pub valid : IsValid m'
    pub degree : m'.t ≡ m.t
    pub entries_eq : flat m'.root ≡ insert_sorted key value (flat m.root)

  found_Updated :
      (m : MemTable V) (key : Str) (value : V) (path : List ℕ) (idx : ℕ)
      → (v : IsValid m) → Place m.t v.depth m.root key path idx
      → (m' : MemTable V) × (insert_found m key value (some (path, idx)) ≡ ok m')
        × Updated m m' key value
  unfolding insert_found
  found_Updated m key value path idx v place =
      let (root, done, tree, kept, became) = place.write value in
      (
        record m { root = root },
        rw done,
        record {
          valid = record {
            degree = v.degree;
            depth = v.depth;
            tree = tree;
            root_key = rw kept (v.root_key);
            sorted = rw became (insert_sorted-IsSorted key value (flat m.root) v.sorted);
            counted = rw became (
                v.counted
                ∙ sym (
                    length-insert_sorted_old key value place.value (flat m.root) v.sorted
                      place.held));
          };
          degree = refl;
          entries_eq = became;
        },
      )

  -- A root with room for one more key, that holds the entries of the table.
  record Roomy (m : MemTable V) (root : Node Str V) (depth : ℕ) : Type 0 where
    tree : IsTree m.t depth root
    same : flat root ≡ flat m.root
    room : length (keys root) + 1 < 2 * m.t
    root_key : (depth ≡ 0) ⊎ (0 < length (keys root))

  Roomy-Updated :
      (m : MemTable V) (key : Str) (value : V) (root : Node Str V) (depth : ℕ)
      → IsValid m
      → view m key ≡ none
      → Roomy m root depth
      → (root' : Node Str V) × (insert_non_full (suc (height root)) m.t root key value ≡ ok root')
        × Updated m (record m { root = root'; size = m.size + 1 }) key value
  Roomy-Updated m key value root depth v absent r =
      let fuel : depth < suc (height root) = omega (arith, height-IsTree m.t depth root r.tree) in
      let (root', done, ins) =
        insert_non_full-Inserted (suc (height root)) m.t depth root key value fuel v.degree r.tree
          r.room (rw r.same v.sorted) (rw r.same absent) in
      let became = ins.entries ∙ ap (insert_sorted key value) r.same in
      (
        root',
        done,
        record {
          valid = record {
            degree = v.degree;
            depth = depth;
            tree = ins.tree;
            root_key = omega (arith, r.root_key, ins.grown);
            sorted = rw became (insert_sorted-IsSorted key value (flat m.root) v.sorted);
            counted =
                rw became (
                  omega
                    (arith, v.counted, length-insert_sorted_new key value (flat m.root) absent));
          };
          degree = refl;
          entries_eq = became;
        },
      )

  keys_bound : (t h : ℕ) (n : Node Str V) → IsTree t h n → length (keys n) < 2 * t
  keys_bound t zero (node leaf ks vs cs) (x, p, q, r) = q
  keys_bound t (suc h) (node leaf ks vs cs) (x, p, q, r, c) = q

  -- A full root gets a new root above it, and is split.
  grown_Roomy :
      (m : MemTable V)
      → (v : IsValid m) → length (keys m.root) ≡ 2 * m.t - 1
      → (root : Node Str V) × (split_child m.t (node false [] [] (cons m.root nil)) 0 ≡ ok root)
        × Roomy m root (suc v.depth)
  unfolding flat
  grown_Roomy m v full =
      let top = node false [] [] (cons m.root nil) in
      let d : 1 < m.t = v.degree in
      let tree : IsTree m.t (suc v.depth) top =
        (refl, refl, omega arith, refl, ((v.tree, omega (arith, full)), tt)) in
      let (root, done, split) =
        split_child-Split m.t v.depth 0 top m.root (omega arith) tree refl full (omega arith) in
      let one : length (keys root) ≡ 1 = ap length split.new_keys in
      (
        root,
        done,
        record {
          tree = split.tree;
          same = split.same;
          room = omega (arith, one);
          root_key = inr (omega (arith, one));
        },
      )

  entry_Updated :
      (m : MemTable V) (key : Str) (value : V)
      → IsValid m
      → view m key ≡ none
      → (root : Node Str V) × (insert_entry m key value ≡ ok root)
        × Updated m (record m { root = root; size = m.size + 1 }) key value
  unfolding insert_entry
  entry_Updated m key value v absent = elim (Bool-cases (length (keys m.root) == 2 * m.t - 1)) [
    | inl full ↦
        let (root, split, roomy) = grown_Roomy m v ((==_iff _ _).0 full) in
        let (root', done, upd) = Roomy-Updated m key value root (suc v.depth) v absent roomy in
        (root', rw (full, split, done), upd)
    | inr not_full ↦
        let roomy : Roomy m m.root v.depth = record {
          tree = v.tree;
          same = refl;
          room = ground (arith, keys_bound m.t v.depth m.root v.tree);
          root_key = v.root_key;
        } in
        let (root', done, upd) = Roomy-Updated m key value m.root v.depth v absent roomy in
        (root', rw (not_full, done), upd)
  ]

  insert_found_new :
      (m : MemTable V) (key : Str) (value : V) {root : Node Str V}
      → insert_entry m key value ≡ ok root
      → insert_found m key value none ≡ ok (record m { root = root; size = m.size + 1 })
  unfolding insert_found
  insert_found_new m key value e = rw e

  -- `insert` of a key that is not empty.
  pub insert-Updated :
      (m : MemTable V) (key : Str) (value : V)
      → IsValid m
      → is_empty key ≡ false
      → (m' : MemTable V) × (insert m key value ≡ ok m') × Updated m m' key value
  unfolding insert
  insert-Updated m key value v e =
      let (r, found, finds) = find_node-Finds m.t v.depth m.root key v.tree v.sorted in
      by_place r found finds
    where
      by_place :
          (r : Option (List ℕ × ℕ))
          → find_node m.root key ≡ ok r
          → Finds m.t v.depth m.root key r
          → (m' : MemTable V) × (insert m key value ≡ ok m') × Updated m m' key value
      by_place none found absent =
          let (root, done, upd) = entry_Updated m key value v absent in
          (
            record m { root = root; size = m.size + 1 },
            rw (e, found, insert_found_new m key value done),
            upd,
          )
      by_place (some (path, idx)) found place =
          let (m', done, upd) = found_Updated m key value path idx v place in
          (m', rw (e, found, done), upd)
