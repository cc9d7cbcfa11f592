-- ===== src/BTree/MemTable.antt =====
-- src/cachyDB/index/btree.py, class `BTreeMemTable`: the table over the nodes of `BTree`. Keys are
-- texts, so the check for another type has nothing to refuse.
mod Entries
pub mod Valid
pub mod Ops
mod Tests
use cachy_db.Base.{
  ℕ, suc, ◌+◌, ◌-◌, ◌*◌, Bool, true, false, Option, none, some, List, [], ◌∷◌, Result, ok, raise,
  ◌>>=◌, ◌>>◌, raise_if, value_error, ltb, ◌==◌, if◌then◌else◌, length, Str, str_order,
}
use cachy_db.BTree
use cachy_db.BTree.{
  Node, node, nil, cons, keys, new_node, search_node, find_node, set_value, split_child, height,
  insert_non_full,
}

pub record MemTable (V : Type 0) : Type 0 where
  pub root : Node Str V
  pub t : ℕ
  pub size : ℕ

abbrev pub min_degree : ℕ
min_degree = 2

-- `not key`
abbrev pub is_empty : Str → Bool
is_empty [] = true
is_empty (c ∷ cs) = false

pub validate_key : Str → Result (Unit {0})
validate_key key = raise_if (is_empty key) value_error

module _ {V : Type 0} where
  -- `BTreeMemTable(t)`
  pub init : ℕ → Result (MemTable V)
  init t = do
    raise_if (ltb t min_degree) value_error
    ok (record { root = new_node true; t = t; size = 0 })

  pub search : MemTable V → Str → Result (Option V)
  unfolding validate_key
  search m key = do validate_key key; search_node m.root key

  -- The tree with a new entry: a full root is first put below a new one and split.
  pub insert_entry : MemTable V → Str → V → Result (Node Str V)
  insert_entry m key value =
      let grow = (do
        root ← split_child m.t (node false [] [] (cons m.root nil)) 0
        insert_non_full (suc (height root)) m.t root key value) in
      if length (keys m.root) == 2 * m.t - 1
      then grow
      else insert_non_full (suc (height m.root)) m.t m.root key value

  -- The rest of `insert`, once `_find_node_and_index` has answered.
  pub insert_found : MemTable V → Str → V → Option (List ℕ × ℕ) → Result (MemTable V)
  unfolding insert_entry
  insert_found m key value (some (path, idx)) = do
    root ← set_value path idx value m.root
    ok (record m { root = root })
  insert_found m key value none = do
    root ← insert_entry m key value
    ok (record m { root = root; size = m.size + 1 })

  pub insert : MemTable V → Str → V → Result (MemTable V)
  unfolding validate_key
  insert m key value = do
    validate_key key
    found ← find_node m.root key
    insert_found m key value found

  pub contains : MemTable V → Str → Result Bool
  unfolding validate_key
  contains m key = do
    validate_key key
    found ← find_node m.root key
    ok (elim found [ none ↦ false | some place ↦ true ])

  pub in_order_traversal : MemTable V → Result (List (Str × V))
  in_order_traversal m = BTree.in_order m.root

  pub clear : MemTable V → MemTable V
  clear m = record m { root = new_node true; size = 0 }
