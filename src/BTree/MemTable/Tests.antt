-- ===== src/BTree/MemTable/Tests.antt =====
-- Runs of the B-tree, and its theorems at concrete inputs.
use cachy_db.Base.{
  is_some, ℕ, ◌≡◌, refl, true, false, none, some, List, [], ◌∷◌, ok, raise, ◌>>=◌, arith, length,
  Str, str_order, eq_str, if◌then◌else◌, value_error, inr,
}
use cachy_db.BTree.{
  Node, node, nil, cons, scan, bisect_left, search_node, find_node, set_value, split_child, height,
  in_order, prepare, insert_non_full,
}
use cachy_db.BTree.Sorted.{IsSorted, lookup}
use cachy_db.BTree.Places.{bisect_left-eq-scan}
use cachy_db.BTree.Shape.{flat, Split, split_child-Split}
use cachy_db.BTree.MemTable.{
  MemTable, init, search, insert, contains, in_order_traversal, insert_found, clear,
}
use cachy_db.BTree.MemTable.Valid.{IsValid, view}
use cachy_db.BTree.MemTable.Ops.{
  insert-view, size-insert, search-view, contains-view, in_order_traversal-IsSorted, init-IsValid,
  clear-IsValid, insert_all, last_write, search-insert_all,
}

program : Unit {0}
unfolding scan bisect_left search_node find_node set_value split_child height in_order prepare
    insert_non_full flat lookup init search insert contains in_order_traversal insert_found
    insert_all
program = tt

abbrev a : Str
a = b'a' ∷ []

abbrev b : Str
b = b'b' ∷ []

abbrev c : Str
c = b'c' ∷ b'x' ∷ []

abbrev d : Str
d = b'd' ∷ []

abbrev leaf_node : List Str → List ℕ → Node Str ℕ
leaf_node ks vs = node true ks vs nil

-- Four insertions split the root of degree 2, and `b` is then written again.
abbrev two_levels : MemTable ℕ
two_levels = record {
  root =
      node false (b ∷ []) (5 ∷ [])
        (cons (leaf_node (a ∷ []) (1 ∷ [])) (cons (leaf_node (c ∷ d ∷ []) (3 ∷ 4 ∷ [])) nil));
  t = 2;
  size = 4;
}

abbrev writes : List (Str × ℕ)
writes = (b, 2) ∷ (a, 1) ∷ (c, 3) ∷ (d, 4) ∷ (b, 5) ∷ []

run_writes : (init 2 >>= λ m. insert_all m writes) ≡ ok two_levels
unfolding program
run_writes = refl

run_reads :
    (search two_levels b ≡ ok (some 5))
    × (search two_levels (b'c' ∷ []) ≡ ok none)
    × (contains two_levels c ≡ ok true)
    × (search two_levels [] ≡ raise value_error)
    × (in_order_traversal two_levels ≡ ok ((a, 1) ∷ (b, 5) ∷ (c, 3) ∷ (d, 4) ∷ []))
    × (init {V = ℕ} 1 ≡ raise value_error)
unfolding program
run_reads = (refl, refl, refl, refl, refl, refl)

two_levels-IsValid : IsValid two_levels
unfolding program
two_levels-IsValid = record {
  degree = omega arith;
  depth = 1;
  tree = (
    refl,
    refl,
    omega arith,
    refl,
    (
      ((refl, refl, omega arith, refl), omega arith),
      (((refl, refl, omega arith, refl), omega arith), tt),
    ),
  );
  root_key = inr (omega arith);
  sorted = ((refl, (refl, (refl, tt))), ((refl, (refl, tt)), ((refl, tt), (tt, tt))));
  counted = refl;
}

insert-view_example :
    (m' : MemTable ℕ) × (insert two_levels c 7 ≡ ok m')
    × IsValid m'
    × ((j : Str) → view m' j ≡ (if eq_str j c then some 7 else view two_levels j))
insert-view_example = insert-view two_levels c 7 two_levels-IsValid refl

abbrev rewritten : MemTable ℕ
rewritten = record two_levels {
  root =
      node false (b ∷ []) (5 ∷ [])
        (cons (leaf_node (a ∷ []) (8 ∷ [])) (cons (leaf_node (c ∷ d ∷ []) (3 ∷ 4 ∷ [])) nil));
}

rewrite_runs : insert two_levels a 8 ≡ ok rewritten
unfolding program
rewrite_runs = refl

size-insert_example : rewritten.size ≡ (if is_some (view two_levels a) then two_levels.size else 5)
size-insert_example = size-insert two_levels rewritten a 8 two_levels-IsValid refl rewrite_runs

search-view_example : search two_levels c ≡ ok (view two_levels c)
search-view_example = search-view two_levels c two_levels-IsValid

contains-view_example : contains two_levels c ≡ ok (is_some (view two_levels c))
contains-view_example = contains-view two_levels c two_levels-IsValid

in_order_traversal-IsSorted_example :
    (es : List (Str × ℕ)) × (in_order_traversal two_levels ≡ ok es)
    × IsSorted es
    × (length es ≡ 4)
    × ((key : Str) → lookup key es ≡ view two_levels key)
in_order_traversal-IsSorted_example = in_order_traversal-IsSorted two_levels two_levels-IsValid

init-IsValid_example :
    (m : MemTable ℕ) × (init 10 ≡ ok m) × IsValid m × ((key : Str) → view m key ≡ none)
init-IsValid_example = init-IsValid 10 (omega arith)

clear-IsValid_example :
    IsValid (clear two_levels) × ((key : Str) → view (clear two_levels) key ≡ none)
clear-IsValid_example = clear-IsValid two_levels two_levels-IsValid

search-insert_all_example :
    (m : MemTable ℕ) × ((init 2 >>= λ m. insert_all m writes) ≡ ok m)
    × (search m b ≡ ok (last_write none writes b))
search-insert_all_example =
    search-insert_all 2 writes b (omega arith) (refl, (refl, (refl, (refl, (refl, tt))))) refl

bisect_left-eq-scan_example : bisect_left (a ∷ b ∷ d ∷ []) c ≡ scan (a ∷ b ∷ d ∷ []) c
bisect_left-eq-scan_example =
    bisect_left-eq-scan (a ∷ b ∷ d ∷ []) c ((refl, (refl, tt)), ((refl, tt), (tt, tt)))

abbrev full_child : Node Str ℕ
full_child = leaf_node (a ∷ b ∷ c ∷ []) (1 ∷ 2 ∷ 3 ∷ [])

abbrev parent : Node Str ℕ
parent =
    node false (d ∷ []) (4 ∷ [])
      (cons full_child (cons (leaf_node ((b'e' ∷ []) ∷ []) (9 ∷ [])) nil))

split_child-Split_example :
    (n' : Node Str ℕ) × (split_child 2 parent 0 ≡ ok n') × Split 2 0 0 parent n'
split_child-Split_example =
    split_child-Split 2 0 0 parent full_child (omega arith)
      (
        refl,
        refl,
        omega arith,
        refl,
        (
          ((refl, refl, omega arith, refl), omega arith),
          (((refl, refl, omega arith, refl), omega arith), tt),
        ),
      )
      refl refl (omega arith)
