-- ===== src/BTree/MemTable/Ops.antt =====
-- What the operations of `BTreeMemTable` do, for every key and on every valid table.
use cachy_db.Base.{
  is_some, ℕ, ◌+◌, ◌<◌, ◌≡◌, refl, ap, true, false, Option, none, some, List, [], ◌∷◌, inl, inr,
  Result, ok, raise, ◌>>=◌, value_error, arith, if◌then◌else◌, length, All, Str, str_order,
  Bool-cases, Option-cases, ltb, ◌∙◌, sym, eq_str,
}
use cachy_db.BTree.{new_node}
use cachy_db.BTree.Sorted.{IsSorted, lookup, lookup-insert_sorted}
use cachy_db.BTree.Shape.{flat}
use cachy_db.BTree.Search.{search_node-lookup}
use cachy_db.BTree.Find.{Finds, find_node-Finds}
use cachy_db.BTree.MemTable.{
  MemTable, init, search, insert, contains, in_order_traversal, clear, is_empty,
}
use cachy_db.BTree.MemTable.Entries.{
  length-insert_sorted_new, length-insert_sorted_old, in_order-flat,
}
use cachy_db.BTree.MemTable.Valid.{IsValid, view, insert-Updated}

module _ {V : Type 0} where
  -- Every insertion of a key that is not empty succeeds on a valid table, gives a valid table, sets
  -- the key to the value and leaves every other key as it was.
  pub insert-view :
      (m : MemTable V) (key : Str) (value : V)
      → IsValid m
      → is_empty key ≡ false
      → (m' : MemTable V) × (insert m key value ≡ ok m')
        × IsValid m'
        × ((j : Str) → view m' j ≡ (if eq_str j key then some value else view m j))
  insert-view m key value v e =
      let (m', done, upd) = insert-Updated m key value v e in
      (m', done, upd.valid, λ j. rw upd.entries_eq (lookup-insert_sorted key j value (flat m.root)))

  -- An insertion counts a new key, and does not count a key again.
  pub size-insert :
      (m m' : MemTable V) (key : Str) (value : V)
      → IsValid m
      → is_empty key ≡ false
      → insert m key value ≡ ok m'
      → m'.size ≡ (if is_some (view m key) then m.size else m.size + 1)
  size-insert m m' key value v e h =
      let (m2, done, upd) = insert-Updated m key value v e in
      let same : m2 ≡ m' = cc (done, h) in
      rw (← same, upd.valid.counted, upd.entries_eq, v.counted)
        (elim (Option-cases (view m key)) [
          | inl absent ↦ rw absent (length-insert_sorted_new key value (flat m.root) absent)
          | inr (w, held) ↦
              rw held (length-insert_sorted_old key value w (flat m.root) v.sorted held)
        ])

  -- `search` returns what the map of the entries holds, and refuses the empty key.
  pub search-view :
      (m : MemTable V) (key : Str)
      → IsValid m
      → search m key ≡ (if is_empty key then raise value_error else ok (view m key))
  unfolding search
  search-view m key v = elim (Bool-cases (is_empty key)) [
    | inl e ↦ rw e
    | inr e ↦ rw e (search_node-lookup m.t v.depth m.root key v.tree v.sorted)
  ]

  -- `contains` says whether the map has the key, and refuses the empty key.
  pub contains-view :
      (m : MemTable V) (key : Str)
      → IsValid m
      → contains m key ≡ (if is_empty key then raise value_error else ok (is_some (view m key)))
  unfolding contains
  contains-view m key v = elim (Bool-cases (is_empty key)) [
    | inl e ↦ rw e
    | inr e ↦
        let (r, found, finds) = find_node-Finds m.t v.depth m.root key v.tree v.sorted in
        rw (e, found) (by_place r finds)
  ]
    where
      by_place :
          (r : Option (List ℕ × ℕ))
          → Finds m.t v.depth m.root key r
          → ok (elim r [ none ↦ false | some place ↦ true ]) ≡ ok (is_some (view m key))
      by_place none absent = rw absent
      by_place (some (path, idx)) place = rw place.held

  -- The traversal lists every entry once, by ascending keys, and as many as the table counts.
  pub in_order_traversal-IsSorted :
      (m : MemTable V)
      → IsValid m
      → (es : List (Str × V)) × (in_order_traversal m ≡ ok es)
        × IsSorted es
        × (length es ≡ m.size)
        × ((key : Str) → lookup key es ≡ view m key)
  unfolding in_order_traversal
  in_order_traversal-IsSorted m v =
      (flat m.root, in_order-flat m.t v.depth m.root v.tree, v.sorted, sym v.counted, λ key. refl)

  abbrev fresh : ℕ → MemTable V
  fresh t = record { root = new_node true; t = t; size = 0 }

  fresh-IsValid : (t : ℕ) → 1 < t → IsValid (fresh t) × ((key : Str) → view (fresh t) key ≡ none)
  unfolding flat lookup
  fresh-IsValid t h = (
    record {
      degree = h;
      depth = 0;
      tree = (refl, refl, omega arith, refl);
      root_key = inl refl;
      sorted = tt;
      counted = refl;
    },
    λ key. refl,
  )

  -- A new table of a degree of at least 2 is valid and empty.
  pub init-IsValid :
      (t : ℕ)
      → 1 < t
      → (m : MemTable V) × (init t ≡ ok m) × IsValid m × ((key : Str) → view m key ≡ none)
  unfolding init
  init-IsValid t h =
      let big : ltb t 2 ≡ false = ground arith in
      let (valid, empty) = fresh-IsValid t h in (fresh t, rw big, valid, empty)

  pub size-init : (t : ℕ) (m : MemTable V) → 1 < t → init t ≡ ok m → m.size ≡ 0
  unfolding init
  size-init t m h made =
      let big : ltb t 2 ≡ false = ground (arith, h) in
      let same : init t ≡ ok (fresh t) = rw big refl in
      let m_eq : fresh t ≡ m = cc (same, made) in rw (← m_eq) refl

  -- `clear` gives a valid table with no entry.
  pub clear-IsValid :
      (m : MemTable V) → IsValid m → IsValid (clear m) × ((key : Str) → view (clear m) key ≡ none)
  unfolding clear
  clear-IsValid m v = fresh-IsValid m.t v.degree

  -- A sequence of insertions, and the last value that it writes for a key.
  unfoldable pub insert_all : MemTable V → List (Str × V) → Result (MemTable V)
  insert_all m [] = ok m
  insert_all m ((key, value) ∷ rest) = do m' ← insert m key value; insert_all m' rest

  abbrev pub last_write : Option V → List (Str × V) → Str → Option V
  last_write old [] key = old
  last_write old ((k, value) ∷ rest) key =
      last_write (if eq_str key k then some value else old) rest key

  insert_all-view :
      (m : MemTable V) (writes : List (Str × V))
      → IsValid m
      → All (λ w. is_empty w.0 ≡ false) writes
      → (m' : MemTable V) × (insert_all m writes ≡ ok m')
        × IsValid m'
        × ((j : Str) → view m' j ≡ last_write (view m j) writes j)
  unfolding insert_all
  insert_all-view m [] v e = (m, refl, v, λ j. refl)
  insert_all-view m ((key, value) ∷ rest) v e =
      let (m1, done, v1, views) = insert-view m key value v e.0 in
      let (m2, done2, v2, views2) = insert_all-view m1 rest v1 e.1 in
      (m2, rw (done, done2), v2, λ j. views2 j ∙ ap (λ o. last_write o rest j) (views j))

  -- From a new table, after any insertions of keys that are not empty, none of which fails, a search
  -- returns the value last written for its key, or that there is none.
  pub search-insert_all :
      (t : ℕ) (writes : List (Str × V)) (key : Str)
      → 1 < t
      → All (λ w. is_empty w.0 ≡ false) writes
      → is_empty key ≡ false
      → (m : MemTable V) × ((init t >>= λ m. insert_all m writes) ≡ ok m)
        × (search m key ≡ ok (last_write none writes key))
  search-insert_all t writes key h e k =
      let (m0, made, v0, empty) = init-IsValid t h in
      let (m, done, v, views) = insert_all-view m0 writes v0 e in
      let read = search-view m key v in
      (
        m,
        rw (made, done),
        read ∙ rw k (ap ok (views key ∙ ap (λ o. last_write o writes key) (empty key))),
      )
