-- ===== src/Database/Session.antt =====
-- A write through the facade and a lookup after it.
use cachy_db.Base.{
  ap, ℕ, ◌+◌, ◌<◌, ◌≤◌, ◌≡◌, refl, sym, ◌∙◌, Bool-cases, true, false, Option, none, inl, inr, [],
  ◌∷◌, ◌++◌, ok, length, Str, eq_str, eq_str_iff, arith,
}
use cachy_db.Base.Dict.{nat_eq, mem}
use cachy_db.Bytes.{Bytes}
use cachy_db.Json.{Json}
use cachy_db.BTree.MemTable.{is_empty}
use cachy_db.Router.Packing.{pack_record}
use cachy_db.Router.State.{TableState, Router}
use cachy_db.Router.View.{IsCoherent, table_view, present}
use cachy_db.Router.Flush.Running.{written}
use cachy_db.Router.Write.Rotation.{budget}
use cachy_db.Router.Chunks
use cachy_db.Router.Chunks.{Overflow, manifest_of, chunk_prefix, starts_with}
use cachy_db.Router.Chunks.Cleaning.{Erasable, OldChunks}
use cachy_db.Router.Chunks.Small.{IsSmall, Replaces, set-Replaces, get-plain, manifest_of-written}
use cachy_db.Database.{colon, namespaced_key, set, get}
use cachy_db.Database.Recovery.{chunk_table}

-- A prefix that ends at the first colon is the table of a namespaced key.
starts_with-append :
    (p table key : Str)
    → mem colon p ≡ false
    → mem colon table ≡ false
    → starts_with (p ++ colon ∷ []) (table ++ colon ∷ key) ≡ true
    → p ≡ table
unfolding starts_with mem
starts_with-append [] [] key hp ht s = refl
starts_with-append [] (c ∷ table) key hp ht s = absurd (ground (arith, ht, s))
starts_with-append (c ∷ p) [] key hp ht s = absurd (ground (arith, hp, s))
starts_with-append (c ∷ p) (d ∷ table) key hp ht s =
    let same : c ≡ d = ground (arith, s) in
    let rest : p ≡ table =
      starts_with-append p table key (ground (arith, hp)) (ground (arith, ht))
        (ground (arith, s)) in
    rw (same, rest) refl

namespaced_key-chunk :
    (table key : Str)
    → mem colon table ≡ false
    → eq_str table chunk_table ≡ false
    → starts_with chunk_prefix (namespaced_key table key) ≡ false
unfolding mem
namespaced_key-chunk table key h other =
    elim (Bool-cases (starts_with chunk_prefix (namespaced_key table key))) [
      | inr not_chunk ↦ not_chunk
      | inl starts ↦
          let same : chunk_table ≡ table = starts_with-append chunk_table table key refl h starts in
          let eq : eq_str table chunk_table ≡ true = (eq_str_iff table chunk_table).1 (sym same) in
          absurd (cc)
    ]

namespaced_key-full : (table key : Str) → is_empty (namespaced_key table key) ≡ false
namespaced_key-full [] key = refl
namespaced_key-full (c ∷ table) key = refl

module _ {V : Type 0} ⦃json : Json V⦄ (codec : Overflow V) where
  set_lem :
      (r : Router V) (table key : Str) (value : V)
      → is_empty table ≡ false
      → is_empty key ≡ false
      → set codec table key value r ≡ Chunks.set codec table (namespaced_key table key) value r
  unfolding set
  set_lem r table key value n1 n2 = rw (set, n1, n2) refl

  get_lem :
      (r : Router V) (table key : Str)
      → is_empty table ≡ false
      → is_empty key ≡ false
      → get codec table key r ≡ Chunks.get codec table (namespaced_key table key) r
  unfolding get
  get_lem r table key n1 n2 = rw (get, n1, n2) refl

  -- Take a table in a consistent state, whose name is not empty, has no colon and is not `__chunk__`, a
  -- key that is not empty, and a value that is no manifest, whose JSON has at most 2000 bytes and whose
  -- record at most 4072. Under the key there may be the manifest of n chunks, or there is none and n is
  -- 0; the tombstones of the chunks fit into pages, and the file has page ids left for all records.
  -- Then a write through the facade succeeds and leaves a consistent table with the value under the key,
  -- nothing under the keys of the n chunks, and every other key as it was. A lookup after it succeeds
  -- and finds the value, or nothing when the value is None. This needs that None is no manifest.
  pub database_get-set :
      (r : Router V) (table key : Str) (value : V) (payload : Bytes) (n : ℕ) (t : TableState V)
      (d : Str → Option V)
      → IsCoherent r table t d
      → budget t + (n + n) < 4294967296
      → is_empty table ≡ false
      → is_empty key ≡ false
      → mem colon table ≡ false
      → eq_str table chunk_table ≡ false
      → pack_record (namespaced_key table key) value ≡ ok payload
      → length payload ≤ 4072
      → IsSmall codec value
      → codec.as_manifest json.null ≡ none
      → codec.as_manifest value ≡ none
      → OldChunks codec (table_view t d (namespaced_key table key)) n
      → Erasable V (namespaced_key table key) 0 n
      → (r1 : Router V) × (r2 : Router V) × (found : Option V) × (set codec table key value r
          ≡ (r1, ok tt))
        × Replaces codec table (namespaced_key table key) value n t d r1
        × (get codec table key r1 ≡ (r2, ok found))
        × (present found ≡ written value)
  database_get-set r table key value payload n t d c room n1 n2 plain other packed fit small e1 e2
        old e =
      let name = namespaced_key table key in
      let full = namespaced_key-full table key in
      let (r1, done, s) =
        set-Replaces codec r table name value payload n t d c room n1 full
          (namespaced_key-chunk table key plain other) packed fit small e1 old e in
      let new : table_view s.t1 s.d1 name ≡ written value =
        s.view name ∙ rw ((eq_str_iff name name).1 refl) refl in
      let (r2, found, got, right) =
        get-plain codec r1 table name s.t1 s.d1 s.coherent n1 full e1
          (ap (manifest_of codec) new ∙ manifest_of-written codec value e2) in
      (
        r1,
        r2,
        found,
        set_lem r table key value n1 n2 ∙ done,
        s,
        get_lem r1 table key n1 n2 ∙ got,
        right ∙ new,
      )
