-- ===== src/Database/Recovery.antt =====
-- Where a recovered record goes.
use cachy_db.Base.{ℕ, suc, ◌≡◌, refl, ap, ◌∙◌, false, some, [], ◌∷◌, ◌++◌, Str, arith}
use cachy_db.Base.Dict.{nat_eq, mem}
use cachy_db.BTree.MemTable.{is_empty}
use cachy_db.Router.Chunks.{chunk_key, digits}
use cachy_db.Router.Chunks.Keys.{chunk_key-append}
use cachy_db.Database.{colon, namespaced_key, before_colon, or_default, recovered_table}

before_colon-append :
    (table key : Str) → mem colon table ≡ false → before_colon (table ++ colon ∷ key) ≡ some table
unfolding before_colon mem
before_colon-append [] key h = refl
before_colon-append (c ∷ table) key h = ground (arith, h, before_colon-append table key)

or_default_full : (table : Str) → is_empty table ≡ false → or_default (some table) ≡ table
or_default_full [] h = cc
or_default_full (c ∷ s) h = refl

-- `"__chunk__"`
abbrev pub chunk_table : Str
chunk_table = 0x5F ∷ 0x5F ∷ 0x63 ∷ 0x68 ∷ 0x75 ∷ 0x6E ∷ 0x6B ∷ 0x5F ∷ 0x5F ∷ []

namespaced_table :
    (table key : Str)
    → is_empty table ≡ false
    → mem colon table ≡ false
    → recovered_table (namespaced_key table key) ≡ table
unfolding recovered_table
namespaced_table table key ne h =
    ap or_default (before_colon-append table key h) ∙ or_default_full table ne

chunk_table_lem : (key : Str) (i : ℕ) → recovered_table (chunk_key key i) ≡ chunk_table
unfolding mem
chunk_table_lem key i =
    ap recovered_table (chunk_key-append key i)
    ∙ namespaced_table chunk_table (key ++ colon ∷ digits (suc i) i) refl refl

-- A record that was written through the facade to a table whose name is not empty and has no colon is
-- recovered into that table, whatever its key. The chunks of such a record, when its value was large,
-- are recovered into another table, `__chunk__`, unless that is the table.
pub recovered_table-namespaced_key :
    (table key : Str) (i : ℕ)
    → is_empty table ≡ false
    → mem colon table ≡ false
    → (recovered_table (namespaced_key table key) ≡ table)
      × (recovered_table (chunk_key (namespaced_key table key) i) ≡ chunk_table)
recovered_table-namespaced_key table key i ne h =
    (namespaced_table table key ne h, chunk_table_lem (namespaced_key table key) i)
