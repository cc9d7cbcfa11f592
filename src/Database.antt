-- ===== src/Database.antt =====
-- src/cachyDB/database.py: the facade. Its lock, the checkpoint's and the compactor's threads and the
-- log lines are left out; the sub-layers are those of the router.
pub mod Recovery
pub mod Replay
pub mod Session
mod Tests
use cachy_db.Base.{
  ℕ, zero, suc, ◌+◌, ◌-◌, Bool, true, false, ◌||◌, Option, none, some, List, [], ◌∷◌, ◌++◌, map,
  Result, ok, raise, ◌>>=◌, ◌>>◌, raise_if, value_error, ◌==◌, if◌then◌else◌, Str,
}
use cachy_db.Base.Exec.{Exec, after, catch}
use cachy_db.Bytes.{Bytes}
use cachy_db.Json.{Json}
use cachy_db.BTree.MemTable
use cachy_db.BTree.MemTable.{MemTable, is_empty}
use cachy_db.Wal.{Wal, get_file_path}
use cachy_db.Wal.Disk.{mark_job_complete}
use cachy_db.Wal.Recovery.{read_wal}
use cachy_db.Router.Packing.{unpack_record}
use cachy_db.Router.State
use cachy_db.Router.State.{TableState, Router, get_table_state, put_table}
use cachy_db.Router.Write
use cachy_db.Router.Chunks
use cachy_db.Router.Chunks.{Overflow}

-- `":"`
abbrev pub colon : ℕ
colon = 58

-- `f"{table}:{key}"`
abbrev pub namespaced_key : Str → Str → Str
namespaced_key table key = table ++ colon ∷ key

-- `"default"`
abbrev pub default_table : Str
default_table = 0x64 ∷ 0x65 ∷ 0x66 ∷ 0x61 ∷ 0x75 ∷ 0x6C ∷ 0x74 ∷ []

-- `key.split(":", 1)[0]` if the key has a colon
pub before_colon : Str → Option Str
before_colon [] = none
before_colon (c ∷ key) =
    let rest = before_colon key in
    if c == colon then some [] else elim rest [ none ↦ none | some s ↦ some (c ∷ s) ]

abbrev pub or_default : Option Str → Str
or_default none = default_table
or_default (some []) = default_table
or_default (some (c ∷ s)) = c ∷ s

-- The table that a recovered record goes to.
pub recovered_table : Str → Str
unfolding before_colon
recovered_table key = or_default (before_colon key)

module _ {V : Type 0} where
  -- `memtable.insert(key, packed_record)` of the table
  pub insert_recovered : Str → Str → Bytes → TableState V → Exec (Router V) (Unit {0})
  insert_recovered table_name key packed_record table r =
      after (r, MemTable.insert table.active_memtable key packed_record)
        (λ active r'. (put_table table_name (record table { active_memtable = active }) r', ok tt))

  -- `wal.mark_job_complete(tx_id, wal.get_file_path(tx_id))`
  pub mark_recovered : ℕ → Exec (Router V) (Unit {0})
  mark_recovered tx_id r = elim (get_file_path tx_id) [
    | raise e ↦ (r, raise e)
    | ok file_id ↦ elim (mark_job_complete r.wal tx_id file_id) [
      | raise e ↦ (r, raise e)
      | ok wal ↦ (record r { wal = wal }, ok tt)
    ]
  ]

module _ {V : Type 0} ⦃json : Json V⦄ where
  pub recover_record : ℕ → Bytes → Exec (Router V) (Unit {0})
  unfolding insert_recovered mark_recovered recovered_table
  recover_record tx_id packed_record r =
      after (r, unpack_record {V = V} packed_record)
        (λ entry r0. after (get_table_state (recovered_table entry.0) r0) (λ table r1.
          after (insert_recovered (recovered_table entry.0) entry.0 packed_record table r1)
            (λ u. mark_recovered tx_id)))

  -- The loop over the records of the log. A record that fails is passed over, with the changes that it
  -- made before it failed. The count is that of the recovered records.
  pub recover_records : List (ℕ × Bytes) → Router V → Router V × ℕ
  unfolding recover_record
  recover_records [] r = (r, 0)
  recover_records ((tx_id, packed_record) ∷ records) r =
      let (r', done) = recover_record tx_id packed_record r in
      let (r'', count) = recover_records records r' in
      (r'', elim done [ ok u ↦ count + 1 | raise e ↦ count ])

  pub recover_transactions : Router V → Router V × ℕ
  unfolding recover_records
  recover_transactions r = recover_records (read_wal r.wal.files) r

  -- `_ensure_initialized`, on the log that `WAL()` gives: a failure is a RuntimeError, with no router.
  pub ensure_initialized : Wal → (Str → Bytes) → ℕ → ℕ → Result (Router V)
  unfolding recover_transactions
  ensure_initialized wal stored max_memtable_size cache_capacity = do
    r ← State.init wal stored max_memtable_size cache_capacity
    ok ((recover_transactions r).0)

  pub namespaced_records : Str → List (Str × V) → List (Str × V)
  namespaced_records table records = map (λ r. (namespaced_key table r.0, r.1)) records

module _ {V : Type 0} ⦃json : Json V⦄ (codec : Overflow V) where
  pub set : Str → Str → V → Exec (Router V) (Unit {0})
  set table key value r =
      after (r, raise_if (is_empty table || is_empty key) value_error)
        (λ u. Chunks.set codec table (namespaced_key table key) value)

  pub get : Str → Str → Exec (Router V) (Option V)
  get table key r =
      after (r, raise_if (is_empty table || is_empty key) value_error)
        (λ u. Chunks.get codec table (namespaced_key table key))

  pub delete : Str → Str → Exec (Router V) (Unit {0})
  unfolding set
  delete table key r =
      after (r, raise_if (is_empty table || is_empty key) value_error)
        (λ u. set table key json.null)

module _ {V : Type 0} ⦃json : Json V⦄ where
  pub set_many : Str → List (Str × V) → Exec (Router V) (Unit {0})
  unfolding namespaced_records
  set_many table [] r = (r, raise value_error)
  set_many table (record' ∷ records) r =
      after (r, raise_if (is_empty table) value_error)
        (λ u. Write.set_many table (namespaced_records table (record' ∷ records)))
