-- ===== src/Router/Write.antt =====
-- `_set_internal` and `_set_many_internal`: a record goes to the log, to the active table and to the
-- cache, and a full active table is handed to a flush.
pub mod Caching
pub mod Rotation
pub mod Refines
use cachy_db.Base.{
  ℕ, ◌+◌, Bool, true, false, ◌||◌, Option, none, some, List, [], ◌∷◌, ◌++◌, map, Result, ok, raise,
  Error, ◌>>=◌, ◌>>◌, raise_if, value_error, router_error, leb, if◌then◌else◌, Str,
}
use cachy_db.Base.Exec.{Exec, after}
use cachy_db.Base.Dict
use cachy_db.Base.Dict.{str_eq, pair_eq}
use cachy_db.Bytes.{Bytes}
use cachy_db.Json.{Json}
use cachy_db.BTree.MemTable
use cachy_db.BTree.MemTable.{MemTable, is_empty}
use cachy_db.Cache
use cachy_db.Cache.{Cache}
use cachy_db.Wal.{Wal, append_to_buffer, append_many_to_buffer}
use cachy_db.Router.Packing.{pack_record, except_as}
use cachy_db.Router.State.{TableState, Router, get_table_state, put_table, default_t}
use cachy_db.Router.Flush.{flush_memtable_to_disk}

-- `except Exception as exc: raise RouterError`
abbrev pub as_router_error : Error → Error
as_router_error e = router_error

module _ {V : Type 0} where
  -- `self.cache.put((table_name, key), value)`
  pub cache_put : Str → Str → V → Exec (Router V) (Unit {0})
  cache_put table_name key value r = elim (Cache.put r.cache (table_name, key) value) [
    | ok cache ↦ (record r { cache = cache }, ok tt)
    | raise e ↦ (r, raise e)
  ]

  -- The future of the table's flush is done.
  pub flush_done : Str → Router V × Result (Unit {0}) → Router V × Result (Unit {0})
  flush_done table_name (r, done) = elim (Dict.get table_name r.tables) [
    | none ↦ (r, done)
    | some table ↦ (put_table table_name (record table { flush_pending = false }) r, done)
  ]

  -- The executor runs the flush of the table.
  pub run_flush : Str → Exec (Router V) (Unit {0})
  unfolding flush_done
  run_flush table_name r = flush_done table_name (flush_memtable_to_disk table_name r)

  -- `future.result()`, unless there is no flush or it is done.
  pub await_flush : Str → Exec (Router V) (Unit {0})
  unfolding run_flush
  await_flush table_name r = elim (Dict.get table_name r.tables) [
    | none ↦ (r, ok tt)
    | some table ↦ elim table.flush_pending [ true ↦ run_flush table_name r | false ↦ (r, ok tt) ]
  ]

  -- The active table becomes the immutable one.
  abbrev pub rotated : TableState V → MemTable Bytes → TableState V
  rotated table new = record table {
    immutable_memtable = some table.active_memtable;
    immutable_tx_ids = some table.active_tx_ids;
    active_memtable = new;
    active_tx_ids = [];
    flush_pending = true;
  }

  pub rotate_table : Str → TableState V → Exec (Router V) (Unit {0})
  rotate_table table_name table r = elim (leb r.max_memtable_size table.active_memtable.size) [
    | false ↦ (r, ok tt)
    | true ↦
        after (r, MemTable.init default_t)
          (λ new r'. (put_table table_name (rotated table new) r', ok tt))
  ]

  -- `if needs_flush:` with what follows
  pub trigger_flush : Str → Bool → Exec (Router V) (Unit {0})
  unfolding await_flush rotate_table
  trigger_flush table_name false r = (r, ok tt)
  trigger_flush table_name true r =
      after (await_flush table_name r)
        (λ u r1. after (get_table_state table_name r1) (λ table. rotate_table table_name table))

  -- Steps 2 and 3: the log, then the active table.
  pub insert_active : Str → TableState V → Str → Bytes → Exec (Router V) (MemTable Bytes)
  insert_active table_name table key packed_data r =
      let (wal, tx_id) = append_to_buffer r.wal packed_data in
      after
        (
          record r { wal = wal },
          except_as as_router_error (MemTable.insert table.active_memtable key packed_data),
        )
        (λ active r'. (
          put_table table_name
              (record table {
                active_memtable = active;
                active_tx_ids = table.active_tx_ids ++ tx_id ∷ [];
              })
              r',
          ok active,
        ))

  pub needs_flush : MemTable Bytes → Router V → Bool
  needs_flush active r = leb r.max_memtable_size active.size

  pub store_record : Str → Str → V → Bytes → Exec (Router V) (Unit {0})
  unfolding insert_active cache_put trigger_flush needs_flush
  store_record table_name key value packed_data r =
      after (get_table_state table_name r) (λ table r1.
        after (insert_active table_name table key packed_data r1) (λ active r2.
          after (cache_put table_name key value r2)
            (λ u r3. trigger_flush table_name (needs_flush active r3) r3)))

module _ {V : Type 0} ⦃json : Json V⦄ where
  pub set_internal : Str → Str → V → Exec (Router V) (Unit {0})
  unfolding store_record
  set_internal table_name key value r =
      after (r, raise_if (is_empty table_name || is_empty key) value_error)
        (λ u r1.
          after (r1, pack_record key value)
            (λ packed_data. store_record table_name key value packed_data))

  -- The records of `_set_many_internal` with their bytes
  pub pack_many : List (Str × V) → Result (List ((Str × V) × Bytes))
  pack_many [] = ok []
  pack_many ((key, value) ∷ records) = do
    packed_data ← pack_record key value
    rest ← pack_many records
    ok (((key, value), packed_data) ∷ rest)

module _ {V : Type 0} where
  -- The loop over the packed records: the active table and the cache.
  pub insert_many :
      Str
      → List ((Str × V) × Bytes)
      → MemTable Bytes
      → Cache (Str × Str) V
      → (MemTable Bytes × Cache (Str × Str) V) × Result (Unit {0})
  insert_many table_name [] active cache = ((active, cache), ok tt)
  insert_many table_name (((key, value), packed_data) ∷ records) active cache =
      elim (MemTable.insert active key packed_data) [
        | raise e ↦ ((active, cache), raise router_error)
        | ok active' ↦ elim (Cache.put cache (table_name, key) value) [
          | raise e ↦ ((active', cache), raise router_error)
          | ok cache' ↦ insert_many table_name records active' cache'
        ]
      ]

  pub store_many : Str → List ((Str × V) × Bytes) → Exec (Router V) (Unit {0})
  unfolding insert_many trigger_flush
  store_many table_name packed_records r =
      let payload_list = map (λ p. p.1) packed_records in
      let (wal, tx_ids) = append_many_to_buffer r.wal payload_list in
      let r0 : Router V = record r { wal = wal } in
      after (get_table_state table_name r0) (λ table r1.
        let (kept, done) = insert_many table_name packed_records table.active_memtable r1.cache in
        let (active, cache) = kept in
        elim done [
          | raise e ↦ (
            put_table table_name (record table { active_memtable = active })
                (record r1 { cache = cache }),
            raise e,
          )
          | ok u ↦
              let table' : TableState V = record table {
                active_memtable = active;
                active_tx_ids = table.active_tx_ids ++ tx_ids;
              } in
              trigger_flush table_name (leb r1.max_memtable_size active.size)
                (put_table table_name table' (record r1 { cache = cache }))
        ])

module _ {V : Type 0} ⦃json : Json V⦄ where
  pub set_many_internal : Str → List (Str × V) → Exec (Router V) (Unit {0})
  unfolding pack_many store_many
  set_many_internal table_name records r =
      after (r, pack_many records) (λ packed_records. store_many table_name packed_records)

  pub set_many : Str → List (Str × V) → Exec (Router V) (Unit {0})
  unfolding set_many_internal
  set_many table_name [] r = (r, raise value_error)
  set_many table_name (record' ∷ records) r =
      after (r, raise_if (is_empty table_name) value_error)
        (λ u. set_many_internal table_name (record' ∷ records))
