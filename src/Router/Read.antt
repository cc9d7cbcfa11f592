-- ===== src/Router/Read.antt =====
-- `_get_internal` and `_get_raw_manifest`: a key is looked up in the cache, in the active table, in the
-- immutable table and on disk.
pub mod Refines
pub mod Raw
use cachy_db.Base.{
  ℕ, Bool, true, false, ◌||◌, Option, none, some, List, [], ◌∷◌, Result, ok, raise, ◌>>=◌, ◌>>◌,
  raise_if, value_error, if◌then◌else◌, Str,
}
use cachy_db.Base.Exec.{Exec, after}
use cachy_db.Base.Dict.{pair_eq}
use cachy_db.Bytes.{Bytes}
use cachy_db.Json.{Json}
use cachy_db.BTree.MemTable
use cachy_db.BTree.MemTable.{MemTable, is_empty}
use cachy_db.Cache
use cachy_db.Router.Packing.{unpack_record}
use cachy_db.Router.State.{TableState, Router, get_table_state, put_table}
use cachy_db.Router.Disk.{read_from_disk, ok_or_none}
use cachy_db.Router.Flush.{on_table}
use cachy_db.Router.Write.{cache_put}

-- `memtable.search(key)` if the table contains the key
pub find_packed : Str → MemTable Bytes → Result (Option Bytes)
find_packed key m = do
  found ← MemTable.contains m key
  if found then MemTable.search m key else ok none

-- The record in the immutable table, if there is one.
pub find_immutable : Str → Option (MemTable Bytes) → Result (Option Bytes)
unfolding find_packed
find_immutable key none = ok none
find_immutable key (some m) = find_packed key m

-- The record in the active table, or else in the immutable one.
pub find_in_memory : Str → MemTable Bytes → Option (MemTable Bytes) → Result (Option Bytes)
unfolding find_packed find_immutable
find_in_memory key active immutable = do
  found ← find_packed key active
  elim found [ some packed ↦ ok (some packed) | none ↦ find_immutable key immutable ]

module _ {V : Type 0} ⦃json : Json V⦄ where
  pub unpack_value : Bytes → Result V
  unpack_value packed = do record' ← unpack_record packed; ok record'.1

  -- `cached_value is not None`
  abbrev pub cache_hit : Option V → Bool
  cache_hit none = false
  cache_hit (some value) = if json.is_null value then false else true

  -- `if val is not None: self.cache.put(...)`, and the value.
  pub cache_unless_null : Str → Str → V → Exec (Router V) (Option V)
  cache_unless_null table_name key value r =
      if json.is_null value
      then (r, ok (some value))
      else after (cache_put table_name key value r) (λ u r'. (r', ok (some value)))

  -- The table is looked up on disk; a value that is not `None` is cached.
  pub get_from_disk : Str → Str → TableState V → Exec (Router V) (Option V)
  unfolding cache_unless_null
  get_from_disk table_name key table r =
      after (on_table table_name table r (read_from_disk key table.disk_index table.handler))
        (λ found r'. elim found [
          | none ↦ (r', ok none)
          | some value ↦ cache_unless_null table_name key value r'
        ])

  -- The part of `_get_internal` after a miss of the cache.
  pub get_from_table : Str → Str → TableState V → Exec (Router V) (Option V)
  unfolding find_packed find_immutable unpack_value get_from_disk cache_unless_null
  get_from_table table_name key table r =
      after (r, find_packed key table.active_memtable)
        (λ active r1. elim active [
          | some packed ↦
              after (r1, unpack_value packed)
                (λ value r2.
                  after (cache_put table_name key value r2) (λ u r3. (r3, ok (some value))))
          | none ↦
              after (r1, find_immutable key table.immutable_memtable)
                (λ immutable r2. elim immutable [
                  | some packed ↦
                      after (r2, unpack_value packed)
                        (λ value. cache_unless_null table_name key value)
                  | none ↦ get_from_disk table_name key table r2
                ])
        ])

  -- `self.cache.get((table_name, key))`
  pub cache_get : Str → Str → Exec (Router V) (Option V)
  cache_get table_name key r = elim (Cache.get r.cache (table_name, key)) [
    | raise e ↦ (r, raise e)
    | ok (cache, cached_value) ↦ (record r { cache = cache }, ok cached_value)
  ]

  pub get_unless_cached : Str → Str → Option V → Exec (Router V) (Option V)
  unfolding get_from_table
  get_unless_cached table_name key cached_value r = elim (cache_hit cached_value) [
    | true ↦ (r, ok cached_value)
    | false ↦ after (get_table_state table_name r) (get_from_table table_name key)
  ]

  -- `none` stands for `None`, and so does `some null`.
  pub get_internal : Str → Str → Exec (Router V) (Option V)
  unfolding cache_get get_unless_cached
  get_internal table_name key r =
      after (r, raise_if (is_empty table_name || is_empty key) value_error)
        (λ u r0. after (cache_get table_name key r0) (get_unless_cached table_name key))

  pub get_raw_manifest : Str → Str → Exec (Router V) (Option V)
  unfolding find_in_memory unpack_value
  get_raw_manifest table_name key r = after (get_table_state table_name r) (λ table r1.
      after (r1, find_in_memory key table.active_memtable table.immutable_memtable)
        (λ found r2. elim found [
          | some packed ↦ (r2, ok (ok_or_none (unpack_value packed)))
          | none ↦ on_table table_name table r2 (read_from_disk key table.disk_index table.handler)
        ]))
