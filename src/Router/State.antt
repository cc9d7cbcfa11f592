-- ===== src/Router/State.antt =====
-- The state of the router and its first operations: `__init__`, `_get_table_state` and
-- `_init_disk_index`.
pub mod Tables
pub mod Fresh
use cachy_db.Base.{
  ℕ, zero, suc, ◌+◌, Bool, true, false, Option, none, some, List, [], ◌∷◌, Result, ok, raise, ◌>>=◌,
  ◌>>◌, raise_if, value_error, key_error, ltb, leb, if◌then◌else◌, length, drop, Str,
}
use cachy_db.Base.Exec.{Exec, after, catch, unchanged}
use cachy_db.Base.Dict
use cachy_db.Base.Dict.{str_eq, mem, append_key}
use cachy_db.Bytes.{Bytes, read, from_big}
use cachy_db.Utf8
use cachy_db.BTree.MemTable
use cachy_db.BTree.MemTable.{MemTable}
use cachy_db.Cache
use cachy_db.Cache.{Cache}
use cachy_db.Pager.{Pager, get_record}
use cachy_db.Table
use cachy_db.Table.{TableHandler, total_pages, read_page}
use cachy_db.Wal.{Wal}
use cachy_db.Router.Packing.{is_deletion}

-- What the router keeps for one table: the entries of its dictionaries. `flush_pending` says that
-- the future of the table's flush is not done.
pub record TableState (V : Type 0) : Type 0 where
  pub active_memtable : MemTable Bytes
  pub immutable_memtable : Option (MemTable Bytes)
  pub active_tx_ids : List ℕ
  pub immutable_tx_ids : Option (List ℕ)
  pub handler : TableHandler (Option (Str × V))
  pub disk_index : List (Str × (ℕ × ℕ))
  pub flush_pending : Bool

-- `wal.active_flushes` is `flushes_begun - flushes_ended`. `stored` has the files of the tables that
-- are not opened yet; a name without a file is an empty file. `half_opened` has the names in
-- `active_memtables` whose table could not be opened, so that the other dictionaries lack them.
pub record Router (V : Type 0) : Type 0 where
  pub wal : Wal
  pub flushes_begun : ℕ
  pub flushes_ended : ℕ
  pub tables : List (Str × TableState V)
  pub half_opened : List Str
  pub stored : Str → Bytes
  pub cache : Cache (Str × Str) V
  pub max_memtable_size : ℕ

-- The degree of `BTreeMemTable()`
abbrev pub default_t : ℕ
default_t = 10

-- The payload of one slot in the loop of `_init_disk_index`; what raises leaves the index as it is.
pub index_payload : ℕ → ℕ → Bytes → List (Str × (ℕ × ℕ)) → List (Str × (ℕ × ℕ))
index_payload page_id slot_id payload index =
    let k_len = from_big (read 0 2 payload) in
    if ltb (length payload) 2 then index else elim (Utf8.decode (read 2 k_len payload)) [
      | raise e ↦ index
      | ok k ↦
          if is_deletion k_len payload
          then Dict.remove k index
          else Dict.put k (page_id, slot_id) index
    ]

pub index_slot : ℕ → ℕ → Option Bytes → List (Str × (ℕ × ℕ)) → List (Str × (ℕ × ℕ))
unfolding index_payload
index_slot page_id slot_id none index = index
index_slot page_id slot_id (some payload) index = index_payload page_id slot_id payload index

module _ {M : Type 0} where
  -- The loop over the slots of a page from `slot_id`, `n` of them.
  pub index_slots : Pager M → ℕ → ℕ → ℕ → List (Str × (ℕ × ℕ)) → Result (List (Str × (ℕ × ℕ)))
  unfolding index_slot
  index_slots page page_id slot_id zero index = ok index
  index_slots page page_id slot_id (suc n) index = do
    payload ← get_record page slot_id
    index_slots page page_id (slot_id + 1) n (index_slot page_id slot_id payload index)

  -- The loop over the pages from `page_id`, `n` of them. A page that cannot be read is passed over.
  pub index_pages : ℕ → ℕ → List (Str × (ℕ × ℕ)) → Exec (TableHandler M) (List (Str × (ℕ × ℕ)))
  unfolding index_slots
  index_pages page_id zero index h = (h, ok index)
  index_pages page_id (suc n) index h =
      catch (unchanged h (read_page h page_id))
        (λ page h'.
          after (h', index_slots page page_id 0 (length page.slots) index)
            (λ index'. index_pages (page_id + 1) n index'))
        (λ h'. index_pages (page_id + 1) n index h')

  pub init_disk_index : Exec (TableHandler M) (List (Str × (ℕ × ℕ)))
  unfolding index_pages
  init_disk_index h = after (h, total_pages h) (λ n. index_pages 0 n [])

module _ {V : Type 0} where
  -- `Router(wal, max_memtable_size, cache_capacity)`
  pub init : Wal → (Str → Bytes) → ℕ → ℕ → Result (Router V)
  init wal stored max_memtable_size cache_capacity = do
    raise_if (ltb max_memtable_size 1) value_error
    raise_if (ltb cache_capacity 1) value_error
    ok (record {
      wal = wal;
      flushes_begun = 0;
      flushes_ended = 0;
      tables = [];
      half_opened = [];
      stored = stored;
      cache = Cache.init cache_capacity;
      max_memtable_size = max_memtable_size;
    })

  -- The state of a table that is opened.
  pub open_table : Str → Bytes → Result (TableState V)
  unfolding init_disk_index
  open_table table_name file = do
    active_memtable ← MemTable.init default_t
    handler ← Table.init {M = Option (Str × V)} table_name file
    let indexed = init_disk_index handler
    disk_index ← indexed.1
    ok (record {
      active_memtable = active_memtable;
      immutable_memtable = none;
      active_tx_ids = [];
      immutable_tx_ids = none;
      handler = indexed.0;
      disk_index = disk_index;
      flush_pending = false;
    })

  -- The names whose table could not be opened.
  abbrev pub mark_half_opened : Str → Router V → Router V
  mark_half_opened table_name r = record r { half_opened = append_key table_name r.half_opened }

  -- `_get_table_state`: the table, which is opened if the router has not got it yet. A name whose table
  -- could not be opened is a KeyError from then on.
  pub get_table_state : Str → Exec (Router V) (TableState V)
  unfolding open_table
  get_table_state table_name r = elim (Dict.get table_name r.tables) [
    | some table ↦ (r, ok table)
    | none ↦ elim (mem table_name r.half_opened) [
      | true ↦ (r, raise key_error)
      | false ↦ elim (open_table table_name (r.stored table_name)) [
        | raise e ↦ (mark_half_opened table_name r, raise e)
        | ok table ↦ (record r { tables = Dict.put table_name table r.tables }, ok table)
      ]
    ]
  ]

  abbrev pub put_table : Str → TableState V → Router V → Router V
  put_table table_name table r = record r { tables = Dict.put table_name table r.tables }
