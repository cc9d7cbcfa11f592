-- ===== src/Router/Flush.antt =====
-- `flush_memtable_to_disk`: the records of the immutable table go to the pages of the table's file.
pub mod Pages
pub mod Room
pub mod Running
pub mod Loop
pub mod Index
pub mod Refines
use cachy_db.Base.{
  ℕ, zero, suc, ◌+◌, ◌-◌, Bool, true, false, not, Option, none, some, List, [], ◌∷◌, ◌++◌, Result,
  ok, raise, ◌==◌, if◌then◌else◌, length, Str,
}
use cachy_db.Base.Exec.{Exec, after, unchanged}
use cachy_db.Base.Dict
use cachy_db.Base.Dict.{str_eq}
use cachy_db.Bytes.{Bytes}
use cachy_db.Utf8
use cachy_db.BTree.MemTable.{MemTable, in_order_traversal}
use cachy_db.Pager.{Pager, has_space_for, insert_record}
use cachy_db.Table.{TableHandler, total_pages, read_page, write_page, allocate_page, require_open}
use cachy_db.Wal.{Wal}
use cachy_db.Wal.Disk.{mark_many_jobs_complete, or_nil}
use cachy_db.Router.Packing.{is_deletion}
use cachy_db.Router.State.{TableState, Router, get_table_state, put_table}
use cachy_db.Router.Disk.{keep_page}

-- The variables of the loop over the records.
pub record Flushing (M : Type 0) : Type 0 where
  pub handler : TableHandler M
  pub current_page_id : ℕ
  pub page : Pager M
  pub page_dirty : Bool
  pub pending_updates : List (Str × (ℕ × ℕ))
  pub pending_deletions : List Str

module _ {M : Type 0} where
  -- A method of the handler
  abbrev pub on_handler :
      {A : Type 0} → Flushing M → TableHandler M × Result A → Flushing M × Result A
  on_handler s (h, r) = (record s { handler = h }, r)

  -- `if page_dirty: handler.write_page(page)`
  pub write_if : Bool → Exec (Flushing M) (Unit {0})
  write_if false s = (s, ok tt)
  write_if true s = on_handler s (write_page s.handler s.page)

  pub write_dirty : Exec (Flushing M) (Unit {0})
  unfolding write_if
  write_dirty s = write_if s.page_dirty s

  -- A new page is the current one.
  pub take_page : Exec (Flushing M) (Unit {0})
  take_page s = after (on_handler s (allocate_page s.handler)) (λ page_id s1.
      after
        (on_handler (record s1 { current_page_id = page_id })
          (unchanged s1.handler (read_page s1.handler page_id)))
        (λ page s2. (record s2 { page = page; page_dirty = false }, ok tt)))

  pub next_page : Exec (Flushing M) (Unit {0})
  unfolding write_dirty take_page
  next_page s = after (write_dirty s) (λ u. take_page)

  pub ensure_space : ℕ → Exec (Flushing M) (Unit {0})
  unfolding next_page
  ensure_space record_size s = elim (has_space_for s.page record_size) [
    | true ↦ (s, ok tt)
    | false ↦ next_page s
  ]

  -- The bookkeeping of a record that the page took into a slot.
  pub note_record : Str → Bytes → ℕ → Exec (Flushing M) (Unit {0})
  note_record rec_key packed_record slot_id s =
      after (s, Utf8.encode rec_key)
        (λ key_bytes s'. (
          if is_deletion (length key_bytes) packed_record
              then record s' {
                page_dirty = true;
                pending_deletions = s'.pending_deletions ++ rec_key ∷ [];
              }
              else record s' {
                page_dirty = true;
                pending_updates = Dict.put rec_key (s'.current_page_id, slot_id) s'.pending_updates;
              },
          ok tt,
        ))

  -- `page.insert_record(packed_record)`: the page that the handler keeps is the same object.
  pub insert_packed : Bytes → Exec (Flushing M) ℕ
  insert_packed packed_record s = elim (insert_record s.page packed_record) [
    | raise e ↦ (s, raise e)
    | ok (page, slot_id) ↦
        (record s { page = page; handler = keep_page s.current_page_id page s.handler }, ok slot_id)
  ]

  -- One turn of the loop, and the loop.
  pub flush_record : Str → Bytes → Exec (Flushing M) (Unit {0})
  unfolding ensure_space note_record insert_packed
  flush_record rec_key packed_record s = after (ensure_space (length packed_record) s) (λ u s1.
      after (insert_packed packed_record s1) (λ slot_id. note_record rec_key packed_record slot_id))

  pub flush_records : List (Str × Bytes) → Exec (Flushing M) (Unit {0})
  unfolding flush_record
  flush_records [] s = (s, ok tt)
  flush_records ((rec_key, packed_record) ∷ records) s =
      after (flush_record rec_key packed_record s) (λ u. flush_records records)

  -- `handler.allocate_page() if handler.total_pages == 0 else handler.total_pages - 1`
  pub last_or_new : ℕ → Exec (TableHandler M) ℕ
  last_or_new zero h = allocate_page h
  last_or_new (suc n) h = (h, ok n)

  pub last_page : Exec (TableHandler M) ℕ
  unfolding last_or_new
  last_page h = after (h, total_pages h) last_or_new

  -- The local variables before the loop
  pub begin_flush : Exec (TableHandler M) (Flushing M)
  unfolding last_page
  begin_flush h = after (last_page h) (λ page_id h1.
      after (unchanged h1 (read_page h1 page_id)) (λ page h2. (
        h2,
        ok (record {
          handler = h2;
          current_page_id = page_id;
          page = page;
          page_dirty = false;
          pending_updates = [];
          pending_deletions = [];
        }),
      )))

  abbrev pub whole : Flushing M × Result (Unit {0}) → TableHandler M × Result (Flushing M)
  whole (s, ok u) = (s.handler, ok s)
  whole (s, raise e) = (s.handler, raise e)

  -- From the first page to the last write.
  pub flush_pages : List (Str × Bytes) → Exec (TableHandler M) (Flushing M)
  unfolding begin_flush flush_records write_dirty
  flush_pages records h =
      after (begin_flush h) (λ s h'. whole (after (flush_records records s) (λ u. write_dirty)))

-- `for key in pending_deletions: disk_index.pop(key, None)`
pub pop_all : List Str → List (Str × (ℕ × ℕ)) → List (Str × (ℕ × ℕ))
pop_all [] index = index
pop_all (key ∷ keys) index = pop_all keys (Dict.remove key index)

-- `disk_index.update(pending_updates)`
pub update_all : List (Str × (ℕ × ℕ)) → List (Str × (ℕ × ℕ)) → List (Str × (ℕ × ℕ))
update_all [] index = index
update_all ((key, place) ∷ updates) index = update_all updates (Dict.put key place index)

module _ {V : Type 0} where
  abbrev pub update_index : TableState V → Flushing (Option (Str × V)) → TableState V
  update_index table s = record table {
    disk_index = update_all s.pending_updates (pop_all s.pending_deletions table.disk_index);
  }

  -- What follows the last write.
  pub finish_flush : Str → TableState V → Flushing (Option (Str × V)) → Exec (Router V) (Unit {0})
  unfolding pop_all update_all
  finish_flush table_name table s r =
      let table' = update_index table s in
      after (put_table table_name table' r, require_open table'.handler)
        (λ u r'. (
          put_table table_name
              (record table' { immutable_memtable = none; immutable_tx_ids = none })
              (record r' { wal = mark_many_jobs_complete r'.wal (or_nil table.immutable_tx_ids) }),
          ok tt,
        ))

  -- The handler of the table after a method, which may have raised.
  abbrev pub on_table :
      {A : Type 0}
      → Str
      → TableState V
      → Router V
      → TableHandler (Option (Str × V)) × Result A
      → Router V × Result A
  on_table table_name table r (h, a) = (put_table table_name (record table { handler = h }) r, a)

  pub flush_table : Str → TableState V → MemTable Bytes → Exec (Router V) (Unit {0})
  unfolding flush_pages finish_flush
  flush_table table_name table immutable_memtable r =
      after (r, in_order_traversal immutable_memtable)
        (λ records r1.
          let r2 : Router V = record r1 { flushes_begun = r1.flushes_begun + 1 } in
          after (on_table table_name table r2 (flush_pages records table.handler))
            (λ s. finish_flush table_name (record table { handler = s.handler }) s))

  pub flush_immutable : Str → TableState V → Option (MemTable Bytes) → Exec (Router V) (Unit {0})
  unfolding flush_table
  flush_immutable table_name table none r = (r, ok tt)
  flush_immutable table_name table (some m) r = elim (m.size == 0) [
    | true ↦ (r, ok tt)
    | false ↦ flush_table table_name table m r
  ]

  pub flush_unless_empty : Str → TableState V → Exec (Router V) (Unit {0})
  unfolding flush_immutable
  flush_unless_empty table_name table = flush_immutable table_name table table.immutable_memtable

  -- The `finally` clause
  abbrev pub ended : {A : Type 0} → Router V × Result A → Router V × Result A
  ended (r, a) = (record r { flushes_ended = r.flushes_ended + 1 }, a)

  pub flush_memtable_to_disk : Str → Exec (Router V) (Unit {0})
  unfolding flush_unless_empty
  flush_memtable_to_disk table_name r =
      after (get_table_state table_name r)
        (λ table r'. ended (flush_unless_empty table_name table r'))
