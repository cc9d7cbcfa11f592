-- ===== src/Router/Flush/Refines.antt =====
-- A flush moves the records of the immutable table to the pages, and the table stands for the same map
-- as before.
use cachy_db.Base.{
  ◌+◌, ◌≤◌, ◌<◌, ◌≡◌, refl, sym, ap, subst, ◌∙◌, Bool-cases, true, false, inl, inr, Option, none,
  some, List, ok, All, ◌==◌, Str, str_order, arith,
}
use cachy_db.Base.Dict
use cachy_db.Base.Dict.{str_eq, get-put, beq_refl}
use cachy_db.Bytes.{Bytes}
use cachy_db.Json.{Json}
use cachy_db.BTree.Sorted.{lookup}
use cachy_db.BTree.MemTable.{MemTable, in_order_traversal}
use cachy_db.BTree.MemTable.Valid.{view}
use cachy_db.BTree.MemTable.Ops.{in_order_traversal-IsSorted}
use cachy_db.Table.View.{require_open_lem}
use cachy_db.Wal.Disk.{mark_many_jobs_complete, or_nil}
use cachy_db.Router.Packing.{unpack_record}
use cachy_db.Router.Disk.{ok_or_none}
use cachy_db.Router.State.{TableState, Router}
use cachy_db.Router.State.Tables.{get_table_state_there}
use cachy_db.Router.View.{Represents, Waits, table_view, present, over, All-of_lookup, view_or_none}
use cachy_db.Router.Disk.Sound.{page_count}
use cachy_db.Router.Flush.{
  Flushing, flush_memtable_to_disk, flush_unless_empty, flush_immutable, flush_table, finish_flush,
  flush_pages, ended, update_index, update_all, pop_all,
}
use cachy_db.Router.Flush.Running.{written}
use cachy_db.Router.Flush.Loop.{Fits, value_or_none, effect_of}
use cachy_db.Router.Flush.Index.{flush_pages-Holds, after_records, merge}

module _ {V : Type 0} ⦃json : Json V⦄ where
  -- The table after a flush.
  abbrev pub flushed : TableState V → Flushing (Option (Str × V)) → TableState V
  flushed t s = record t {
    handler = s.handler;
    disk_index = update_all s.pending_updates (pop_all s.pending_deletions t.disk_index);
    immutable_memtable = none;
    immutable_tx_ids = none;
  }

  -- The router after a flush that wrote `s`.
  abbrev pub flushed_router : Router V → Str → TableState V → Flushing (Option (Str × V)) → Router V
  flushed_router r name t s = record r {
    flushes_begun = r.flushes_begun + 1;
    flushes_ended = r.flushes_ended + 1;
    tables = Dict.put name (flushed t s) (
        Dict.put name (update_index (record t { handler = s.handler }) s)
          (Dict.put name (record t { handler = s.handler }) r.tables));
    wal = mark_many_jobs_complete r.wal (or_nil t.immutable_tx_ids);
  }

  flush_immutable_lem :
      (r : Router V) (name : Str) (t : TableState V) (m : MemTable Bytes)
      (records : List (Str × Bytes)) (s : Flushing (Option (Str × V)))
      → (m.size == 0) ≡ false
      → in_order_traversal m ≡ ok records
      → flush_pages records t.handler ≡ (s.handler, ok s)
      → s.handler.is_open ≡ true
      → ended (flush_immutable name t (some m) r) ≡ (flushed_router r name t s, ok tt)
  unfolding flush_immutable flush_table finish_flush
  flush_immutable_lem r name t m records s size order pages is_open =
      rw
        (
          flush_immutable,
          size,
          flush_table,
          order,
          pages,
          finish_flush,
          require_open_lem s.handler is_open,
        )
        refl

  flush_table_lem :
      (r : Router V) (name : Str) (t : TableState V)
      → Dict.get name r.tables ≡ some t
      → flush_memtable_to_disk name r ≡ ended (flush_immutable name t t.immutable_memtable r)
  unfolding flush_memtable_to_disk flush_unless_empty
  flush_table_lem r name t o =
      rw (flush_memtable_to_disk, get_table_state_there r name t o, flush_unless_empty) refl

  -- A flush of a table without an immutable one does nothing, but it is counted as ended.
  pub flush_memtable_to_disk-none :
      (r : Router V) (name : Str) (t : TableState V)
      → Dict.get name r.tables ≡ some t
      → t.immutable_memtable ≡ none
      → flush_memtable_to_disk name r ≡ (record r { flushes_ended = r.flushes_ended + 1 }, ok tt)
  unfolding flush_immutable
  flush_memtable_to_disk-none r name t o im =
      flush_table_lem r name t o ∙ ap (λ i. ended (flush_immutable name t i r)) im

  -- The table that a flush leaves in the router.
  pub flushed_there :
      (r : Router V) (name : Str) (t : TableState V) (s : Flushing (Option (Str × V)))
      → Dict.get name (flushed_router r name t s).tables ≡ some (flushed t s)
  flushed_there r name t s =
      get-put name name (flushed t s) (
        Dict.put name (update_index (record t { handler = s.handler }) s)
          (Dict.put name (record t { handler = s.handler }) r.tables))
      ∙ rw (beq_refl name) refl

  -- The records of the immutable table lie over the old map: after them it is the same.
  after_records-over :
      (d : Str → Option V) (o : Option Bytes) (key : Str)
      → present (merge (d key) (effect_of none o)) ≡ over o (present (d key))
  after_records-over d none key = refl
  after_records-over d (some payload) key = present_flushed (ok_or_none (unpack_record payload))
    where
      present_written : (value : V) → present (written value) ≡ written value
      present_written value = elim (Bool-cases (json.is_null value)) [
        | inl e ↦ rw e refl
        | inr e ↦ rw (e, e) refl
      ]

      present_flushed : (o : Option (Str × V)) → present (value_or_none o) ≡ value_or_none o
      present_flushed none = refl
      present_flushed (some (k, value)) = present_written value

  -- A flush of the immutable table of an open table, which has a record, where the table is in a
  -- consistent state: valid trees, valid pages with the file and the index in step, and as records in
  -- memory only packed keys and values of at most 4072 bytes each. The file has fewer than 2^32 pages
  -- with one more for each record. The flush succeeds, the immutable table is gone, the table
  -- stands for the same map as before, with its pages on file, the flush is counted as begun and ended,
  -- and the log has the marks.
  pub flush_memtable_to_disk-Represents :
      (r : Router V) (name : Str) (t : TableState V) (d : Str → Option V) (m : MemTable Bytes)
      → Dict.get name r.tables ≡ some t
      → Represents t d
      → t.immutable_memtable ≡ some m
      → page_count t.handler + m.size + 1 < 4294967296
      → (s : Flushing (Option (Str × V))) × (d' : Str → Option V) × (flush_memtable_to_disk name r
          ≡ (flushed_router r name t s, ok tt))
        × Represents (flushed t s) d'
        × ((key : Str) → table_view (flushed t s) d' key ≡ table_view t d key)
        × (page_count s.handler ≤ page_count t.handler + m.size + 1)
  flush_memtable_to_disk-Represents r name t d m o rep im few =
      let w : Waits V (some m) t.flush_pending =
        subst (λ o. Waits V o t.flush_pending) im rep.immutable in
      let (packs, pos, pending) = w in
      let (records, order, sorted, len, look) = in_order_traversal-IsSorted m packs.valid in
      let fits : All (Fits V) records =
        All-of_lookup (Fits V) records sorted
          λ key payload f. packs.packed key payload (sym (look key) ∙ f) in
      let (s, done, snd, sync, holds, grown) =
        flush_pages-Holds t.handler records t.disk_index d rep.sound rep.synced
          (omega (arith, few, len)) sorted fits rep.holds in
      (
        s,
        after_records d records,
        flush_table_lem r name t o
            ∙ (ap (λ i. ended (flush_immutable name t i r)) im
                ∙ flush_immutable_lem r name t m records s (ground (arith, pos)) order done
                    snd.opened),
        record { active = rep.active; immutable = tt; sound = snd; synced = sync; holds = holds },
        λ key.
            let under : present (after_records d records key)
                ≡ over (view_or_none t.immutable_memtable key) (present (d key)) =
              after_records-over d (lookup key records) key
              ∙ ap (λ i. over i (present (d key)))
                  (look key ∙ sym (ap (λ i. view_or_none i key) im)) in
            ap (over (view t.active_memtable key)) under,
        omega (arith, grown, len),
      )
