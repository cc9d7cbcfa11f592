-- ===== src/Database/Replay.antt =====
-- The replay of the log's records into a table.
use cachy_db.Base.{
  ℕ, ◌+◌, ◌≤◌, ◌≡◌, refl, sym, ap, ◌∙◌, false, Option, none, some, List, [], ◌∷◌, ok, raise, length,
  Str, eq_str, if◌then◌else◌, arith,
}
use cachy_db.Base.Dict
use cachy_db.Base.Dict.{str_eq, pair_eq}
use cachy_db.Bytes.{Bytes}
use cachy_db.Json.{Json}
use cachy_db.BTree.MemTable
use cachy_db.BTree.MemTable.{MemTable, is_empty}
use cachy_db.Wal.{Wal}
use cachy_db.Wal.Ids.{validate_tx_id-ok, get_file_path-get_slot_index}
use cachy_db.Wal.Disk.{mark_job_complete}
use cachy_db.Router.Packing.{pack_record}
use cachy_db.Router.Packing.RoundTrip.{unpack_record-pack_record}
use cachy_db.Router.State.{TableState, Router, put_table}
use cachy_db.Router.State.Tables.{get_table_state_there, get-put_table}
use cachy_db.Router.View.{IsCoherent, table_view, present}
use cachy_db.Router.Flush.Running.{written}
use cachy_db.Router.Write.Refines.{inserted-Represents}
use cachy_db.Router.Read.{get_internal}
use cachy_db.Router.Read.Refines.{get_internal-table_view}
use cachy_db.Database.{
  recovered_table, insert_recovered, mark_recovered, recover_record, recover_records,
}

length_cons : {A : Type 0} (x : A) (xs : List A) → length (x ∷ xs) ≡ length xs + 1
length_cons x xs = omega arith

mark_job_complete_lem :
    (w : Wal) (tx_id file_id : ℕ)
    → tx_id ≤ 9223372036854775807
    → (w' : Wal) × (mark_job_complete w tx_id file_id ≡ ok w')
unfolding mark_job_complete
mark_job_complete_lem w tx_id file_id h =
    rw (mark_job_complete, validate_tx_id-ok tx_id h) (_, refl)

module _ {V : Type 0} ⦃json : Json V⦄ where
  -- The record of a key and a value, written to the table with a valid transaction id.
  pub record Logged (name : Str) (tx_id : ℕ) (payload : Bytes) (key : Str) (value : V)
      : Type 0 where
    pub to_table : recovered_table key ≡ name
    pub full : is_empty key ≡ false
    pub packed : pack_record key value ≡ ok payload
    pub fits : length payload ≤ 4072
    pub valid : tx_id ≤ 9223372036854775807

  -- The records of a log are those of these keys and values, in order.
  abbrev pub IsLog : Str → List (ℕ × Bytes) → List (Str × V) → Type 0
  IsLog name [] [] = Unit
  IsLog name [] (e ∷ entries) = ⊥
  IsLog name (r ∷ records) [] = ⊥
  IsLog name ((tx_id, payload) ∷ records) ((key, value) ∷ entries) =
      Logged name tx_id payload key value × IsLog name records entries

  -- A map with the entries written to it, the first one first.
  abbrev pub write_all : List (Str × V) → (Str → Option V) → Str → Option V
  write_all [] f = f
  write_all ((key, value) ∷ entries) f =
      write_all entries (λ j. if eq_str j key then written value else f j)

  write_all_ext :
      (entries : List (Str × V)) (f g : Str → Option V)
      → ((j : Str) → f j ≡ g j)
      → (j : Str) → write_all entries f j ≡ write_all entries g j
  write_all_ext [] f g h j = h j
  write_all_ext ((key, value) ∷ entries) f g h j =
      write_all_ext entries (λ i. if eq_str i key then written value else f i)
        (λ i. if eq_str i key then written value else g i) (λ i. rw (h i) refl) j

  -- The cache has nothing of the table.
  abbrev pub Uncached : Router V → Str → Type 0
  Uncached r name = (key : Str) → Dict.get (name, key) r.cache.cache ≡ none

  mark_recovered_lem :
      (r : Router V) (tx_id : ℕ)
      → tx_id ≤ 9223372036854775807
      → (wal : Wal) × (mark_recovered tx_id r ≡ (record r { wal = wal }, ok tt))
  unfolding mark_recovered
  mark_recovered_lem r tx_id h =
      let (file_id, slot_index, path, slot, inside, back) = get_file_path-get_slot_index tx_id h in
      let (w, done) = mark_job_complete_lem r.wal tx_id file_id h in
      (w, rw (mark_recovered, path, done) refl)

  recover_record_lem :
      (r r1 r2 : Router V) (name key : Str) (value : V) (tx_id : ℕ) (payload : Bytes)
      (t : TableState V)
      → Logged name tx_id payload key value
      → Dict.get name r.tables ≡ some t
      → insert_recovered name key payload t r ≡ (r1, ok tt)
      → mark_recovered tx_id r1 ≡ (r2, ok tt)
      → recover_record tx_id payload r ≡ (r2, ok tt)
  unfolding recover_record
  recover_record_lem r r1 r2 name key value tx_id payload t l o i m =
      rw
        (
          recover_record,
          unpack_record-pack_record key value payload l.packed,
          l.to_table,
          get_table_state_there r name t o,
          i,
          m,
        )
        refl

  insert_recovered_lem :
      (r : Router V) (name key : Str) (payload : Bytes) (t : TableState V) (m : MemTable Bytes)
      → MemTable.insert t.active_memtable key payload ≡ ok m
      → insert_recovered name key payload t r
        ≡ (put_table name (record t { active_memtable = m }) r, ok tt)
  unfolding insert_recovered
  insert_recovered_lem r name key payload t m h = rw (insert_recovered, h) refl

  recover_record-IsCoherent :
      (r : Router V) (name key : Str) (value : V) (tx_id : ℕ) (payload : Bytes) (t : TableState V)
      (d : Str → Option V)
      → IsCoherent r name t d
      → Uncached r name
      → Logged name tx_id payload key value
      → (r' : Router V) × (t' : TableState V) × (recover_record tx_id payload r ≡ (r', ok tt))
        × IsCoherent r' name t' d
        × Uncached r' name
        × ((j : Str)
            → table_view t' d j ≡ (if eq_str j key then written value else table_view t d j))
  recover_record-IsCoherent r name key value tx_id payload t d c u l =
      let (m, done, rep, look) =
        inserted-Represents t d key value payload tx_id c.table l.full l.packed l.fits in
      let t1 : TableState V = record t { active_memtable = m } in
      let r1 : Router V = put_table name t1 r in
      let (wal, marked) = mark_recovered_lem r1 tx_id l.valid in
      let r2 : Router V = record r1 { wal = wal } in
      (
        r2,
        t1,
        recover_record_lem r r1 r2 name key value tx_id payload t l c.opened
            (insert_recovered_lem r name key payload t m done) marked,
        record {
          opened = get-put_table r name t1;
          table = record {
            active = rep.active;
            immutable = rep.immutable;
            sound = rep.sound;
            synced = rep.synced;
            holds = rep.holds;
          };
          positive = c.positive;
          cache = c.cache;
          agrees = λ k v g n. absurd (cc (g, u k));
        },
        u,
        look,
      )

  recover_records_lem :
      (r r1 r2 : Router V) (tx_id : ℕ) (payload : Bytes) (records : List (ℕ × Bytes)) (count : ℕ)
      → recover_record tx_id payload r ≡ (r1, ok tt)
      → recover_records records r1 ≡ (r2, count)
      → recover_records ((tx_id, payload) ∷ records) r ≡ (r2, count + 1)
  unfolding recover_records
  recover_records_lem r r1 r2 tx_id payload records count h g =
      ap
        (λ p.
          let (r'', n) = recover_records records p.0 in
          (r'', elim p.1 [ ok u ↦ n + 1 | raise e ↦ n ]))
        h
      ∙ ap (λ p. (p.0, p.1 + 1)) g

  recover_records-IsCoherent :
      (records : List (ℕ × Bytes)) (entries : List (Str × V)) (r : Router V) (name : Str)
      (t : TableState V) (d : Str → Option V)
      → IsCoherent r name t d
      → Uncached r name
      → IsLog name records entries
      → (r' : Router V) × (t' : TableState V) × (recover_records records r ≡ (r', length records))
        × IsCoherent r' name t' d
        × ((j : Str) → table_view t' d j ≡ write_all entries (table_view t d) j)
  unfolding recover_records
  recover_records-IsCoherent [] [] r name t d c u l = (r, t, refl, c, λ j. refl)
  recover_records-IsCoherent [] (e ∷ entries) r name t d c u l = absurd l
  recover_records-IsCoherent (p ∷ records) [] r name t d c u l = absurd l
  recover_records-IsCoherent ((tx_id, payload) ∷ records) ((key, value) ∷ entries) r name t d c u
        l =
      let (r1, t1, first, c1, u1, look) =
        recover_record-IsCoherent r name key value tx_id payload t d c u l.0 in
      let (r2, t2, rest, c2, all) =
        recover_records-IsCoherent records entries r1 name t1 d c1 u1 l.1 in
      (
        r2,
        t2,
        recover_records_lem r r1 r2 tx_id payload records (length records) first rest
            ∙ ap (λ n. (r2, n)) (sym (length_cons (tx_id, payload) records)),
        c2,
        λ j.
            all j
            ∙ write_all_ext entries (table_view t1 d)
                (λ i. if eq_str i key then written value else table_view t d i) look j,
      )

  -- Replay records of the log, each with a valid transaction id, which are the packed records, of at
  -- most 4072 bytes, of keys and values that belong to one table, opened and in a consistent state, of
  -- which nothing is cached. Then every record counts as recovered, and a lookup of any key finds what
  -- it would find if the values had been written to the table in the order of the records.
  pub get_internal-recover_records :
      (r : Router V) (name : Str) (t : TableState V) (d : Str → Option V)
      (records : List (ℕ × Bytes)) (entries : List (Str × V)) (key : Str)
      → IsCoherent r name t d
      → Uncached r name
      → IsLog name records entries
      → is_empty name ≡ false
      → is_empty key ≡ false
      → (r1 : Router V) × (r2 : Router V) × (found : Option V) × (recover_records records r
          ≡ (r1, length records))
        × (get_internal name key r1 ≡ (r2, ok found))
        × (present found ≡ write_all entries (table_view t d) key)
  get_internal-recover_records r name t d records entries key c u l n1 n2 =
      let (r1, t1, done, c1, look) = recover_records-IsCoherent records entries r name t d c u l in
      let (r2, t2, found, got, right, c2, same) =
        get_internal-table_view r1 name key t1 d c1 n1 n2 in
      (r1, r2, found, done, got, right ∙ look key)
