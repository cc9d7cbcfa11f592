-- ===== src/Router/Write/Refines.antt =====
-- `_set_internal` sets one key of the map that the table stands for, and nothing else.
use cachy_db.Base.{
  ℕ, arith, ◌+◌, ◌≤◌, ◌≡◌, refl, sym, subst, ◌∙◌, Bool-cases, false, inl, inr, Option, some, [],
  ◌∷◌, ◌++◌, ok, leb, length, Str, eq_str, eq_str_iff, if◌then◌else◌,
}
use cachy_db.Base.Dict
use cachy_db.Base.Dict.{str_eq, pair_eq}
use cachy_db.Bytes.{Bytes}
use cachy_db.Json.{Json}
use cachy_db.BTree.MemTable
use cachy_db.BTree.MemTable.{MemTable, is_empty}
use cachy_db.BTree.MemTable.Valid as MemValid
use cachy_db.BTree.MemTable.Valid.{view}
use cachy_db.BTree.MemTable.Ops.{insert-view, size-insert}
use cachy_db.Wal.{append_to_buffer}
use cachy_db.Router.Packing.{pack_record}
use cachy_db.Router.State.{TableState, Router, put_table}
use cachy_db.Router.State.Tables.{get_table_state_there, get-put_table}
use cachy_db.Router.View.{Represents, IsCoherent, table_view}
use cachy_db.Router.Flush.Running.{written}
use cachy_db.Router.Flush.Loop.{flushed_value-pack_record}
use cachy_db.Router.Write.{
  insert_active, needs_flush, store_record, set_internal, cache_put, trigger_flush,
}
use cachy_db.Router.Write.Caching.{with_cache, cache_put-updates}
use cachy_db.Router.Write.Rotation.{Roomy, budget, trigger_flush-IsCoherent}

insert-size :
    (m m' : MemTable Bytes) (key : Str) (payload : Bytes)
    → MemValid.IsValid m
    → is_empty key ≡ false
    → MemTable.insert m key payload ≡ ok m'
    → m'.size ≤ m.size + 1
insert-size m m' key payload v e h = let n = size-insert m m' key payload v e h in ground (arith, n)

module _ {V : Type 0} ⦃json : Json V⦄ where
  -- The table with one more record in memory.
  abbrev pub inserted : TableState V → MemTable Bytes → ℕ → TableState V
  inserted t m tx_id = record t {
    active_memtable = m;
    active_tx_ids = t.active_tx_ids ++ tx_id ∷ [];
  }

  insert_active_lem :
      (r : Router V) (name key : Str) (t : TableState V) (payload : Bytes) (m : MemTable Bytes)
      → MemTable.insert t.active_memtable key payload ≡ ok m
      → let (wal, tx_id) = append_to_buffer r.wal payload in
        insert_active name t key payload r
        ≡ (put_table name (inserted t m tx_id) (record r { wal = wal }), ok m)
  unfolding insert_active
  insert_active_lem r name key t payload m h = rw (insert_active, h) refl

  store_record_lem :
      (r r1 r2 : Router V) (name key : Str) (t : TableState V) (value : V) (payload : Bytes)
      (m : MemTable Bytes)
      → Dict.get name r.tables ≡ some t
      → insert_active name t key payload r ≡ (r1, ok m)
      → cache_put name key value r1 ≡ (r2, ok tt)
      → store_record name key value payload r
        ≡ trigger_flush name (leb r2.max_memtable_size m.size) r2
  unfolding store_record needs_flush
  store_record_lem r r1 r2 name key t value payload m o i c =
      rw (store_record, get_table_state_there r name t o, i, c, needs_flush) refl

  set_internal_lem :
      (r : Router V) (name key : Str) (value : V) (payload : Bytes)
      → is_empty name ≡ false
      → is_empty key ≡ false
      → pack_record key value ≡ ok payload
      → set_internal name key value r ≡ store_record name key value payload r
  unfolding set_internal
  set_internal_lem r name key value payload n1 n2 p = rw (set_internal, n1, n2, p) refl

  -- The table with the record stands for the map with the value written.
  pub inserted-Represents :
      (t : TableState V) (d : Str → Option V) (key : Str) (value : V) (payload : Bytes) (tx_id : ℕ)
      → Represents t d
      → is_empty key ≡ false
      → pack_record key value ≡ ok payload
      → length payload ≤ 4072
      → (m : MemTable Bytes) × (MemTable.insert t.active_memtable key payload ≡ ok m)
        × Represents (inserted t m tx_id) d
        × ((j : Str)
            → table_view (inserted t m tx_id) d j
              ≡ (if eq_str j key then written value else table_view t d j))
  inserted-Represents t d key value payload tx_id rep ne p fit =
      let (m, done, valid, look) = insert-view t.active_memtable key payload rep.active.valid ne in
      (
        m,
        done,
        record {
          active = record {
            valid = valid;
            packed = λ j q e.
                let chosen : (if eq_str j key then some payload else view t.active_memtable j)
                    ≡ some q =
                  sym (look j) ∙ e in
                elim (Bool-cases (eq_str j key)) [
                  | inl eq ↦
                      let same : j ≡ key = (eq_str_iff j key).0 eq in
                      let here : some payload ≡ some q =
                        subst (λ b. (if b then some payload else view t.active_memtable j) ≡ some q)
                          eq chosen in
                      let q_eq : payload ≡ q = cc here in
                      (value, rw (same, ← q_eq) p, rw (← q_eq) fit)
                  | inr other ↦ rep.active.packed j q (
                      subst (λ b. (if b then some payload else view t.active_memtable j) ≡ some q)
                        other chosen)
                ];
          };
          immutable = rep.immutable;
          sound = rep.sound;
          synced = rep.synced;
          holds = rep.holds;
        },
        λ j. elim (Bool-cases (eq_str j key)) [
          | inl eq ↦ rw (look j, eq) (flushed_value-pack_record key value payload p)
          | inr other ↦ rw (look j, other) refl
        ],
      )

  -- A write, with the pages that its record may take later.
  pub set_internal-Writes :
      (r : Router V) (name key : Str) (value : V) (payload : Bytes) (t : TableState V)
      (d : Str → Option V)
      → IsCoherent r name t d
      → Roomy t
      → is_empty name ≡ false
      → is_empty key ≡ false
      → pack_record key value ≡ ok payload
      → length payload ≤ 4072
      → (r' : Router V) × (t' : TableState V) × (d' : Str → Option V) × (set_internal name key value
            r
          ≡ (r', ok tt))
        × IsCoherent r' name t' d'
        × ((j : Str)
            → table_view t' d' j ≡ (if eq_str j key then written value else table_view t d j))
        × (budget t' ≤ budget t + 2)
  set_internal-Writes r name key value payload t d c room n1 n2 p fit =
      let (wal, tx_id) = append_to_buffer r.wal payload in
      let (m, done, rep, look) = inserted-Represents t d key value payload tx_id c.table n2 p fit in
      let t1 = inserted t m tx_id in
      let r1 : Router V = put_table name t1 (record r { wal = wal }) in
      let new : written value ≡ table_view t1 d key =
        sym (look key ∙ rw ((eq_str_iff key key).1 refl) refl) in
      let (cache, put, c1) =
        cache_put-updates r1 name key t1 d value (get-put_table (record r { wal = wal }) name t1)
          rep c.positive c.cache (λ k v ne g n. (look k ∙ rw ne refl) ∙ c.agrees k v g n) new in
      let r2 = with_cache r1 cache in
      let (r', t', d', rest, c', same, spent) = trigger_flush-IsCoherent r2 name t1 d c1 room in
      let stored =
        store_record_lem r r1 r2 name key t value payload m c.opened
          (insert_active_lem r name key t payload m done) put in
      (
        r',
        t',
        d',
        set_internal_lem r name key value payload n1 n2 p ∙ (stored ∙ rest),
        c',
        λ j. same j ∙ look j,
        (let n = insert-size t.active_memtable m key payload c.table.active.valid n2 done in
            omega (arith, spent, n)),
      )

  -- A write of a key and a value whose record fits into an empty page, to a table that the router has
  -- opened, with what the cache holds agreeing with the table and page ids left for a flush that waits:
  -- it succeeds, also when it waits for a flush or hands the table over to the next one. Then the table
  -- stands for the old map with that key set to the value, or removed if the value is `None`, and the
  -- cache agrees with it.
  pub set_internal-table_view :
      (r : Router V) (name key : Str) (value : V) (payload : Bytes) (t : TableState V)
      (d : Str → Option V)
      → IsCoherent r name t d
      → Roomy t
      → is_empty name ≡ false
      → is_empty key ≡ false
      → pack_record key value ≡ ok payload
      → length payload ≤ 4072
      → (r' : Router V) × (t' : TableState V) × (d' : Str → Option V) × (set_internal name key value
            r
          ≡ (r', ok tt))
        × IsCoherent r' name t' d'
        × ((j : Str)
            → table_view t' d' j ≡ (if eq_str j key then written value else table_view t d j))
  set_internal-table_view r name key value payload t d c room n1 n2 p fit =
      let (r', t', d', done, c', look, spent) =
        set_internal-Writes r name key value payload t d c room n1 n2 p fit in
      (r', t', d', done, c', look)
