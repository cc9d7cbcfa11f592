-- ===== src/Router/Read/Raw.antt =====
-- The lookup past the cache returns what the table stands for.
use cachy_db.Base.{
  arith, inl, inr, ◌≤◌, ◌≡◌, refl, sym, ap, ◌∙◌, false, Option, Option-cases, none, some, ok, Str,
}
use cachy_db.Base.Dict
use cachy_db.Base.Dict.{str_eq, pair_eq, nat_eq}
use cachy_db.Bytes.{Bytes}
use cachy_db.Json.{Json}
use cachy_db.BTree.MemTable.{MemTable, is_empty}
use cachy_db.BTree.MemTable.Valid.{view}
use cachy_db.Router.State.{TableState, Router, put_table}
use cachy_db.Router.State.Tables.{get_table_state_there}
use cachy_db.Router.View.{IsCoherent, table_view, view_or_none, present}
use cachy_db.Router.Disk.{ok_or_none, read_from_disk}
use cachy_db.Router.Disk.Sound.{read_from_disk-Holds}
use cachy_db.Router.Flush.{on_table}
use cachy_db.Router.Flush.Loop.{Fits, flushed_value, flushed_value-pack_record}
use cachy_db.Router.Write.Rotation.{budget}
use cachy_db.Router.Read.{
  find_packed, find_immutable, find_in_memory, unpack_value, get_raw_manifest,
}
use cachy_db.Router.Read.Refines.{
  find_packed-view, find_immutable-view, unpack_value-pack_record, disk-IsCoherent, waiting-Fits,
}

-- The records in memory, the active table first.
abbrev or_record : Option Bytes → Option Bytes → Option Bytes
or_record none o = o
or_record (some payload) o = some payload

module _ (V : Type 0) ⦃json : Json V⦄ where
  find_in_memory-view :
      (key : Str) (m : MemTable Bytes) (o : Option (MemTable Bytes))
      → find_packed key m ≡ ok (view m key)
      → find_immutable key o ≡ ok (view_or_none o key)
      → find_in_memory key m o ≡ ok (or_record (view m key) (view_or_none o key))
  unfolding find_in_memory
  find_in_memory-view key m o f g = elim (Option-cases (view m key)) [
    | inl e ↦ rw (find_in_memory, f, e) g
    | inr (payload, e) ↦ rw (find_in_memory, f, e) refl
  ]

module _ {V : Type 0} ⦃json : Json V⦄ where
  -- What the lookup past the cache leaves and returns.
  pub record Finds (r : Router V) (name key : Str) (t : TableState V) (d : Str → Option V)
      : Type 0 where
    pub r' : Router V
    pub t' : TableState V
    pub value : Option V
    pub returned : get_raw_manifest name key r ≡ (r', ok value)
    pub right : present value ≡ table_view t d key
    pub coherent : IsCoherent r' name t' d
    pub same : (j : Str) → table_view t' d j ≡ table_view t d j
    pub spent : budget t' ≤ budget t

  raw_in_memory :
      (r : Router V) (name key : Str) (t : TableState V) (o : Option Bytes)
      → Dict.get name r.tables ≡ some t
      → find_in_memory key t.active_memtable t.immutable_memtable ≡ ok o
      → get_raw_manifest name key r ≡ elim o [
        | some packed ↦ (r, ok (ok_or_none (unpack_value packed)))
        | none ↦ on_table name t r (read_from_disk key t.disk_index t.handler)
      ]
  unfolding get_raw_manifest
  raw_in_memory r name key t o there f =
      rw (get_raw_manifest, get_table_state_there r name t there, f) refl

  -- A record in memory is unpacked.
  raw_packed :
      (r : Router V) (name key : Str) (t : TableState V) (d : Str → Option V) (payload : Bytes)
      → IsCoherent r name t d
      → find_in_memory key t.active_memtable t.immutable_memtable ≡ ok (some payload)
      → Fits V (key, payload)
      → table_view t d key ≡ flushed_value payload
      → Finds r name key t d
  raw_packed r name key t d payload c f (value, packed, small) e =
      let u = unpack_value-pack_record key value payload packed in
      record {
        r' = r;
        t' = t;
        value = some value;
        returned =
            raw_in_memory r name key t (some payload) c.opened f
            ∙ ap (λ v. (r, ok (ok_or_none v))) u;
        right = sym (e ∙ flushed_value-pack_record key value payload packed);
        coherent = c;
        same = λ j. refl;
        spent = omega arith;
      }

  pub get_raw_manifest-Finds :
      (r : Router V) (name key : Str) (t : TableState V) (d : Str → Option V)
      → IsCoherent r name t d
      → is_empty key ≡ false
      → Finds r name key t d
  get_raw_manifest-Finds r name key t d c ne =
      let rep = c.table in
      let mem =
        find_in_memory-view V key t.active_memtable t.immutable_memtable
          (find_packed-view V key t.active_memtable rep.active ne)
          (find_immutable-view V key t.immutable_memtable t.flush_pending rep.immutable ne) in
      elim (Option-cases (view t.active_memtable key)) [
        | inr (payload, e) ↦
            raw_packed r name key t d payload c (mem ∙ rw e refl) (rep.active.packed key payload e)
              (rw e refl)
        | inl e ↦ elim (Option-cases (view_or_none t.immutable_memtable key)) [
          | inr (payload, i) ↦
              raw_packed r name key t d payload c (mem ∙ rw (e, i) refl)
                (waiting-Fits V t.immutable_memtable t.flush_pending key payload rep.immutable i)
                (rw (e, i) refl)
          | inl i ↦
              let (h, done, same, f) =
                read_from_disk-Holds t.handler t.disk_index d key rep.sound rep.holds in
              let count = same.count in
              record {
                r' = put_table name (record t { handler = h }) r;
                t' = record t { handler = h };
                value = d key;
                returned =
                    raw_in_memory r name key t none c.opened (mem ∙ rw (e, i) refl)
                    ∙ ap (on_table name t r) done;
                right = sym (rw (e, i) refl);
                coherent = disk-IsCoherent r name t d h c same f;
                same = λ j. refl;
                spent = omega (arith, count);
              }
        ]
      ]
