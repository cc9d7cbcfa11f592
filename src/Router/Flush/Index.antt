-- ===== src/Router/Flush/Index.antt =====
-- The pages and the disk index after a flush stand for the old map with the records written over it.
use cachy_db.Base.{
  ℕ, ◌+◌, ◌≤◌, ◌<◌, ◌≡◌, refl, subst, ◌∙◌, Option, none, some, List, [], ◌∷◌, ok, length, All,
  if◌then◌else◌, Str, str_order, arith,
}
use cachy_db.Base.Dict
use cachy_db.Base.Dict.{str_eq, mem, get-put, get-remove, Unique}
use cachy_db.Bytes.{Bytes}
use cachy_db.Json.{Json}
use cachy_db.BTree.Sorted.{IsSorted, lookup}
use cachy_db.Pager.{Pager}
use cachy_db.Table.{TableHandler}
use cachy_db.Router.Disk.Sound.{page_count, IsSound, Found, Holds}
use cachy_db.Router.Flush.{Flushing, flush_pages, pop_all, update_all}
use cachy_db.Router.Flush.Pages.{Synced, Grows, write_dirty-Same}
use cachy_db.Router.Flush.Running.{Effect, Running, Effect-Grows}
use cachy_db.Router.Flush.Loop.{
  Extends, trans-Extends, Fits, Fresh, effects_of, effect_of, effects_of-lookup, started,
  begin_flush-OnPages, flush_records-Running,
}

pub get-pop_all :
    (key : Str) (keys : List Str) (index : List (Str × (ℕ × ℕ)))
    → Dict.get key (pop_all keys index) ≡ (if mem key keys then none else Dict.get key index)
unfolding pop_all mem
get-pop_all key [] index = refl
get-pop_all key (j ∷ keys) index =
    ground (arith, get-pop_all key keys (Dict.remove j index), get-remove j key index)

-- The entry of the first dictionary, or else of the second.
abbrev pub or_entry : Option (ℕ × ℕ) → Option (ℕ × ℕ) → Option (ℕ × ℕ)
or_entry none place = place
or_entry (some place) old = some place

pub get-update_all :
    (key : Str) (updates index : List (Str × (ℕ × ℕ)))
    → Unique updates
    → Dict.get key (update_all updates index) ≡ or_entry (Dict.get key updates) (Dict.get key index)
unfolding update_all Dict.get
get-update_all key [] index u = refl
get-update_all key ((j, place) ∷ updates) index u = ground (
  arith,
  get-update_all key updates (Dict.put j place index) u.1,
  get-put j key place index,
  str_eq.beq_iff key j,
  u.0,
)

module _ (V : Type 0) ⦃json : Json V⦄ where
  all-Fresh : (records : List (Str × Bytes)) → Fresh {V = V} (λ j. none) records
  all-Fresh [] = tt
  all-Fresh (r ∷ records) = (refl, all-Fresh records)

module _ {V : Type 0} ⦃json : Json V⦄ where
  -- The old value of a key, or what was written over it.
  abbrev pub merge : Option V → Option (Option V) → Option V
  merge old none = old
  merge old (some new) = new

  -- The value of a key after a flush of records.
  abbrev pub after_records : (Str → Option V) → List (Str × Bytes) → Str → Option V
  after_records d records key = merge (d key) (effect_of none (lookup key records))

  Effect-Found :
      (n : ℕ) (h : TableHandler (Option (Str × V))) (s : Flushing (Option (Str × V))) (key : Str)
      (old : Option V) (place : Option (ℕ × ℕ)) (o : Option (Option V))
      → Found h key place old
      → Extends n h s.handler
      → Effect s key o
      → Found s.handler key
          (or_entry
            (Dict.get key s.pending_updates)
            (if mem key s.pending_deletions then none else place))
          (merge old o)
  Effect-Found n h s key old none none f x e = rw (e.0, e.1) f
  Effect-Found n h s key old (some place) none (payload, value, l, slot, u, v) x e =
      let c = x.count in
      rw (e.0, e.1)
        (payload, value, omega arith, x.slots place.0 place.1 (some payload) l slot, u, v)
  Effect-Found n h s key old place (some none) f x e = rw (e.0, e.1) refl
  Effect-Found n h s key old place (some (some value)) f x (place', p, m, found) = rw p found

  start_lem :
      (h : TableHandler (Option (Str × V))) (id : ℕ) (page : Pager (Option (Str × V))) (j : Str)
      → Effect (started h id page) j none
  unfolding Dict.get mem
  start_lem h id page j = (refl, refl)

  -- A flush of sorted records, each of which fits into an empty page, on a sound table whose pages are
  -- on file: it succeeds, the pages are sound and on file again, and the updated index with the pages
  -- stands for the old map with the records written over it.
  pub flush_pages-Holds :
      (h : TableHandler (Option (Str × V))) (records : List (Str × Bytes))
      (index : List (Str × (ℕ × ℕ))) (d : Str → Option V)
      → IsSound h
      → ((i : ℕ) → i < page_count h → Synced h i)
      → page_count h + length records + 1 < 4294967296
      → IsSorted records
      → All (Fits V) records
      → Holds h index d
      → (s : Flushing (Option (Str × V))) × (flush_pages records h ≡ (s.handler, ok s))
        × IsSound s.handler
        × ((i : ℕ) → i < page_count s.handler → Synced s.handler i)
        × Holds s.handler
            (update_all s.pending_updates (pop_all s.pending_deletions index))
            (after_records d records)
        × (page_count s.handler ≤ page_count h + length records + 1)
  unfolding flush_pages
  flush_pages-Holds h records index d snd sync few sorted fits holds =
      let (h1, id, page, begun, on, x1) = begin_flush-OnPages h snd (omega (arith, few)) sync in
      let s1 = started h1 id page in
      let r1 : Running (λ j. none) s1 = record {
        on_pages = on;
        effects = λ j. start_lem h1 id page j;
        unique = tt;
      } in
      let (s2, looped, r2, x2) =
        flush_records-Running (λ j. none) s1 records r1 (omega (arith, few, x1.few)) sorted
          (all-Fresh V records) fits in
      let (h3, written, same, sync3) =
        write_dirty-Same s2 r2.on_pages (omega (arith, few, x1.few, x2.few)) in
      let s3 : Flushing (Option (Str × V)) = record s2 { handler = h3 } in
      let g : Grows s2.handler h3 = record {
        slots = λ i k x l e. same.slots i k ∙ e;
        count = omega (arith, same.count);
        few = omega (arith, same.count);
      } in
      let x3 : Extends 0 s2.handler h3 = record {
        slots = g.slots;
        count = g.count;
        few = omega (arith, same.count);
      } in
      let x12 =
        trans-Extends 1 (length records) (length records + 1) h h1 s2.handler (omega arith) x1 x2 in
      let x =
        trans-Extends (length records + 1) 0 (length records + 1) h s2.handler h3 (omega arith) x12
          x3 in
      (
        s3,
        rw (flush_pages, begun, looped, written) refl,
        same.sound,
        sync3,
        λ key.
            let e =
              Effect-Grows s2 s3 key (effects_of records (λ j. none) key) g refl refl
                (r2.effects key) in
            let e' =
              subst (λ o. Effect s3 key o) (effects_of-lookup records (λ j. none) key sorted) e in
            let f =
              Effect-Found (length records + 1) h s3 key (d key) (Dict.get key index)
                (effect_of none (lookup key records)) (holds key) x e' in
            rw
              (
                get-update_all key s3.pending_updates (pop_all s3.pending_deletions index)
                    r2.unique,
                get-pop_all key s3.pending_deletions index,
              )
              f,
        omega (arith, x.few),
      )
