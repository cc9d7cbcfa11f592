-- ===== src/Router/Flush/Loop.antt =====
-- The whole of a flush's work on the pages: every record gets a place, and nothing else changes.
use cachy_db.Base.{
  ℕ, zero, suc, ◌+◌, ◌≤◌, ◌<◌, ◌≡◌, refl, sym, ap, subst, ◌∙◌, inl, inr, Bool-cases, true, false,
  Option, none, some, List, [], ◌∷◌, ok, length, All, if◌then◌else◌, Str, str_order, arith, eq_str,
  eq_str_iff, eq_of_gt,
}
use cachy_db.Base.Dict.{str_eq, nat_eq}
use cachy_db.Bytes.{Bytes}
use cachy_db.Json.{Json}
use cachy_db.BTree.Sorted.{IsSorted, Above, lookup, lookup_of_Absent, Absent-of_Above}
use cachy_db.Pager.{Pager}
use cachy_db.Table.{TableHandler, read_page, allocate_page}
use cachy_db.Pager.View.{new_page}
use cachy_db.Table.View.{page_of, stored_page, total_pages_lem, read_page-page_of}
use cachy_db.Router.Packing.{unpack_record, pack_record}
use cachy_db.Router.Packing.RoundTrip.{unpack_record-pack_record}
use cachy_db.Router.Disk.{ok_or_none}
use cachy_db.Router.Disk.Sound.{slot_at, slot_in, page_count, IsSound, pages-Same}
use cachy_db.Router.Flush.{Flushing, flush_records, last_or_new, last_page, begin_flush}
use cachy_db.Router.Flush.Pages.{Synced, OnPages}
use cachy_db.Router.Flush.Room.{new_page-OnPages}
use cachy_db.Router.Flush.Running.{Running, written, flush_record-Running}

-- Slots stay, and at most `n` pages are added.
pub record Extends {M : Type 0} (n : ℕ) (h h' : TableHandler M) : Type 0 where
  pub slots :
      (i s : ℕ) (x : Option Bytes)
      → i < page_count h
      → slot_at h i s ≡ some x
      → slot_at h' i s ≡ some x
  pub count : page_count h ≤ page_count h'
  pub few : page_count h' ≤ page_count h + n

pub trans-Extends :
    {M : Type 0} (n m k : ℕ) (h h1 h2 : TableHandler M)
    → n + m ≤ k
    → Extends n h h1
    → Extends m h1 h2
    → Extends k h h2
trans-Extends n m k h h1 h2 le a b =
    let c = a.count in
    record {
      slots = λ i s x l e. b.slots i s x (omega arith) (a.slots i s x l e);
      count = omega (arith, a.count, b.count);
      few = omega (arith, a.few, b.few);
    }

module _ (V : Type 0) ⦃json : Json V⦄ where
  -- A record that `_pack_record` returned and that fits into an empty page.
  abbrev pub Fits : Str × Bytes → Type 0
  Fits entry = (value : V) × (pack_record entry.0 value ≡ ok entry.1) × (length entry.1 ≤ 4072)

module _ {V : Type 0} ⦃json : Json V⦄ where
  -- What a packed record reads as: `None` for a deletion.
  abbrev pub value_or_none : Option (Str × V) → Option V
  value_or_none none = none
  value_or_none (some (key, value)) = written value

  abbrev pub flushed_value : Bytes → Option V
  flushed_value payload = value_or_none (ok_or_none (unpack_record payload))

  pub flushed_value-pack_record :
      (key : Str) (value : V) (payload : Bytes)
      → pack_record key value ≡ ok payload
      → flushed_value payload ≡ written value
  flushed_value-pack_record key value payload h =
      ap (λ r. value_or_none (ok_or_none r)) (unpack_record-pack_record key value payload h)

  -- The effects of the records, on top of earlier ones.
  abbrev pub effects_of : List (Str × Bytes) → (Str → Option (Option V)) → Str → Option (Option V)
  effects_of [] e j = e j
  effects_of ((key, payload) ∷ records) e j =
      effects_of records (λ i. if eq_str i key then some (flushed_value payload) else e i) j

  abbrev pub effect_of : Option (Option V) → Option Bytes → Option (Option V)
  effect_of old none = old
  effect_of old (some payload) = some (flushed_value payload)

  pub effects_of-lookup :
      (records : List (Str × Bytes)) (e : Str → Option (Option V)) (j : Str)
      → IsSorted records
      → effects_of records e j ≡ effect_of (e j) (lookup j records)
  unfolding lookup
  effects_of-lookup [] e j s = refl
  effects_of-lookup ((key, payload) ∷ records) e j s =
      let rest =
        effects_of-lookup records (λ i. if eq_str i key then some (flushed_value payload) else e i)
          j s.1 in
      elim (Bool-cases (eq_str j key)) [
        | inl eq ↦
            let same : j ≡ key = (eq_str_iff j key).0 eq in
            let absent : lookup j records ≡ none =
              rw same (lookup_of_Absent key records (Absent-of_Above key records s.0)) in
            rest ∙ rw (absent, eq) refl
        | inr ne ↦ rest ∙ rw ne refl
      ]

  -- No record's key has an effect yet.
  abbrev pub Fresh : (Str → Option (Option V)) → List (Str × Bytes) → Type 0
  Fresh e = All (λ x. e x.0 ≡ none)

  Fresh-rest :
      (e : Str → Option (Option V)) (key : Str) (o : Option (Option V))
      (records : List (Str × Bytes))
      → Above key records
      → Fresh e records
      → Fresh (λ i. if eq_str i key then o else e i) records
  Fresh-rest e key o [] a f = tt
  Fresh-rest e key o (x ∷ records) a f =
      let ne : eq_str x.0 key ≡ false = eq_of_gt x.0 key a.0 in
      (rw ne f.0, Fresh-rest e key o records a.1 f.1)

  pub flush_records-Running :
      (e : Str → Option (Option V)) (s : Flushing (Option (Str × V))) (records : List (Str × Bytes))
      → Running e s
      → page_count s.handler + length records < 4294967296
      → IsSorted records
      → Fresh e records
      → All (Fits V) records
      → (s' : Flushing (Option (Str × V))) × (flush_records records s ≡ (s', ok tt))
        × Running (effects_of records e) s'
        × Extends (length records) s.handler s'.handler
  unfolding flush_records
  flush_records-Running e s [] r few sorted fresh fits =
      (s, refl, r, record { slots = λ i k x l x'. x'; count = omega arith; few = omega arith })
  flush_records-Running e s ((key, payload) ∷ records) r few sorted fresh fits =
      let (value, packed, small) = fits.0 in
      let (s1, done, r1, g) =
        flush_record-Running e s key value payload r (omega arith) fresh.0 packed small in
      let e1 : Str → Option (Option V) =
        λ i. if eq_str i key then some (flushed_value payload) else e i in
      let r2 : Running e1 s1 =
        subst (λ w. Running (λ i. if eq_str i key then some w else e i) s1)
          (sym (flushed_value-pack_record key value payload packed)) r1 in
      let (s2, done2, r3, x) =
        flush_records-Running e1 s1 records r2 (omega (arith, g.few)) sorted.1
          (Fresh-rest e key (some (flushed_value payload)) records sorted.0 fresh.1) fits.1 in
      let first : Extends 1 s.handler s1.handler = record {
        slots = g.slots;
        count = g.count;
        few = g.few;
      } in
      (
        s2,
        rw (flush_records, done) done2,
        r3,
        trans-Extends 1 (length records) (suc (length records)) s.handler s1.handler s2.handler
            (omega arith) first x,
      )

  abbrev pub started :
      TableHandler (Option (Str × V)) → ℕ → Pager (Option (Str × V)) → Flushing (Option (Str × V))
  started h id page = record {
    handler = h;
    current_page_id = id;
    page = page;
    page_dirty = false;
    pending_updates = [];
    pending_deletions = [];
  }

  pub Synced-Same :
      (h h' : TableHandler (Option (Str × V))) (i : ℕ)
      → h'.file ≡ h.file
      → page_of h' i ≡ page_of h i
      → Synced h i
      → Synced h' i
  Synced-Same h h' i f same sync s =
      ap (λ z. slot_in (stored_page {M = Option (Str × V)} z i) s) f
      ∙ (sync s ∙ sym (ap (λ q. slot_in q s) same))

  last_page_new :
      (h h1 : TableHandler (Option (Str × V))) (id : ℕ)
      → h.is_open ≡ true
      → page_count h ≡ 0
      → allocate_page h ≡ (h1, ok id)
      → last_page h ≡ (h1, ok id)
  unfolding last_page last_or_new
  last_page_new h h1 id o n made = rw (last_page, total_pages_lem h o, n, last_or_new, made) refl

  last_page_old :
      (h : TableHandler (Option (Str × V))) (n : ℕ)
      → h.is_open ≡ true
      → page_count h ≡ suc n
      → last_page h ≡ (h, ok n)
  unfolding last_page last_or_new
  last_page_old h n o e = rw (last_page, total_pages_lem h o, e, last_or_new) refl

  begin_flush_lem :
      (h h1 h2 : TableHandler (Option (Str × V))) (id : ℕ) (page : Pager (Option (Str × V)))
      → last_page h ≡ (h1, ok id)
      → read_page h1 id ≡ ok (h2, page)
      → begin_flush h ≡ (h2, ok (started h2 id page))
  unfolding begin_flush
  begin_flush_lem h h1 h2 id page a b = rw (begin_flush, a, b) refl

  -- The first page of a flush, in hand and clean.
  pub begin_flush-OnPages :
      (h : TableHandler (Option (Str × V)))
      → IsSound h
      → page_count h + 1 < 4294967296
      → ((i : ℕ) → i < page_count h → Synced h i)
      → (h' : TableHandler (Option (Str × V))) × (id : ℕ) × (page : Pager (Option (Str × V)))
        × (begin_flush h ≡ (h', ok (started h' id page)))
        × OnPages (started h' id page)
        × Extends 1 h h'
  begin_flush-OnPages h snd few sync = by_count (page_count h) refl
    where
      by_count :
          (n : ℕ)
          → page_count h ≡ n
          → (h' : TableHandler (Option (Str × V))) × (id : ℕ) × (page : Pager (Option (Str × V)))
            × (begin_flush h ≡ (h', ok (started h' id page)))
            × OnPages (started h' id page)
            × Extends 1 h h'
      by_count zero e =
          let s0 = started h 0 (new_page 0 0) in
          let (h1, h2, id, page, made, got, on, g, room) =
            new_page-OnPages s0 0 snd (omega (arith, few)) sync (omega arith) in
          (
            h2,
            id,
            page,
            begin_flush_lem h h1 h2 id page (last_page_new h h1 id snd.opened e made) got,
            on,
            record { slots = g.slots; count = g.count; few = g.few },
          )
      by_count (suc id) e =
          let o = snd.pages id (omega (arith, e)) in
          let (h1, got, f, opened, same) = read_page-page_of h id o.page snd.opened o.there in
          let same1 = pages-Same h h1 snd f opened same in
          (
            h1,
            id,
            o.page,
            begin_flush_lem h h h1 id o.page (last_page_old h id snd.opened e) got,
            record {
              sound = same1.sound;
              current = omega (arith, e, same1.count);
              kept = same id ∙ o.there;
              synced =
                  λ i k u. Synced-Same h h1 i f (same i) (sync i (omega (arith, k, same1.count)));
            },
            record {
              slots = λ i s x k x'. same1.slots i s ∙ x';
              count = omega (arith, same1.count);
              few = omega (arith, same1.count);
            },
          )
