-- ===== src/Router/Flush/Running.antt =====
-- The invariant of the flush's loop over the records.
use cachy_db.Base.{
  ℕ, ◌≤◌, ◌<◌, ◌≡◌, refl, sym, ap, subst, ◌∙◌, inl, inr, Bool-cases, true, false, Option, none,
  some, [], ◌∷◌, ◌++◌, ok, length, if◌then◌else◌, Str, arith, eq_str, eq_str_iff, ◌||◌,
}
use cachy_db.Base.Dict
use cachy_db.Base.Dict.{str_eq, nat_eq, mem, mem-append, get-put, beq_refl, Unique, put-Unique}
use cachy_db.Bytes.{Bytes}
use cachy_db.Json.{Json}
use cachy_db.Router.Packing.{pack_record, is_deletion}
use cachy_db.Router.Packing.RoundTrip.{
  pack_record-Packed, Packed-fields, is_deletion-pack_record, unpack_record-pack_record,
}
use cachy_db.Utf8
use cachy_db.Router.Disk.{keep_page}
use cachy_db.Router.Disk.Sound.{slot_at, page_count, Found}
use cachy_db.Router.Flush.{Flushing, flush_record, note_record}
use cachy_db.Router.Flush.Pages.{Grows, OnPages}
use cachy_db.Router.Flush.Room.{ensure_space-Roomy, insert_packed-OnPages}

module _ {V : Type 0} ⦃json : Json V⦄ where
  -- What a flush does to a key: nothing, a removal from the index, or a place for its value.
  abbrev pub Effect : Flushing (Option (Str × V)) → Str → Option (Option V) → Type 0
  Effect s key none =
      (Dict.get key s.pending_updates ≡ none) × (mem key s.pending_deletions ≡ false)
  Effect s key (some none) =
      (Dict.get key s.pending_updates ≡ none) × (mem key s.pending_deletions ≡ true)
  Effect s key (some (some value)) =
      (place : ℕ × ℕ) × (Dict.get key s.pending_updates ≡ some place)
      × (mem key s.pending_deletions ≡ false)
      × Found s.handler key (some place) (some value)

  pub record Running (e : Str → Option (Option V)) (s : Flushing (Option (Str × V))) : Type 0 where
    pub on_pages : OnPages s
    pub effects : (key : Str) → Effect s key (e key)
    pub unique : Unique s.pending_updates

  -- An effect stays while the pages grow and the two collections stay.
  pub Effect-Grows :
      (s s' : Flushing (Option (Str × V))) (key : Str) (o : Option (Option V))
      → Grows s.handler s'.handler
      → Dict.get key s'.pending_updates ≡ Dict.get key s.pending_updates
      → mem key s'.pending_deletions ≡ mem key s.pending_deletions
      → Effect s key o
      → Effect s' key o
  Effect-Grows s s' key none g u d e = (u ∙ e.0, d ∙ e.1)
  Effect-Grows s s' key (some none) g u d e = (u ∙ e.0, d ∙ e.1)
  Effect-Grows s s' key (some (some value)) g u d (place, p, q, (payload, v, l, slot, r, x)) =
      let c = g.count in
      (
        place,
        u ∙ p,
        d ∙ q,
        (payload, v, omega arith, g.slots place.0 place.1 (some payload) l slot, r, x),
      )

  -- What a key reads as once its value is written: `None` for a deletion.
  abbrev pub written : V → Option V
  written value = if json.is_null value then none else some value

  -- The effects with one more record.
  abbrev pub with_record : Str → V → (Str → Option (Option V)) → Str → Option (Option V)
  with_record key value e j = if eq_str j key then some (written value) else e j

  record_effects :
      (e : Str → Option (Option V)) (s s' : Flushing (Option (Str × V))) (key : Str) (value : V)
      → ((j : Str) → Effect s j (e j))
      → Grows s.handler s'.handler
      → ((j : Str)
          → eq_str j key ≡ false
          → (Dict.get j s'.pending_updates ≡ Dict.get j s.pending_updates)
            × (mem j s'.pending_deletions ≡ mem j s.pending_deletions))
      → Effect s' key (some (written value))
      → (j : Str) → Effect s' j (with_record key value e j)
  record_effects e s s' key value old g others new j = elim (Bool-cases (eq_str j key)) [
    | inl eq ↦ let same : j ≡ key = (eq_str_iff j key).0 eq in rw (eq, same) new
    | inr ne ↦ let (u, d) = others j ne in rw ne (Effect-Grows s s' j (e j) g u d (old j))
  ]

  note_record_lem :
      (s : Flushing (Option (Str × V))) (key : Str) (payload k_bytes : Bytes) (slot_id : ℕ)
      → Utf8.encode key ≡ ok k_bytes
      → note_record key payload slot_id s ≡ (
        if is_deletion (length k_bytes) payload
            then record s { page_dirty = true; pending_deletions = s.pending_deletions ++ key ∷ [] }
            else record s {
              page_dirty = true;
              pending_updates = Dict.put key (s.current_page_id, slot_id) s.pending_updates;
            },
        ok tt,
      )
  unfolding note_record
  note_record_lem s key payload k_bytes slot_id e = rw (note_record, e) refl

  -- The bookkeeping of a record whose slot has its bytes.
  note_record-Running :
      (e : Str → Option (Option V)) (s s2 : Flushing (Option (Str × V))) (key : Str) (value : V)
      (payload : Bytes) (slot_id : ℕ)
      → ((j : Str) → Effect s j (e j))
      → Unique s.pending_updates
      → e key ≡ none
      → pack_record key value ≡ ok payload
      → OnPages (record s2 { page_dirty = true })
      → Grows s.handler s2.handler
      → slot_at s2.handler s2.current_page_id slot_id ≡ some (some payload)
      → s2.pending_updates ≡ s.pending_updates
      → s2.pending_deletions ≡ s.pending_deletions
      → (s' : Flushing (Option (Str × V))) × (note_record key payload slot_id s2 ≡ (s', ok tt))
        × Running (with_record key value e) s'
        × (s'.handler ≡ s2.handler)
  note_record-Running e s s2 key value payload slot_id old unique fresh packed on g slot u d =
      let p = pack_record-Packed key value payload packed in
      let del = is_deletion-pack_record key value payload p.k_bytes packed p.encoded in
      let note = note_record_lem s2 key payload p.k_bytes slot_id p.encoded in
      let before : Effect s key none = subst (λ o. Effect s key o) fresh (old key) in
      elim (Bool-cases (json.is_null value)) [
        | inl null ↦
            let s' : Flushing (Option (Str × V)) = record s2 {
              page_dirty = true;
              pending_deletions = s2.pending_deletions ++ key ∷ [];
            } in
            let m : (j : Str)
                → mem j s'.pending_deletions ≡ (eq_str j key || mem j s.pending_deletions) =
              λ j. mem-append j key s2.pending_deletions ∙ ap (λ l. eq_str j key || mem j l) d in
            (
              s',
              note ∙ rw (del, null) refl,
              record {
                on_pages = record {
                  sound = on.sound;
                  current = on.current;
                  kept = on.kept;
                  synced = on.synced;
                };
                effects =
                    record_effects e s s' key value old g
                      (λ j ne. (ap (Dict.get j) u, m j ∙ rw ne refl))
                      (rw null (ap (Dict.get key) u ∙ before.0, m key ∙ rw (beq_refl key) refl));
                unique = rw u unique;
              },
              refl,
            )
        | inr keep ↦
            let place : ℕ × ℕ = (s2.current_page_id, slot_id) in
            let s' : Flushing (Option (Str × V)) = record s2 {
              page_dirty = true;
              pending_updates = Dict.put key place s2.pending_updates;
            } in
            let m : (j : Str)
                → Dict.get j s'.pending_updates
                  ≡ (if eq_str j key then some place else Dict.get j s.pending_updates) =
              λ j.
                get-put key j place s2.pending_updates
                ∙ ap (λ l. if eq_str j key then some place else Dict.get j l) u in
            (
              s',
              note ∙ rw (del, keep) refl,
              record {
                on_pages = record {
                  sound = on.sound;
                  current = on.current;
                  kept = on.kept;
                  synced = on.synced;
                };
                effects =
                    record_effects e s s' key value old g (λ j ne. (m j ∙ rw ne refl, ap (mem j) d))
                      (rw keep (
                        place,
                        m key ∙ rw (beq_refl key) refl,
                        ap (mem key) d ∙ before.1,
                        (
                          payload,
                          value,
                          on.current,
                          slot,
                          unpack_record-pack_record key value payload packed,
                          refl,
                        ),
                      ));
                unique = put-Unique key place s2.pending_updates (rw u unique);
              },
              refl,
            )
      ]

  pub flush_record-Running :
      (e : Str → Option (Option V)) (s : Flushing (Option (Str × V))) (key : Str) (value : V)
      (payload : Bytes)
      → Running e s
      → page_count s.handler < 4294967295
      → e key ≡ none
      → pack_record key value ≡ ok payload
      → length payload ≤ 4072
      → (s' : Flushing (Option (Str × V))) × (flush_record key payload s ≡ (s', ok tt))
        × Running (with_record key value e) s'
        × Grows s.handler s'.handler
  unfolding flush_record note_record
  flush_record-Running e s key value payload r few fresh packed fit =
      let (f, rd, dr, len, pos) =
        Packed-fields key value payload (pack_record-Packed key value payload packed) in
      let (s1, made, roomy) = ensure_space-Roomy s (length payload) r.on_pages few fit in
      let (page, slot_id, done, on, grows, slot) =
        insert_packed-OnPages s1 payload roomy.on_pages (omega (arith, len)) roomy.room in
      let s2 : Flushing (Option (Str × V)) = record s1 {
        page = page;
        handler = keep_page s1.current_page_id page s1.handler;
      } in
      let near = roomy.grows in
      let g : Grows s.handler s2.handler = record {
        slots = λ i k x l x'.
            let c = near.count in grows.slots i k x (omega (arith, l, c)) (near.slots i k x l x');
        count = near.count;
        few = near.few;
      } in
      let (s', noted, run, same) =
        note_record-Running e s s2 key value payload slot_id r.effects r.unique fresh packed on g
          slot roomy.updates roomy.deletions in
      (
        s',
        rw (flush_record, made, done, noted) refl,
        run,
        subst (λ h. Grows s.handler h) (sym same) g,
      )
