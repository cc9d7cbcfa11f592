-- ===== src/Router/Flush/Room.antt =====
-- The page in hand during a flush: a new one when there is no room, and the insertion of a record.
use cachy_db.Base.{
  ℕ, ◌≤◌, ◌<◌, ◌≡◌, ◌≢◌, refl, sym, ap, subst, ◌∙◌, inl, inr, Bool-cases, true, false, Option, some,
  [], ◌∷◌, ok, length, get_elem?, get_elem?-append_left, get_elem?-append_here, Str, arith,
}
use cachy_db.Base.Dict
use cachy_db.Base.Dict.{str_eq, nat_eq, mem}
use cachy_db.Bytes.{Bytes}
use cachy_db.Json.{Json}
use cachy_db.Pager.{Pager, has_space_for}
use cachy_db.Pager.Valid.{IsValid, view}
use cachy_db.Pager.View.{
  new_page, new_page-IsValid, inserted, inserted-IsValid, inserted-view, insert_record_lem,
}
use cachy_db.Table.{TableHandler, read_page, allocate_page}
use cachy_db.Table.View.{
  page_of, stored_page, page_of-put, read_page-page_of, allocate_page-page_of,
}
use cachy_db.Router.Disk.{keep_page}
use cachy_db.Router.Disk.Sound.{
  slot_in, slot_at, page_count, Coherent, IsSound, keep_page-IsSound, pages-Same,
}
use cachy_db.Router.Flush.{Flushing, take_page, next_page, ensure_space, insert_packed}
use cachy_db.Router.Flush.Pages.{Synced, Grows, OnPages, held_page, refl-Grows, write_dirty-Same}

module _ {V : Type 0} ⦃json : Json V⦄ where
  new-IsValid :
      (id : ℕ) (b : Bytes)
      → length b ≡ 4096
      → IsValid (record (new_page {M = Option (Str × V)} id 0) { buffer = b })
  new-IsValid id b l =
      let v = new_page-IsValid {M = Option (Str × V)} id 0 (omega arith) in
      record {
        lower = v.lower;
        ordered = v.ordered;
        upper = v.upper;
        size = l;
        bits = v.bits;
        area = v.area;
        disjoint = v.disjoint;
        fits = v.fits;
      }

  no_memo : (k : ℕ) (m : Option (Str × V)) → Dict.get {V = Option (Str × V)} k [] ≡ some m → ⊥
  unfolding Dict.get
  no_memo k m g = cc

  -- A new page, in hand and clean.
  pub new_page-OnPages :
      (s : Flushing (Option (Str × V))) (n : ℕ)
      → IsSound s.handler
      → page_count s.handler < 4294967296
      → ((i : ℕ) → i < page_count s.handler → Synced s.handler i)
      → n ≤ 4072
      → (h1 : TableHandler (Option (Str × V))) × (h : TableHandler (Option (Str × V))) × (id : ℕ)
        × (page : Pager (Option (Str × V))) × (allocate_page s.handler ≡ (h1, ok id))
        × (read_page h1 id ≡ ok (h, page))
        × OnPages (record s { handler = h; current_page_id = id; page = page; page_dirty = false })
        × Grows s.handler h
        × (has_space_for page n ≡ true)
  new_page-OnPages s n snd few sync fit =
      let h = s.handler in
      let id = page_count h in
      let (h1, b, done, o, count, now, w, l, stored, others) =
        allocate_page-page_of h snd.opened few in
      let page : Pager (Option (Str × V)) = record (new_page id 0) { buffer = b } in
      let (h2, done2, f, o2, same) = read_page-page_of h1 id page o now in
      let v : IsValid page = new-IsValid id b l in
      let coh : Coherent page = λ k m g. absurd (no_memo k m g) in
      let snd1 : IsSound h1 = record {
        opened = o;
        pages = λ i k. elim (Bool-cases (nat_eq.beq i id)) [
          | inl eq ↦
              let at : i ≡ id = (nat_eq.beq_iff i id).0 eq in
              record {
                page = page;
                there = ap (page_of h1) at ∙ now;
                valid = v;
                named = sym at;
                coherent = coh;
              }
          | inr ne ↦
              let d : i ≢ id = λ z. absurd (ground (arith, ne, z)) in
              let q = snd.pages i (omega (arith, k, count, d)) in
              record {
                page = q.page;
                there = (others i d).0 ∙ q.there;
                valid = q.valid;
                named = q.named;
                coherent = q.coherent;
              }
        ];
      } in
      let same2 = pages-Same h1 h2 snd1 f o2 same in
      let below : (i : ℕ) → i < id → i ≢ id = λ i k z. absurd (omega (arith, k, z)) in
      (
        h1,
        h2,
        id,
        page,
        done,
        done2,
        record {
          sound = same2.sound;
          current = omega (arith, same2.count, count);
          kept = same id ∙ now;
          synced = λ i k u. elim (Bool-cases (nat_eq.beq i id)) [
            | inl eq ↦
                let at : i ≡ id = (nat_eq.beq_iff i id).0 eq in
                subst (λ k. Synced h2 k) (sym at)
                  (λ j.
                    ap (λ z. slot_in (stored_page {M = Option (Str × V)} z id) j) f
                    ∙ (ap (λ q. slot_in q j) stored ∙ sym (ap (λ q. slot_in q j) (same id ∙ now))))
            | inr ne ↦
                let d : i ≢ id = λ z. absurd (ground (arith, ne, z)) in
                let there = sync i (omega (arith, k, same2.count, count, d)) in
                λ j.
                  ap (λ z. slot_in (stored_page {M = Option (Str × V)} z i) j) f
                  ∙ (ap (λ q. slot_in q j) (others i d).1
                      ∙ (there j ∙ sym (ap (λ q. slot_in q j) (same i ∙ (others i d).0))))
          ];
        },
        record {
          slots = λ i j x k e.
              let d : i ≢ id = λ z. absurd (omega (arith, k, z)) in
              ap (λ q. slot_in q j) (same i ∙ (others i d).0) ∙ e;
          count = omega (arith, same2.count, count);
          few = omega (arith, same2.count, count);
        },
        ground (arith, fit),
      )

  pub take_page-OnPages :
      (s : Flushing (Option (Str × V))) (n : ℕ)
      → IsSound s.handler
      → page_count s.handler < 4294967296
      → ((i : ℕ) → i < page_count s.handler → Synced s.handler i)
      → n ≤ 4072
      → (h : TableHandler (Option (Str × V))) × (id : ℕ) × (page : Pager (Option (Str × V)))
        × (take_page s ≡ (
          record s { handler = h; current_page_id = id; page = page; page_dirty = false },
          ok tt,
        ))
        × OnPages (record s { handler = h; current_page_id = id; page = page; page_dirty = false })
        × Grows s.handler h
        × (has_space_for page n ≡ true)
  unfolding take_page
  take_page-OnPages s n snd few sync fit =
      let (h1, h, id, page, done, done2, on, grows, room) = new_page-OnPages s n snd few sync fit in
      (h, id, page, rw (take_page, done, done2) refl, on, grows, room)

  -- What `ensure_space` leaves: room in the page in hand, and the rest as it was.
  pub record Roomy (s s' : Flushing (Option (Str × V))) (n : ℕ) : Type 0 where
    pub on_pages : OnPages s'
    pub grows : Grows s.handler s'.handler
    pub room : has_space_for s'.page n ≡ true
    pub updates : s'.pending_updates ≡ s.pending_updates
    pub deletions : s'.pending_deletions ≡ s.pending_deletions

  pub ensure_space-Roomy :
      (s : Flushing (Option (Str × V))) (n : ℕ)
      → OnPages s
      → page_count s.handler < 4294967295
      → n ≤ 4072
      → (s' : Flushing (Option (Str × V))) × (ensure_space n s ≡ (s', ok tt)) × Roomy s s' n
  unfolding ensure_space next_page
  ensure_space-Roomy s n r few fit = elim (Bool-cases (has_space_for s.page n)) [
    | inl room ↦ (
      s,
      rw (ensure_space, room) refl,
      record {
        on_pages = r;
        grows = refl-Grows s.handler;
        room = room;
        updates = refl;
        deletions = refl;
      },
    )
    | inr full ↦
        let (h, written, same, sync) = write_dirty-Same s r (omega (arith, few)) in
        let s1 : Flushing (Option (Str × V)) = record s { handler = h } in
        let (h2, id, page, taken, on, grows, room) =
          take_page-OnPages s1 n same.sound (omega (arith, few, same.count)) sync fit in
        (
          record s { handler = h2; current_page_id = id; page = page; page_dirty = false },
          rw (ensure_space, full, written) taken,
          record {
            on_pages = on;
            grows = record {
              slots = λ i k x l e.
                  grows.slots i k x (omega (arith, l, same.count)) (same.slots i k ∙ e);
              count = omega (arith, grows.count, same.count);
              few = omega (arith, grows.few, same.count);
            };
            room = room;
            updates = refl;
            deletions = refl;
          },
        )
  ]

  -- The page in hand takes a record: its slot has the bytes, and every other slot stays.
  pub insert_packed-OnPages :
      (s : Flushing (Option (Str × V))) (payload : Bytes)
      → OnPages s
      → 0 < length payload
      → has_space_for s.page (length payload) ≡ true
      → (page : Pager (Option (Str × V))) × (slot_id : ℕ) × (insert_packed payload s ≡ (
        record s { page = page; handler = keep_page s.current_page_id page s.handler },
        ok slot_id,
      ))
        × OnPages (record s {
          page = page;
          handler = keep_page s.current_page_id page s.handler;
          page_dirty = true;
        })
        × Grows s.handler (keep_page s.current_page_id page s.handler)
        × (slot_at (keep_page s.current_page_id page s.handler) s.current_page_id slot_id
            ≡ some (some payload))
  unfolding insert_packed
  insert_packed-OnPages s payload r n room =
      let (v, name, coh) = held_page s r in
      let page = inserted s.page payload in
      let slot_id = length (view s.page) in
      let id = s.current_page_id in
      let h = keep_page id page s.handler in
      let w = inserted-view s.page payload v n room in
      let now : page_of h id ≡ some page =
        page_of-put s.handler id id page ∙ rw ((nat_eq.beq_iff id id).1 refl) refl in
      let other : (i : ℕ) → i ≢ id → page_of h i ≡ page_of s.handler i = λ i d.
        let ne : nat_eq.beq i id ≡ false = ground (arith, d) in
        page_of-put s.handler id i page ∙ rw ne refl in
      (
        page,
        slot_id,
        rw (insert_packed, insert_record_lem s.page payload n room) refl,
        record {
          sound =
              keep_page-IsSound s.handler id page r.sound (inserted-IsValid s.page payload v n room)
                name (λ k m g. absurd (no_memo k m g));
          current = r.current;
          kept = now;
          synced = λ i l u. elim u [
            | inl clean ↦ absurd (cc clean)
            | inr d ↦ λ j. r.synced i l (inr d) j ∙ sym (ap (λ q. slot_in q j) (other i d))
          ];
        },
        record {
          slots = λ i j x l e. elim (Bool-cases (nat_eq.beq i id)) [
            | inl eq ↦
                let at : i ≡ id = (nat_eq.beq_iff i id).0 eq in
                let was : get_elem? (view s.page) j ≡ some x =
                  sym (ap (λ q. slot_in q j) (ap (page_of s.handler) at ∙ r.kept)) ∙ e in
                ap (λ q. slot_in q j) (ap (page_of h) at ∙ now)
                ∙ (ap (λ l. get_elem? l j) w
                    ∙ get_elem?-append_left (view s.page) (some payload ∷ []) j was)
            | inr ne ↦
                let d : i ≢ id = λ z. absurd (ground (arith, ne, z)) in
                ap (λ q. slot_in q j) (other i d) ∙ e
          ];
          count = omega arith;
          few = omega arith;
        },
        ap (λ q. slot_in q slot_id) now
            ∙ (ap (λ l. get_elem? l slot_id) w
                ∙ get_elem?-append_here (view s.page) [] (some payload)),
      )
