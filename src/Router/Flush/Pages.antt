-- ===== src/Router/Flush/Pages.antt =====
-- The pages during a flush: the invariant of the handler and the page in hand, and that a write of the
-- page keeps it.
use cachy_db.Base.{
  ℕ, ◌+◌, ◌/◌, ◌≤◌, ◌<◌, ◌≡◌, ◌≢◌, ◌⊎◌, refl, sym, ap, subst, ◌∙◌, inl, inr, Bool-cases, true,
  false, Option, some, ok, length, get_elem?, Str, arith,
}
use cachy_db.Base.Dict.{str_eq, nat_eq}
use cachy_db.Bytes.{Bytes}
use cachy_db.Json.{Json}
use cachy_db.Pager.{Pager}
use cachy_db.Pager.Valid.{IsValid, view}
use cachy_db.Table.{TableHandler, write_page}
use cachy_db.Table.View.{page_of, stored_page, write_page-page_of}
use cachy_db.Router.Disk.Sound.{slot_in, slot_at, page_count, Coherent, IsSound, Same}
use cachy_db.Router.Flush.{Flushing, write_if, write_dirty}

-- The file has the slots of the page that the handler hands out.
abbrev pub Synced : {M : Type 0} → TableHandler M → ℕ → Type 0
Synced {M} h i = (s : ℕ) → slot_in (stored_page {M = M} h.file i) s ≡ slot_at h i s

-- Slots with a record stay, and pages are only added.
pub record Grows {M : Type 0} (h h' : TableHandler M) : Type 0 where
  pub slots :
      (i s : ℕ) (x : Option Bytes)
      → i < page_count h
      → slot_at h i s ≡ some x
      → slot_at h' i s ≡ some x
  pub count : page_count h ≤ page_count h'
  pub few : page_count h' ≤ page_count h + 1

module _ {V : Type 0} ⦃json : Json V⦄ where
  -- The pages are sound and on file, but for the current one while it is dirty.
  pub record OnPages (s : Flushing (Option (Str × V))) : Type 0 where
    pub sound : IsSound s.handler
    pub current : s.current_page_id < page_count s.handler
    pub kept : page_of s.handler s.current_page_id ≡ some s.page
    pub synced :
        (i : ℕ)
        → i < page_count s.handler
        → (s.page_dirty ≡ false) ⊎ (i ≢ s.current_page_id)
        → Synced s.handler i

  -- The page in hand.
  pub held_page :
      (s : Flushing (Option (Str × V)))
      → OnPages s
      → IsValid s.page × (s.page.page_id ≡ s.current_page_id) × Coherent s.page
  held_page s r =
      let o = r.sound.pages s.current_page_id r.current in
      let same : o.page ≡ s.page = cc (o.there, r.kept) in
      (
        subst (λ p. IsValid p) same o.valid,
        sym (ap (λ (p : Pager (Option (Str × V))). p.page_id) same) ∙ o.named,
        subst (λ p. Coherent p) same o.coherent,
      )

  pub refl-Grows : (h : TableHandler (Option (Str × V))) → Grows h h
  refl-Grows h = record { slots = λ i s x k e. e; count = omega arith; few = omega arith }

  -- A page that a write changed only in its buffer.
  rewritten-Same :
      (h h' : TableHandler (Option (Str × V))) (page : Pager (Option (Str × V))) (b : Bytes)
      (id : ℕ)
      → IsSound h
      → h'.is_open ≡ true
      → page_count h' ≡ page_count h
      → IsValid page
      → page.page_id ≡ id
      → Coherent page
      → page_of h id ≡ some page
      → page_of h' id ≡ some (record page { buffer = b })
      → view (record page { buffer = b }) ≡ view page
      → length b ≡ 4096
      → ((j : ℕ) → j ≢ id → page_of h' j ≡ page_of h j)
      → Same h h'
  rewritten-Same h h' page b id s o c v n coh was now w l others = record {
    sound = record {
      opened = o;
      pages = λ i k. elim (Bool-cases (nat_eq.beq i id)) [
        | inl eq ↦
            let same : i ≡ id = (nat_eq.beq_iff i id).0 eq in
            record {
              page = record page { buffer = b };
              there = ap (page_of h') same ∙ now;
              valid = record {
                lower = v.lower;
                ordered = v.ordered;
                upper = v.upper;
                size = l;
                bits = v.bits;
                area = v.area;
                disjoint = v.disjoint;
                fits = v.fits;
              };
              named = n ∙ sym same;
              coherent =
                  λ k m g. let (x, e, u) = coh k m g in (x, ap (λ l. get_elem? l k) w ∙ e, u);
            }
        | inr ne ↦
            let q = s.pages i (omega (arith, k, c)) in
            let d : i ≢ id = λ z. absurd (ground (arith, ne, z)) in
            record {
              page = q.page;
              there = others i d ∙ q.there;
              valid = q.valid;
              named = q.named;
              coherent = q.coherent;
            }
      ];
    };
    count = c;
    slots = λ i k. elim (Bool-cases (nat_eq.beq i id)) [
      | inl eq ↦
          let same : i ≡ id = (nat_eq.beq_iff i id).0 eq in
          rw same (
            ap (λ q. slot_in q k) now
            ∙ (ap (λ l. get_elem? l k) w ∙ ap (λ q. slot_in q k) (sym was)))
      | inr ne ↦
          let d : i ≢ id = λ z. absurd (ground (arith, ne, z)) in ap (λ q. slot_in q k) (others i d)
    ];
  }

  write_if_lem :
      (s : Flushing (Option (Str × V))) (h : TableHandler (Option (Str × V)))
      → write_page s.handler s.page ≡ (h, ok tt)
      → write_if true s ≡ (record s { handler = h }, ok tt)
  unfolding write_if
  write_if_lem s h done = rw (write_if, done) refl

  write_if_clean : (s : Flushing (Option (Str × V))) → write_if false s ≡ (s, ok tt)
  unfolding write_if
  write_if_clean s = refl

  -- `write_dirty` leaves every page on file.
  pub write_dirty-Same :
      (s : Flushing (Option (Str × V)))
      → OnPages s
      → page_count s.handler < 4294967296
      → (h : TableHandler (Option (Str × V))) × (write_dirty s ≡ (record s { handler = h }, ok tt))
        × Same s.handler h
        × ((i : ℕ) → i < page_count h → Synced h i)
  unfolding write_dirty
  write_dirty-Same s r few = elim (Bool-cases s.page_dirty) [
    | inr clean ↦ (
      s.handler,
      ap (λ d. write_if d s) clean ∙ write_if_clean s,
      record { sound = r.sound; count = refl; slots = λ i k. refl },
      λ i l. r.synced i l (inl clean),
    )
    | inl dirty ↦
        let (v, n, coh) = held_page s r in
        let cur = r.current in
        let (h, b, done, o, size, now, w, l, stored, others) =
          write_page-page_of s.handler s.page r.sound.opened v (omega (arith, n, cur))
            (omega (arith, n, cur)) in
        let id = s.page.page_id in
        let count : page_count h ≡ page_count s.handler = ap (λ k. k / 4096) size in
        let kept : page_of s.handler id ≡ some s.page = ap (page_of s.handler) n ∙ r.kept in
        (
          h,
          ap (λ d. write_if d s) dirty ∙ write_if_lem s h done,
          rewritten-Same s.handler h s.page b id r.sound o count v refl coh kept now w l
              (λ j d. (others j d).0),
          λ i k. elim (Bool-cases (nat_eq.beq i id)) [
            | inl eq ↦
                let same : i ≡ id = (nat_eq.beq_iff i id).0 eq in
                λ j. rw same (ap (λ q. slot_in q j) stored ∙ sym (ap (λ q. slot_in q j) now))
            | inr ne ↦
                let d : i ≢ id = λ z. absurd (ground (arith, ne, z)) in
                let (same_page, same_stored) = others i d in
                let there = r.synced i (omega (arith, k, count)) (inr (λ z. d (z ∙ sym n))) in
                λ j.
                  ap (λ q. slot_in q j) same_stored
                  ∙ (there j ∙ sym (ap (λ q. slot_in q j) same_page))
          ],
        )
  ]
