-- ===== src/Router/Disk/Sound.antt =====
-- The invariant of a table's pages, what the disk index stands for, and that a lookup on disk returns
-- it.
use cachy_db.Base.{
  ℕ, ◌/◌, ◌<◌, ◌≡◌, refl, sym, ap, ◌∙◌, inl, inr, Bool-cases, true, Option, Option-cases, none,
  some, List, ok, length, get_elem?, if◌then◌else◌, Str, arith, or_raise, value_error,
}
use cachy_db.Base.Dict
use cachy_db.Base.Dict.{str_eq, nat_eq, get-put}
use cachy_db.Bytes.{Bytes}
use cachy_db.Json.{Json}
use cachy_db.Pager.{Pager, get_record}
use cachy_db.Pager.Valid.{IsValid, view}
use cachy_db.Pager.View.{get_record-view}
use cachy_db.Table.{TableHandler}
use cachy_db.Table.View.{page_of, read_page-page_of, page_of-put}
use cachy_db.Router.Packing.{unpack_record}
use cachy_db.Router.Disk.{
  keep_page, unpacked, ok_or_none, remember, get_page_slot_record, read_indexed, read_from_disk,
}

-- The bytes of a slot: `none` if there is no such page or slot, `some none` if the slot is deleted.
abbrev pub slot_in : {M : Type 0} → Option (Pager M) → ℕ → Option (Option Bytes)
slot_in none slot_id = none
slot_in (some page) slot_id = get_elem? (view page) slot_id

abbrev pub slot_at : {M : Type 0} → TableHandler M → ℕ → ℕ → Option (Option Bytes)
slot_at h page_id = slot_in (page_of h page_id)

abbrev pub page_count : {M : Type 0} → TableHandler M → ℕ
page_count h = length h.file / 4096

module _ {V : Type 0} ⦃json : Json V⦄ where
  -- What is remembered for a slot is what its bytes are unpacked to.
  abbrev pub Coherent : Pager (Option (Str × V)) → Type 0
  Coherent page =
      (slot_id : ℕ) (m : Option (Str × V))
      → Dict.get slot_id page.cached_metadata ≡ some m
      → (x : Option Bytes) × (get_elem? (view page) slot_id ≡ some x) × (m ≡ unpacked x)

  pub record IsSoundPage (page_id : ℕ) (o : Option (Pager (Option (Str × V)))) : Type 0 where
    pub page : Pager (Option (Str × V))
    pub there : o ≡ some page
    pub valid : IsValid page
    pub named : page.page_id ≡ page_id
    pub coherent : Coherent page

  pub record IsSound (h : TableHandler (Option (Str × V))) : Type 0 where
    pub opened : h.is_open ≡ true
    pub pages : (i : ℕ) → i < page_count h → IsSoundPage i (page_of h i)

  -- The other handler stands for the same pages.
  pub record Same (h h' : TableHandler (Option (Str × V))) : Type 0 where
    pub sound : IsSound h'
    pub count : page_count h' ≡ page_count h
    pub slots : (i s : ℕ) → slot_at h' i s ≡ slot_at h i s

  -- A place of the index and the value that it stands for.
  abbrev pub Found : TableHandler (Option (Str × V)) → Str → Option (ℕ × ℕ) → Option V → Type 0
  Found h key none d = d ≡ none
  Found h key (some (i, s)) d =
      (payload : Bytes) × (value : V) × (i < page_count h)
      × (slot_at h i s ≡ some (some payload))
      × (unpack_record payload ≡ ok (key, value))
      × (d ≡ some value)

  -- The index and the pages stand for the map `d`.
  abbrev pub Holds :
      TableHandler (Option (Str × V)) → List (Str × (ℕ × ℕ)) → (Str → Option V) → Type 0
  Holds h index d = (key : Str) → Found h key (Dict.get key index) (d key)

  slot_not_cached :
      (page : Pager (Option (Str × V))) (s : ℕ) (x : Option Bytes)
      → Dict.get s page.cached_metadata ≡ none
      → get_record page s ≡ ok x
      → get_page_slot_record s page ≡ (
        record page { cached_metadata = Dict.put s (unpacked x) page.cached_metadata },
        ok (unpacked x),
      )
  unfolding get_page_slot_record remember
  slot_not_cached page s x g e = rw (get_page_slot_record, g, e) refl

  -- The memo with one more slot in it.
  put-Coherent :
      (page : Pager (Option (Str × V))) (s : ℕ) (x : Option Bytes)
      → Coherent page
      → get_elem? (view page) s ≡ some x
      → Coherent (record page { cached_metadata = Dict.put s (unpacked x) page.cached_metadata })
  put-Coherent page s x c e j m h = elim (Bool-cases (nat_eq.beq j s)) [
    | inl eq ↦
        let same : j ≡ s = (nat_eq.beq_iff j s).0 eq in
        let g : (if nat_eq.beq j s then some (unpacked x) else Dict.get j page.cached_metadata)
            ≡ some m =
          sym (get-put s j (unpacked x) page.cached_metadata) ∙ h in
        (x, rw same e, ground (arith, g, eq))
    | inr ne ↦
        let g : (if nat_eq.beq j s then some (unpacked x) else Dict.get j page.cached_metadata)
            ≡ some m =
          sym (get-put s j (unpacked x) page.cached_metadata) ∙ h in
        c j m (ground (arith, g, ne))
  ]

  Found-Same :
      (h h' : TableHandler (Option (Str × V))) (key : Str) (o : Option (ℕ × ℕ)) (value : Option V)
      → Same h h'
      → Found h key o value
      → Found h' key o value
  Found-Same h h' key none value s f = f
  Found-Same h h' key (some (i, k)) value s (payload, v, l, slot, u, e) =
      (payload, v, omega (arith, l, s.count), s.slots i k ∙ slot, u, e)

  pub Holds-Same :
      (h h' : TableHandler (Option (Str × V))) (index : List (Str × (ℕ × ℕ))) (d : Str → Option V)
      → Same h h'
      → Holds h index d
      → Holds h' index d
  Holds-Same h h' index d s holds key =
      Found-Same h h' key (Dict.get key index) (d key) s (holds key)

  -- Reading a slot through the memo gives what its bytes are unpacked to.
  get_page_slot_record-slot :
      (page : Pager (Option (Str × V))) (s : ℕ) (x : Option Bytes)
      → Coherent page
      → get_elem? (view page) s ≡ some x
      → (md : List (ℕ × Option (Str × V))) × (get_page_slot_record s page
          ≡ (record page { cached_metadata = md }, ok (unpacked x)))
        × Coherent (record page { cached_metadata = md })
  unfolding get_page_slot_record remember
  get_page_slot_record-slot page s x c e = elim (Option-cases (Dict.get s page.cached_metadata)) [
    | inr (m, g) ↦
        let (y, f, u) = c s m g in
        let same : y ≡ x = cc (e, f) in
        (
          page.cached_metadata,
          rw (get_page_slot_record, g) (ap (λ z. (page, ok z)) (u ∙ ap unpacked same)),
          c,
        )
    | inl g ↦
        let md = Dict.put s (unpacked x) page.cached_metadata in
        let read : get_record page s ≡ ok x =
          get_record-view page s ∙ ap (or_raise value_error) e in
        (md, slot_not_cached page s x g read, put-Coherent page s x c e)
  ]

  -- A page that the handler is made to keep: the pages stay sound.
  pub keep_page-IsSound :
      (h : TableHandler (Option (Str × V))) (i : ℕ) (page : Pager (Option (Str × V)))
      → IsSound h
      → IsValid page
      → page.page_id ≡ i
      → Coherent page
      → IsSound (keep_page i page h)
  keep_page-IsSound h i page s v n c = record {
    opened = s.opened;
    pages = λ j l. elim (Bool-cases (nat_eq.beq j i)) [
      | inl eq ↦
          let same : j ≡ i = (nat_eq.beq_iff j i).0 eq in
          record {
            page = page;
            there = page_of-put h i j page ∙ rw eq;
            valid = v;
            named = n ∙ sym same;
            coherent = c;
          }
      | inr ne ↦
          let o = s.pages j l in
          record {
            page = o.page;
            there = page_of-put h i j page ∙ rw (ne) o.there;
            valid = o.valid;
            named = o.named;
            coherent = o.coherent;
          }
    ];
  }

  -- A kept page that shows the same slots as the page in its place.
  pub keep_page-Same :
      (h : TableHandler (Option (Str × V))) (i : ℕ) (page old : Pager (Option (Str × V)))
      → IsSound h
      → page_of h i ≡ some old
      → IsValid page
      → page.page_id ≡ i
      → Coherent page
      → view page ≡ view old
      → Same h (keep_page i page h)
  keep_page-Same h i page old s e v n c w = record {
    sound = keep_page-IsSound h i page s v n c;
    count = refl;
    slots = λ j k. elim (Bool-cases (nat_eq.beq j i)) [
      | inl eq ↦
          let same : j ≡ i = (nat_eq.beq_iff j i).0 eq in
          let p : page_of (keep_page i page h) j ≡ some page = page_of-put h i j page ∙ rw eq in
          let q : page_of h j ≡ some old = ap (page_of h) same ∙ e in
          ap (λ o. slot_in o k) p ∙ (ap (λ l. get_elem? l k) w ∙ ap (λ o. slot_in o k) (sym q))
      | inr ne ↦ ap (λ o. slot_in o k) (page_of-put h i j page ∙ rw ne)
    ];
  }

  -- Handlers with the same pages: what one reads, the other does.
  pub pages-Same :
      (h h' : TableHandler (Option (Str × V)))
      → IsSound h
      → h'.file ≡ h.file
      → h'.is_open ≡ true
      → ((j : ℕ) → page_of h' j ≡ page_of h j)
      → Same h h'
  pages-Same h h' s f o p =
      let count : page_count h' ≡ page_count h = ap (λ b. length b / 4096) f in
      record {
        sound = record {
          opened = o;
          pages = λ i l.
              let q = s.pages i (omega (arith, l, count)) in
              record {
                page = q.page;
                there = p i ∙ q.there;
                valid = q.valid;
                named = q.named;
                coherent = q.coherent;
              };
        };
        count = count;
        slots = λ i k. ap (λ o. slot_in o k) (p i);
      }

  pub trans-Same : (h h1 h2 : TableHandler (Option (Str × V))) → Same h h1 → Same h1 h2 → Same h h2
  trans-Same h h1 h2 a b = record {
    sound = b.sound;
    count = b.count ∙ a.count;
    slots = λ i s. b.slots i s ∙ a.slots i s;
  }

  -- The place that the index names is read.
  read_indexed-Found :
      (h : TableHandler (Option (Str × V))) (i s : ℕ) (x : Option Bytes)
      → IsSound h
      → i < page_count h
      → slot_at h i s ≡ some x
      → (h' : TableHandler (Option (Str × V))) × (read_indexed i s h ≡ (h', ok (unpacked x)))
        × Same h h'
        × (h'.file ≡ h.file)
  unfolding read_indexed
  read_indexed-Found h i s x snd l e =
      let o = snd.pages i l in
      let (h1, done, f, opened, same) = read_page-page_of h i o.page snd.opened o.there in
      let same1 = pages-Same h h1 snd f opened same in
      let slot : get_elem? (view o.page) s ≡ some x = ap (λ q. slot_in q s) (sym o.there) ∙ e in
      let (md, got, coh) = get_page_slot_record-slot o.page s x o.coherent slot in
      let page : Pager (Option (Str × V)) = record o.page { cached_metadata = md } in
      let v = o.valid in
      let valid : IsValid page = record {
        lower = v.lower;
        ordered = v.ordered;
        upper = v.upper;
        size = v.size;
        bits = v.bits;
        area = v.area;
        disjoint = v.disjoint;
        fits = v.fits;
      } in
      let kept =
        keep_page-Same h1 i page o.page same1.sound (same i ∙ o.there) valid o.named coh refl in
      (
        keep_page i page h1,
        rw (done, got) refl,
        trans-Same h h1 (keep_page i page h1) same1 kept,
        f,
      )

  -- A lookup on disk returns what the index and the pages stand for, and changes no page.
  pub read_from_disk-Holds :
      (h : TableHandler (Option (Str × V))) (index : List (Str × (ℕ × ℕ))) (d : Str → Option V)
      (key : Str)
      → IsSound h
      → Holds h index d
      → (h' : TableHandler (Option (Str × V))) × (read_from_disk key index h ≡ (h', ok (d key)))
        × Same h h'
        × (h'.file ≡ h.file)
  unfolding read_from_disk unpacked
  read_from_disk-Holds h index d key snd holds = by_place (Dict.get key index) refl (holds key)
    where
      by_place :
          (o : Option (ℕ × ℕ))
          → Dict.get key index ≡ o
          → Found h key o (d key)
          → (h' : TableHandler (Option (Str × V))) × (read_from_disk key index h ≡ (h', ok (d key)))
            × Same h h'
            × (h'.file ≡ h.file)
      by_place none g absent = (
        h,
        rw (read_from_disk, g, absent) refl,
        record { sound = snd; count = refl; slots = λ i s. refl },
        refl,
      )
      by_place (some (i, s)) g (payload, value, l, slot, u, e) =
          let (h', done, same, f) = read_indexed-Found h i s (some payload) snd l slot in
          let m : unpacked (some payload) ≡ some (key, value) = ap ok_or_none u in
          (h', rw (read_from_disk, g, done, m, e) refl, same, f)
