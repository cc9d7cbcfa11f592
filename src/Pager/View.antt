-- ===== src/Pager/View.antt =====
-- The operations on a valid page: each is an operation on the list of records, and keeps the page
-- valid.
use cachy_db.Base.{
  ℕ, zero, suc, ◌+◌, ◌-◌, ◌≤◌, ◌<◌, ◌≡◌, ◌↔◌, refl, ap, ap₂, ◌∙◌, ◌⊎◌, inl, inr, true, false, ◌==◌,
  leb, leb→le, none, some, List, [], ◌∷◌, ◌++◌, map, length, All, All-get_elem?, All-set,
  All-append, get_elem?, get_elem?-lt, get_elem?-map, set, arith, Bool-cases, if◌then◌else◌, ok,
  raise, or_raise, value_error, page_overflow_error, length-append, length-set, length-map,
  lt_of_get_elem?,
}
use cachy_db.Bytes.{Bytes, write, zeros}
use cachy_db.Bytes.Slices.{length-zeros, read-write_self, length-write}
use cachy_db.Pager.{
  Pager, is_deleted, slot_record, init, insert_record, get_record, delete_record, has_space_for,
}
use cachy_db.Pager.Valid.{InArea, Apart, Disjoint, total, IsValid, view}
use cachy_db.Pager.Reads.{live, area_lower, map-same, All-imp, record-write_below, map-delete}

map-append {ℓ κ} :
    {A : Type ℓ} {B : Type κ} (f : A → B) (xs ys : List A) → map f (xs ++ ys) ≡ map f xs ++ map f ys
map-append f [] ys = refl
map-append f (x ∷ xs) ys = ap (◌∷◌ (f x)) (map-append f xs ys)

total-append : (xs ys : List (ℕ × ℕ)) → total (xs ++ ys) ≡ total xs + total ys
total-append [] ys = omega arith
total-append (x ∷ xs) ys = omega (arith, total-append xs ys)

total-delete : (xs : List (ℕ × ℕ)) (i : ℕ) → total (set xs i (0, 0)) ≤ total xs
total-delete [] i = omega arith
total-delete (x ∷ xs) zero = omega arith
total-delete (x ∷ xs) (suc i) = omega (arith, total-delete xs i)

Disjoint-append :
    (xs : List (ℕ × ℕ)) (t : ℕ × ℕ)
    → All (λ s. Apart s t) xs
    → Disjoint xs
    → Disjoint (xs ++ t ∷ [])
Disjoint-append [] t h d = (tt, tt)
Disjoint-append (x ∷ xs) t h d =
    (All-append (Apart x) xs (t ∷ []) d.0 (h.0, tt), Disjoint-append xs t h.1 d.1)

Apart-deleted : (xs : List (ℕ × ℕ)) → All (Apart (0, 0)) xs
Apart-deleted [] = tt
Apart-deleted (x ∷ xs) = (inr (inr (inl refl)), Apart-deleted xs)

Disjoint-delete : (xs : List (ℕ × ℕ)) (i : ℕ) → Disjoint xs → Disjoint (set xs i (0, 0))
Disjoint-delete [] i d = tt
Disjoint-delete (x ∷ xs) zero d = (Apart-deleted xs, d.1)
Disjoint-delete (x ∷ xs) (suc i) d =
    (All-set (Apart x) xs i (0, 0) d.0 (inr (inr (inr refl))), Disjoint-delete xs i d.1)

-- An active slot starts at or above `u`, where a new one ends.
Apart-new : (u off n : ℕ) (s : ℕ × ℕ) → off + n ≤ u → InArea u s → Apart s (off, n)
Apart-new u off n s h (InArea.deleted a b) = inr (inr (inl b))
Apart-new u off n s h (InArea.active a b c d) = inr (inl (omega arith))

get_elem?-none {ℓ} : {A : Type ℓ} (xs : List A) (i : ℕ) → length xs ≤ i → get_elem? xs i ≡ none
get_elem?-none [] i h = refl
get_elem?-none (x ∷ xs) zero h = absurd (omega arith)
get_elem?-none (x ∷ xs) (suc i) h = get_elem?-none xs i (omega arith)

get_elem?-map_inv {ℓ κ} :
    {A : Type ℓ} {B : Type κ} (f : A → B) (xs : List A) (i : ℕ) {b : B}
    → get_elem? (map f xs) i ≡ some b
    → (a : A) × (get_elem? xs i ≡ some a) × (f a ≡ b)
get_elem?-map_inv f [] i e = cc
get_elem?-map_inv f (x ∷ xs) zero e = (x, refl, cc)
get_elem?-map_inv f (x ∷ xs) (suc i) e = get_elem?-map_inv f xs i e

slot_record-live :
    (b : Bytes) (s : ℕ × ℕ) {r : Bytes} → slot_record b s ≡ some r → is_deleted s ≡ false
slot_record-live b s h = elim (Bool-cases (is_deleted s)) [
  | inl e ↦ ground (arith, e, h)
  | inr e ↦ e
]

slot_record-gone : (b : Bytes) (s : ℕ × ℕ) → slot_record b s ≡ none → is_deleted s ≡ true
slot_record-gone b s h = elim (Bool-cases (is_deleted s)) [
  | inl e ↦ e
  | inr e ↦ ground (arith, e, h)
]

module _ {M : Type 0} where
  abbrev pub new_page : ℕ → ℕ → Pager M
  new_page page_id flags = record {
    page_id = page_id;
    flags = flags;
    lower_offset = 20;
    upper_offset = 4096;
    cached_metadata = [];
    slots = [];
    buffer = zeros 4096;
  }

  pub new_page-IsValid : (page_id flags : ℕ) → flags ≤ 65535 → IsValid (new_page page_id flags)
  new_page-IsValid page_id flags h = record {
    lower = omega arith;
    ordered = omega arith;
    upper = omega arith;
    size = length-zeros 4096;
    bits = h;
    area = tt;
    disjoint = tt;
    fits = omega arith;
  }

  -- What `insert_record` makes of a page with room for the payload.
  abbrev pub inserted : Pager M → Bytes → Pager M
  inserted p payload = record p {
    upper_offset = p.upper_offset - length payload;
    buffer = write (p.upper_offset - length payload) payload p.buffer;
    slots = p.slots ++ (p.upper_offset - length payload, length payload) ∷ [];
    lower_offset = p.lower_offset + 4;
    cached_metadata = [];
  }

  pub inserted-IsValid :
      (p : Pager M) (payload : Bytes)
      → IsValid p
      → 0 < length payload
      → has_space_for p (length payload) ≡ true
      → IsValid (inserted p payload)
  inserted-IsValid p payload v n h =
      let room : p.lower_offset + 4 + length payload ≤ p.upper_offset = ground arith in
      let u = p.upper_offset - length payload in
      let new : ℕ × ℕ = (u, length payload) in
      let low = v.lower in
      let up = v.upper in
      record {
        lower = omega (arith, length-append p.slots (new ∷ []), v.lower);
        ordered = omega arith;
        upper = omega (arith, v.upper);
        size = length-write u payload p.buffer (omega (arith, v.size, v.upper)) ∙ v.size;
        bits = v.bits;
        area =
            All-append (InArea u) p.slots (new ∷ [])
              (All-imp (InArea p.upper_offset) (InArea u)
                (λ s. area_lower p.upper_offset u s (omega arith)) p.slots v.area)
              (InArea.active (omega arith) (omega arith) n (omega arith), tt);
        disjoint =
            Disjoint-append p.slots new
              (All-imp (InArea p.upper_offset) (λ s. Apart s new)
                (λ s. Apart-new p.upper_offset u (length payload) s (omega arith)) p.slots v.area)
              v.disjoint;
        fits = omega (arith, total-append p.slots (new ∷ []), v.fits);
      }

  pub inserted-view :
      (p : Pager M) (payload : Bytes)
      → IsValid p
      → 0 < length payload
      → has_space_for p (length payload) ≡ true
      → view (inserted p payload) ≡ view p ++ some payload ∷ []
  inserted-view p payload v n h =
      let room : p.lower_offset + 4 + length payload ≤ p.upper_offset = ground arith in
      let u = p.upper_offset - length payload in
      let b = write u payload p.buffer in
      let low = v.lower in
      let up = v.upper in
      let size = v.size in
      let old : map (slot_record b) p.slots ≡ view p =
        map-same (InArea p.upper_offset) (slot_record b) (slot_record p.buffer)
          (record-write_below p.upper_offset u payload p.buffer (omega arith) (omega arith)) p.slots
          v.area in
      let fresh : slot_record b (u, length payload) ≡ some payload =
        let d : is_deleted (u, length payload) ≡ false = ground (arith, n) in
        rw d (ap some (read-write_self u payload p.buffer (omega arith))) in
      map-append (slot_record b) p.slots ((u, length payload) ∷ [])
      ∙ ap₂ (λ xs y. xs ++ y ∷ []) old fresh

  pub insert_record_lem :
      (p : Pager M) (payload : Bytes)
      → 0 < length payload
      → has_space_for p (length payload) ≡ true
      → insert_record p payload ≡ ok (inserted p payload, length (view p))
  unfolding insert_record
  insert_record_lem p payload n h = ground (arith, n, h, length-map (slot_record p.buffer) p.slots)

  -- Inserting a payload that is not empty and fits into a valid page: the page stays valid, its
  -- records are the old ones, unchanged, and the new one at the end, and the slot id is its index.
  pub insert_record-view :
      (p : Pager M) (payload : Bytes)
      → IsValid p
      → 0 < length payload
      → has_space_for p (length payload) ≡ true
      → (p' : Pager M) × (insert_record p payload ≡ ok (p', length (view p)))
        × IsValid p'
        × (view p' ≡ view p ++ some payload ∷ [])
  insert_record-view p payload v n h = (
    inserted p payload,
    insert_record_lem p payload n h,
    inserted-IsValid p payload v n h,
    inserted-view p payload v n h,
  )

  -- A payload is refused exactly when it is empty or the gap between the offsets is too small for it
  -- and the 4 bytes of a new slot: with a ValueError if it is empty, with a PageOverflowError otherwise.
  pub insert_record-refuses :
      (p : Pager M) (payload : Bytes)
      → (insert_record p payload
          ≡ raise (if length payload == 0 then value_error else page_overflow_error))
        ↔ ((payload ≡ []) ⊎ (p.upper_offset < p.lower_offset + 4 + length payload))
  unfolding insert_record
  insert_record-refuses p [] = (λ e. inl refl, λ h. refl)
  insert_record-refuses p (x ∷ payload) = (
    λ e. elim (Bool-cases (has_space_for p (length (x ∷ payload)))) [
      | inl room ↦ absurd (ground (arith, e, room))
      | inr full ↦ inr (ground (arith, full))
    ],
    λ h. elim h [
      | inl e ↦ cc
      | inr small ↦
          let full : has_space_for p (length (x ∷ payload)) ≡ false = ground (arith, small) in
          ground (arith, full)
    ],
  )

  -- `get_record` is a lookup among the records.
  pub get_record-view :
      (p : Pager M) (slot_id : ℕ)
      → get_record p slot_id ≡ or_raise value_error (get_elem? (view p) slot_id)
  unfolding get_record
  get_record-view p slot_id = elim (Bool-cases (leb (length p.slots) slot_id)) [
    | inl e ↦
        let out : get_elem? (view p) slot_id ≡ none = get_elem?-none (view p) slot_id (
          omega (
            arith,
            leb→le (length p.slots) slot_id e,
            length-map (slot_record p.buffer) p.slots,
          )) in
        rw (e, out)
    | inr e ↦
        let (s, q) = get_elem?-lt p.slots slot_id (ground (arith, e)) in
        rw (e, q, get_elem?-map (slot_record p.buffer) p.slots slot_id q)
  ]

  abbrev deleted_page : Pager M → ℕ → ℕ × ℕ → Pager M
  deleted_page p slot_id s = record p {
    buffer = write s.0 (zeros s.1) p.buffer;
    slots = set p.slots slot_id (0, 0);
    cached_metadata = [];
  }

  deleted_page-IsValid :
      (p : Pager M) (slot_id : ℕ) (s : ℕ × ℕ)
      → IsValid p
      → get_elem? p.slots slot_id ≡ some s
      → is_deleted s ≡ false
      → IsValid (deleted_page p slot_id s)
  deleted_page-IsValid p slot_id s v q d =
      let (i0, i1, i2, i3) =
        live p.upper_offset s (All-get_elem? (InArea p.upper_offset) p.slots slot_id v.area q) d in
      let size = v.size in
      record {
        lower = omega (arith, length-set p.slots slot_id (0, 0), v.lower);
        ordered = v.ordered;
        upper = v.upper;
        size = length-write s.0 (zeros s.1) p.buffer (omega (arith, length-zeros s.1, i3)) ∙ v.size;
        bits = v.bits;
        area =
            All-set (InArea p.upper_offset) p.slots slot_id (0, 0) v.area
              (InArea.deleted refl refl);
        disjoint = Disjoint-delete p.slots slot_id v.disjoint;
        fits = omega (arith, total-delete p.slots slot_id, v.fits);
      }

  -- Deleting a record of a valid page: the page stays valid, that record is gone and every other one
  -- is unchanged, at the same slot id.
  pub delete_record-view :
      (p : Pager M) (slot_id : ℕ) (r : Bytes)
      → IsValid p
      → get_elem? (view p) slot_id ≡ some (some r)
      → (p' : Pager M) × (delete_record p slot_id ≡ ok p')
        × IsValid p'
        × (view p' ≡ set (view p) slot_id none)
  unfolding delete_record
  delete_record-view p slot_id r v e =
      let (s, q, g) = get_elem?-map_inv (slot_record p.buffer) p.slots slot_id e in
      let l = lt_of_get_elem? p.slots slot_id q in
      let d = slot_record-live p.buffer s g in
      let i : leb (length p.slots) slot_id ≡ false = ground (arith, l) in
      (
        deleted_page p slot_id s,
        rw (i, q, d),
        deleted_page-IsValid p slot_id s v q d,
        map-delete p.upper_offset p.slots slot_id s (zeros s.1) p.buffer v.area v.disjoint q d
            (length-zeros s.1) v.size,
      )

  -- Deleting at an id that is no slot, or whose record is deleted already, is a ValueError.
  pub delete_record-refuses :
      (p : Pager M) (slot_id : ℕ)
      → (get_elem? (view p) slot_id ≡ none) ⊎ (get_elem? (view p) slot_id ≡ some none)
      → delete_record p slot_id ≡ raise value_error
  unfolding delete_record
  delete_record-refuses p slot_id (inl e) = elim (Bool-cases (leb (length p.slots) slot_id)) [
    | inl l ↦ rw l
    | inr l ↦
        let (s, q) = get_elem?-lt p.slots slot_id (ground (arith, l)) in
        cc (get_elem?-map (slot_record p.buffer) p.slots slot_id q)
  ]
  delete_record-refuses p slot_id (inr e) =
      let (s, q, g) = get_elem?-map_inv (slot_record p.buffer) p.slots slot_id e in
      let l = lt_of_get_elem? p.slots slot_id q in
      let d = slot_record-gone p.buffer s g in
      let i : leb (length p.slots) slot_id ≡ false = ground (arith, l) in rw (i, q, d)

  -- A new page is valid and has no record.
  pub init-view :
      (page_id flags : ℕ)
      → flags ≤ 65535
      → (p : Pager M) × (init page_id flags ≡ ok p) × IsValid p × (view p ≡ [])
  unfolding init
  init-view page_id flags h =
      (new_page page_id flags, ground (arith, h), new_page-IsValid page_id flags h, refl)
