-- ===== src/Pager/Compact.antt =====
-- `compact`: the records are packed against the end of the page.
use cachy_db.Base.{
  ℕ, zero, suc, ◌+◌, ◌-◌, ◌≤◌, ◌<◌, ◌≡◌, refl, ap, ap₂, subst, ◌∙◌, inl, inr, true, false, ltb,
  lt→ltb, Option, none, some, List, [], ◌∷◌, map, length, All, arith, Bool-cases, if◌then◌else◌,
}
use cachy_db.Bytes.{Bytes, read, write, zeros}
use cachy_db.Bytes.Slices.{
  length-read, read_none, length-zeros, read-write_below, read-write_self, length-write,
}
use cachy_db.Pager.{Pager, is_deleted, slot_record, repack, compact}
use cachy_db.Pager.Valid.{InArea, Apart, Disjoint, total, IsValid, view}
use cachy_db.Pager.Reads.{live, map-same, All-imp, record-same}

-- The end of an active slot is at most `u`.
data Below (u : ℕ) (s : ℕ × ℕ) : Type 0 where
  below : s.0 + s.1 ≤ u → Below u s
  empty : s.1 ≡ 0 → Below u s

Below-raise : (u v : ℕ) (s : ℕ × ℕ) → u ≤ v → Below u s → Below v s
Below-raise u v s h (Below.below a) = Below.below (omega arith)
Below-raise u v s h (Below.empty a) = Below.empty a

Below-Apart : (u n : ℕ) (s : ℕ × ℕ) → Below u s → Apart (u, n) s
Below-Apart u n s (Below.below a) = inr (inl a)
Below-Apart u n s (Below.empty a) = inr (inr (inr a))

-- What the loop leaves, for the slots and records it still has to pack.
record Packed (upper : ℕ) (b : Bytes) (slots : List (ℕ × ℕ)) (records : List (Option Bytes))
    (r : ℕ × (List (ℕ × ℕ) × Bytes)) : Type 0 where
  ends : r.0 + total slots ≡ upper
  size : length r.1.1 ≡ length b
  count : length r.1.0 ≡ length slots
  amount : total r.1.0 ≡ total slots
  area : All (InArea r.0) r.1.0
  under : All (Below upper) r.1.0
  apart : Disjoint r.1.0
  kept : (off n : ℕ) → upper ≤ off → read off n r.1.1 ≡ read off n b
  records_kept : map (slot_record r.1.1) r.1.0 ≡ records

Packed-none :
    (upper : ℕ) (b : Bytes) (slots : List (ℕ × ℕ)) (records : List (Option Bytes))
    (r : ℕ × (List (ℕ × ℕ) × Bytes)) (s : ℕ × ℕ)
    → is_deleted s ≡ true
    → Packed upper b slots records r
    → Packed upper b (s ∷ slots) (none ∷ records) (r.0, (s ∷ r.1.0, r.1.1))
Packed-none upper b slots records r s d v =
    let z : s.0 ≡ 0 = ground (arith, d) in
    let z' : s.1 ≡ 0 = ground (arith, d) in
    record {
      ends = omega (arith, v.ends);
      size = v.size;
      count = ap suc v.count;
      amount = omega (arith, v.amount);
      area = (InArea.deleted z z', v.area);
      under = (Below.empty z', v.under);
      apart = (All-imp (Below upper) (Apart s) (λ t h. inr (inr (inl z'))) r.1.0 v.under, v.apart);
      kept = v.kept;
      records_kept = ap₂ (◌∷◌) (rw d refl) v.records_kept;
    }

Packed-some :
    (upper : ℕ) (b : Bytes) (slots : List (ℕ × ℕ)) (records : List (Option Bytes))
    (r : ℕ × (List (ℕ × ℕ) × Bytes)) (s : ℕ × ℕ) (x : Bytes)
    → length x ≡ s.1
    → 0 < s.1
    → 20 + s.1 + total slots ≤ upper
    → upper ≤ 4096
    → length b ≡ 4096
    → Packed (upper - length x) (write (upper - length x) x b) slots records r
    → Packed upper b
        (s ∷ slots)
        (some x ∷ records)
        (r.0, ((upper - length x, length x) ∷ r.1.0, r.1.1))
Packed-some upper b slots records r s x l n room u k v =
    let u' = upper - length x in
    let d : is_deleted (u', length x) ≡ false = ground (arith, n, l) in
    let e = v.ends in
    record {
      ends = omega (arith, v.ends);
      size = v.size ∙ length-write u' x b (omega arith);
      count = ap suc v.count;
      amount = omega (arith, v.amount);
      area = (InArea.active (omega arith) (omega arith) (omega arith) (omega arith), v.area);
      under = (
        Below.below (omega arith),
        All-imp (Below u') (Below upper) (λ t. Below-raise u' upper t (omega arith)) r.1.0 v.under,
      );
      apart = (
        All-imp (Below u') (Apart (u', length x)) (λ t. Below-Apart u' (length x) t) r.1.0 v.under,
        v.apart,
      );
      kept = λ off m h.
          v.kept off m (omega arith) ∙ read-write_below u' off m x b (omega arith) (omega arith);
      records_kept =
          ap₂ (◌∷◌)
            (rw d
              (ap some (v.kept u' (length x) (omega arith) ∙ read-write_self u' x b (omega arith))))
            v.records_kept;
    }

repack-Packed :
    (b₀ : Bytes) (u : ℕ) (slots : List (ℕ × ℕ)) (upper : ℕ) (b : Bytes)
    → length b₀ ≡ 4096
    → All (InArea u) slots
    → 20 + total slots ≤ upper
    → upper ≤ 4096
    → length b ≡ 4096
    → Packed upper b slots
        (map (slot_record b₀) slots)
        (repack upper b slots (map (slot_record b₀) slots))
unfolding repack
repack-Packed b₀ u [] upper b k₀ a h t k = record {
  ends = omega arith;
  size = refl;
  count = refl;
  amount = refl;
  area = tt;
  under = tt;
  apart = tt;
  kept = λ off n l. refl;
  records_kept = refl;
}
repack-Packed b₀ u (s ∷ slots) upper b k₀ a h t k = elim (Bool-cases (is_deleted s)) [
  | inl d ↦
      let records = map (slot_record b₀) slots in
      rw d (
        Packed-none upper b slots records (repack upper b slots records) s d
          (repack-Packed b₀ u slots upper b k₀ a.1 (omega arith) t k))
  | inr d ↦
      let (i₀, i₁, i₂, i₃) = live u s a.0 d in
      let records = map (slot_record b₀) slots in
      let x = read s.0 s.1 b₀ in
      let l : length x ≡ s.1 = length-read s.0 s.1 b₀ (omega arith) in
      let upper' = upper - length x in
      let b' = write upper' x b in
      let k' : length b' ≡ 4096 = length-write upper' x b (omega arith) ∙ k in
      rw d (
        Packed-some upper b slots records (repack upper' b' slots records) s x l i₂ (omega arith) t
          k (repack-Packed b₀ u slots upper' b' k₀ a.1 (omega arith) (omega arith) k'))
]

-- The free area zeroed, whether it is empty or not.
cleared : ℕ → ℕ → Bytes → Bytes
cleared off n b = if ltb 0 n then write off (zeros n) b else b

cleared_lem :
    (off n : ℕ) (b : Bytes)
    → off + n ≤ length b
    → (length (cleared off n b) ≡ length b)
      × (read off n (cleared off n b) ≡ zeros n)
      × ((a m : ℕ) → off + n ≤ a → read a m (cleared off n b) ≡ read a m b)
unfolding cleared
cleared_lem off zero b h = (refl, read_none off b, λ a m l. refl)
cleared_lem off (suc n) b h =
    let z : ltb 0 (suc n) ≡ true = lt→ltb 0 (suc n) (omega arith) in
    let l = length-zeros (suc n) in
    rw z (
      length-write off (zeros (suc n)) b (omega arith),
      subst (λ k. read off k (write off (zeros (suc n)) b) ≡ zeros (suc n)) l
          (read-write_self off (zeros (suc n)) b (omega arith)),
      λ a m g. read-write_below off a m (zeros (suc n)) b (omega arith) (omega arith),
    )

module _ {M : Type 0} where
  -- Compacting a valid page keeps it valid and keeps every record at its slot id; afterwards the
  -- records fill the end of the page without a gap, and the free area is all zeros.
  pub compact-view :
      (p : Pager M)
      → IsValid p
      → let q = compact p in
        IsValid q
        × (view q ≡ view p)
        × (q.upper_offset + total p.slots ≡ 4096)
        × (read q.lower_offset (q.upper_offset - q.lower_offset) q.buffer
            ≡ zeros (q.upper_offset - q.lower_offset))
  unfolding compact cleared
  compact-view p v =
      let low = v.lower in
      let ord = v.ordered in
      let fits = v.fits in
      let r = repack 4096 p.buffer p.slots (view p) in
      let w : Packed 4096 p.buffer p.slots (view p) r =
        repack-Packed p.buffer p.upper_offset p.slots 4096 p.buffer v.size v.area (omega arith)
          (omega arith) v.size in
      let ends = w.ends in
      let size : length r.1.1 ≡ 4096 = w.size ∙ v.size in
      let free = r.0 - p.lower_offset in
      let (s₀, s₁, s₂) = cleared_lem p.lower_offset free r.1.1 (omega arith) in
      let valid : IsValid (compact p) = record {
        lower = omega (arith, w.count, v.lower);
        ordered = omega arith;
        upper = omega arith;
        size = s₀ ∙ size;
        bits = v.bits;
        area = w.area;
        disjoint = w.apart;
        fits = omega (arith, w.amount);
      } in
      (
        valid,
        map-same (InArea r.0) (slot_record (cleared p.lower_offset free r.1.1)) (slot_record r.1.1)
              (λ s a.
                record-same r.1.1 (cleared p.lower_offset free r.1.1) s
                  λ d. s₂ s.0 s.1 (omega (arith, (live r.0 s a d).0)))
              r.1.0 w.area
            ∙ w.records_kept,
        ends,
        s₁,
      )
