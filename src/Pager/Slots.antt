-- ===== src/Pager/Slots.antt =====
-- The slot directory as bytes, packed and loaded.
use cachy_db.Base.{
  ℕ, suc, ◌+◌, ◌*◌, ◌<◌, ◌≡◌, refl, ap, subst, ◌∙◌, false, ◌||◌, ◌==◌, not, ltb, List, [], ◌∷◌,
  ◌++◌, length, All, arith, if◌then◌else◌, length-append, ok, append_assoc,
}
use cachy_db.Bytes.{Bytes, read, bytes2}
use cachy_db.Bytes.Slices.{read-append_skip}
use cachy_db.Bytes.Widths.{from_big-bytes2, pack_h_lem}
use cachy_db.Pager.{pack_slots, load_slot, load_slots}
use cachy_db.Pager.Valid.{InArea}

pub slots_bytes : List (ℕ × ℕ) → Bytes
slots_bytes [] = []
slots_bytes (s ∷ slots) = bytes2 s.0 ++ (bytes2 s.1 ++ slots_bytes slots)

pub length-slots_bytes : (slots : List (ℕ × ℕ)) → length (slots_bytes slots) ≡ length slots * 4
unfolding slots_bytes
length-slots_bytes [] = omega arith
length-slots_bytes (s ∷ slots) = omega (arith, length-slots_bytes slots)

slot_bound : (u : ℕ) (s : ℕ × ℕ) → InArea u s → (s.0 < 65536) × (s.1 < 65536)
slot_bound u s (InArea.deleted a b) = (omega arith, omega arith)
slot_bound u s (InArea.active a b c d) = (omega arith, omega arith)

pub pack_slots_lem :
    (u : ℕ) (slots : List (ℕ × ℕ))
    → All (InArea u) slots
    → pack_slots slots ≡ ok (slots_bytes slots)
unfolding pack_slots slots_bytes
pack_slots_lem u [] a = refl
pack_slots_lem u (s ∷ slots) a =
    let (b₀, b₁) = slot_bound u s a.0 in
    rw (pack_h_lem s.0 b₀, pack_h_lem s.1 b₁, pack_slots_lem u slots a.1)

slot_test :
    (u : ℕ) (s : ℕ × ℕ)
    → InArea u s
    → (if s.0 == 0 then not (s.1 == 0) else (ltb s.0 u || ltb 4096 (s.0 + s.1))) ≡ false
slot_test u s (InArea.deleted a b) = ground arith
slot_test u s (InArea.active a b c d) = ground arith

load_slot_lem :
    (u : ℕ) (s : ℕ × ℕ) (front rest : Bytes) (i : ℕ)
    → length front ≡ i * 4
    → InArea u s
    → load_slot u (front ++ (bytes2 s.0 ++ (bytes2 s.1 ++ rest))) i ≡ ok s
unfolding load_slot read
load_slot_lem u s front rest i l a =
    let (b₀, b₁) = slot_bound u s a in
    let entry : read (i * 4) 4 (front ++ (bytes2 s.0 ++ (bytes2 s.1 ++ rest)))
        ≡ bytes2 s.0 ++ bytes2 s.1 =
      ap (λ k. read k 4 (front ++ (bytes2 s.0 ++ (bytes2 s.1 ++ rest)))) (omega arith)
      ∙ read-append_skip front (bytes2 s.0 ++ (bytes2 s.1 ++ rest)) 0 4 in
    let e₀ = from_big-bytes2 s.0 b₀ in
    let e₁ = from_big-bytes2 s.1 b₁ in rw (entry, e₀, e₁, slot_test u s a)

pub load_slots_lem :
    (u : ℕ) (slots : List (ℕ × ℕ)) (front : Bytes) (i : ℕ)
    → length front ≡ i * 4
    → All (InArea u) slots
    → load_slots u (front ++ slots_bytes slots) i (length slots) ≡ ok slots
unfolding load_slots slots_bytes
load_slots_lem u [] front i l a = refl
load_slots_lem u (s ∷ slots) front i l a =
    let entry = bytes2 s.0 ++ bytes2 s.1 in
    let rest = slots_bytes slots in
    let later : load_slots u (front ++ (bytes2 s.0 ++ (bytes2 s.1 ++ rest))) (suc i) (length slots)
        ≡ ok slots =
      subst (λ area. load_slots u area (suc i) (length slots) ≡ ok slots)
        (append_assoc front entry rest)
        (load_slots_lem u slots (front ++ entry) (suc i) (omega (arith, length-append front entry))
          a.1) in
    rw (load_slot_lem u s front rest i l a.0, later)
