-- ===== src/Pager/Reads.antt =====
-- What a write into the buffer leaves of the records.
use cachy_db.Base.{
  ℕ, zero, suc, ◌+◌, ◌≤◌, ◌<◌, ◌≡◌, refl, ap, ap₂, subst, inl, inr, false, none, some, List, [],
  ◌∷◌, map, length, All, All-get_elem?, get_elem?, set, arith, Bool-cases,
}
use cachy_db.Bytes.{Bytes, read, write}
use cachy_db.Bytes.Slices.{read-write_above, read-write_below}
use cachy_db.Pager.{is_deleted, slot_record}
use cachy_db.Pager.Valid.{InArea, Apart, Disjoint}

pub live :
    (u : ℕ) (s : ℕ × ℕ)
    → InArea u s
    → is_deleted s ≡ false
    → (u ≤ s.0) × (0 < s.0) × (0 < s.1) × (s.0 + s.1 ≤ 4096)
live u s (InArea.deleted a b) e = ground arith
live u s (InArea.active a b c d) e = (a, b, c, d)

pub area_lower : (u v : ℕ) (s : ℕ × ℕ) → v ≤ u → InArea u s → InArea v s
area_lower u v s h (InArea.deleted a b) = InArea.deleted a b
area_lower u v s h (InArea.active a b c d) = InArea.active (omega arith) b c d

pub record-same :
    (b b' : Bytes) (s : ℕ × ℕ)
    → (is_deleted s ≡ false → read s.0 s.1 b' ≡ read s.0 s.1 b)
    → slot_record b' s ≡ slot_record b s
record-same b b' s h = elim (Bool-cases (is_deleted s)) [
  | inl e ↦ rw e
  | inr e ↦ rw e (ap some (h e))
]

pub map-same {ℓ κ μ} :
    {A : Type ℓ} {B : Type κ} (P : A → Type μ) (f g : A → B)
    → ((a : A) → P a → f a ≡ g a)
    → (xs : List A) → All P xs
    → map f xs ≡ map g xs
map-same P f g h [] v = refl
map-same P f g h (x ∷ xs) v = ap₂ (◌∷◌) (h x v.0) (map-same P f g h xs v.1)

pub All-imp {ℓ κ μ} :
    {A : Type ℓ} (P : A → Type κ) (Q : A → Type μ)
    → ((a : A) → P a → Q a)
    → (xs : List A) → All P xs
    → All Q xs
All-imp P Q h [] v = tt
All-imp P Q h (x ∷ xs) v = (h x v.0, All-imp P Q h xs v.1)

-- A write below the records.
pub record-write_below :
    (u off : ℕ) (p b : Bytes)
    → off + length p ≤ u
    → u ≤ length b
    → (s : ℕ × ℕ) → InArea u s
    → slot_record (write off p b) s ≡ slot_record b s
record-write_below u off p b h k s a =
    record-same b (write off p b) s
      λ e. read-write_below off s.0 s.1 p b (omega (arith, (live u s a e).0)) (omega arith)

-- A write over a record that another does not share.
pub record-write-Apart :
    (u : ℕ) (s : ℕ × ℕ) (p b : Bytes)
    → InArea u s
    → is_deleted s ≡ false
    → length p ≡ s.1
    → length b ≡ 4096
    → (t : ℕ × ℕ) → Apart s t × InArea u t
    → slot_record (write s.0 p b) t ≡ slot_record b t
record-write-Apart u s p b a d l k t v = record-same b (write s.0 p b) t λ e.
    let (l0, l1, l2, l3) = live u s a d in
    let (m0, m1, m2, m3) = live u t v.1 e in
    elim v.0 [
      | inl x ↦ read-write_below s.0 t.0 t.1 p b (omega arith) (omega arith)
      | inr (inl x) ↦ read-write_above s.0 t.0 t.1 p b (omega arith) (omega arith)
      | inr (inr (inl x)) ↦ absurd (omega arith)
      | inr (inr (inr x)) ↦ absurd (omega arith)
    ]

pub Apart-sym : (s t : ℕ × ℕ) → Apart s t → Apart t s
Apart-sym s t (inl x) = inr (inl x)
Apart-sym s t (inr (inl x)) = inl x
Apart-sym s t (inr (inr (inl x))) = inr (inr (inr x))
Apart-sym s t (inr (inr (inr x))) = inr (inr (inl x))

pub All-zip {ℓ κ μ} :
    {A : Type ℓ} (P : A → Type κ) (Q : A → Type μ) (xs : List A)
    → All P xs
    → All Q xs
    → All (λ a. P a × Q a) xs
All-zip P Q [] v w = tt
All-zip P Q (x ∷ xs) v w = ((v.0, w.0), All-zip P Q xs v.1 w.1)

-- The records after a slot's bytes are overwritten and the slot is marked.
pub map-delete :
    (u : ℕ) (slots : List (ℕ × ℕ)) (i : ℕ) (s : ℕ × ℕ) (p b : Bytes)
    → All (InArea u) slots
    → Disjoint slots
    → get_elem? slots i ≡ some s
    → is_deleted s ≡ false
    → length p ≡ s.1
    → length b ≡ 4096
    → map (slot_record (write s.0 p b)) (set slots i (0, 0))
      ≡ set (map (slot_record b) slots) i none
map-delete u [] i s p b a d e g l k = cc
map-delete u (x ∷ slots) zero s p b a d e g l k =
    let q : x ≡ s = cc in
    let a' : InArea u s = subst (InArea u) q a.0 in
    let d' : All (Apart s) slots = subst (λ y. All (Apart y) slots) q d.0 in
    ap (◌∷◌ none) (
      map-same (λ t. Apart s t × InArea u t) (slot_record (write s.0 p b)) (slot_record b)
        (record-write-Apart u s p b a' g l k) slots (All-zip (Apart s) (InArea u) slots d' a.1))
map-delete u (x ∷ slots) (suc i) s p b a d e g l k =
    ap₂ (◌∷◌)
      (record-write-Apart u s p b (All-get_elem? (InArea u) slots i a.1 e) g l k x
        (Apart-sym x s (All-get_elem? (Apart x) slots i d.0 e), a.0))
      (map-delete u slots i s p b a.1 d.1 e g l k)
