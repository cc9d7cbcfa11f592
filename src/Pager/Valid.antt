-- ===== src/Pager/Valid.antt =====
-- The invariant of a page and the abstract view of it: the records by slot.
use cachy_db.Base.{ℕ, ◌+◌, ◌*◌, ◌≤◌, ◌<◌, ◌≡◌, ◌⊎◌, Option, List, [], ◌∷◌, map, length, All}
use cachy_db.Bytes.{Bytes}
use cachy_db.Pager.{Pager, slot_record}

-- A slot that is deleted, or whose bytes lie between `upper` and the end of the page.
pub data InArea (upper : ℕ) (s : ℕ × ℕ) : Type 0 where
  deleted : s.0 ≡ 0 → s.1 ≡ 0 → InArea upper s
  active : upper ≤ s.0 → 0 < s.0 → 0 < s.1 → s.0 + s.1 ≤ 4096 → InArea upper s

-- No byte belongs to both slots.
abbrev pub Apart : ℕ × ℕ → ℕ × ℕ → Type 0
Apart s t = (s.0 + s.1 ≤ t.0) ⊎ ((t.0 + t.1 ≤ s.0) ⊎ ((s.1 ≡ 0) ⊎ (t.1 ≡ 0)))

abbrev pub Disjoint : List (ℕ × ℕ) → Type 0
Disjoint [] = Unit
Disjoint (s ∷ slots) = All (Apart s) slots × Disjoint slots

-- The bytes of all records.
abbrev pub total : List (ℕ × ℕ) → ℕ
total [] = 0
total (s ∷ slots) = s.1 + total slots

pub record IsValid {M : Type 0} (p : Pager M) : Type 0 where
  pub lower : p.lower_offset ≡ 20 + length p.slots * 4
  pub ordered : p.lower_offset ≤ p.upper_offset
  pub upper : p.upper_offset ≤ 4096
  pub size : length p.buffer ≡ 4096
  pub bits : p.flags ≤ 65535
  pub area : All (InArea p.upper_offset) p.slots
  pub disjoint : Disjoint p.slots
  pub fits : total p.slots + p.upper_offset ≤ 4096

abbrev pub view : {M : Type 0} → Pager M → List (Option Bytes)
view p = map (slot_record p.buffer) p.slots
