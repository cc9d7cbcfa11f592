-- ===== src/Wal/Recovery/Marks.antt =====
-- What marking an entry on disk changes for a recovery.
use cachy_db.Base.{
  ℕ, zero, suc, ◌+◌, ◌*◌, ◌≤◌, ◌<◌, ◌≡◌, ◌≢◌, refl, ap, sym, ◌∙◌, true, not, ◌==◌, ltb, ltb→lt,
  Bool-cases, inl, inr, [], ◌∷◌, length, arith,
}
use cachy_db.Bytes.{Bytes, read, write, from_big, from_big_at}
use cachy_db.Bytes.Slices.{read-write_self, read-write_above, read-write_below, read-read}
use cachy_db.Wal.{write_at, wal_file_header_size, wal_entry_header_size}
use cachy_db.Wal.Disk.{mark_entry}
use cachy_db.Wal.Recovery.{entry_data, is_completed, current_records}

-- A write that does not pass the end of the file.
pub write_at-write :
    (off : ℕ) (p f : Bytes) → off + length p ≤ length f → write_at off p f ≡ write off p f
unfolding write_at write
write_at-write zero [] f h = refl
write_at-write zero (x ∷ p) [] h = absurd (omega arith)
write_at-write zero (x ∷ p) (y ∷ f) h = ap (◌∷◌ x) (write_at-write zero p f (omega arith))
write_at-write (suc off) p [] h = absurd (omega arith)
write_at-write (suc off) p (x ∷ f) h = ap (◌∷◌ x) (write_at-write off p f (omega arith))

-- Marking a slot of a file that is long enough: that entry is completed afterwards and keeps its
-- transaction id, the record count stays, and every other entry is unchanged.
pub mark_entry-entry_data :
    (slot i : ℕ) (f : Bytes)
    → wal_file_header_size + slot * wal_entry_header_size + wal_entry_header_size ≤ length f
    → i ≢ slot
    → (is_completed (entry_data (mark_entry slot f) slot) ≡ true)
      × (read 0 8 (entry_data (mark_entry slot f) slot) ≡ read 0 8 (entry_data f slot))
      × (current_records (mark_entry slot f) ≡ current_records f)
      × (entry_data (mark_entry slot f) i ≡ entry_data f i)
unfolding mark_entry from_big from_big_at
mark_entry-entry_data slot i f h d =
    let off = 32 + slot * 25 + 16 in
    let e : write_at off (1 ∷ []) f ≡ write off (1 ∷ []) f =
      write_at-write off (1 ∷ []) f (omega arith) in
    let g = write off (1 ∷ []) f in
    let start = 32 + slot * 25 in
    let flag : read 16 1 (read start 25 g) ≡ 1 ∷ [] =
      read-read start 25 16 1 g (omega arith) ∙ read-write_self off (1 ∷ []) f (omega arith) in
    rw e (
      ap (λ b. not (from_big b == 0)) flag,
      read-read start 25 0 8 g (omega arith)
          ∙ (read-write_above off (start + 0) 8 (1 ∷ []) f (omega arith) (omega arith)
              ∙ (ap (λ k. read k 8 f) (omega arith)
                  ∙ sym (read-read start 25 0 8 f (omega arith)))),
      ap from_big (read-write_above off 8 4 (1 ∷ []) f (omega arith) (omega arith)),
      elim (Bool-cases (ltb i slot)) [
        | inl l ↦
            let l' = ltb→lt i slot l in
            read-write_above off (32 + i * 25) 25 (1 ∷ []) f (omega arith) (omega arith)
        | inr l ↦
            let l' : slot < i = ground (arith, l) in
            read-write_below off (32 + i * 25) 25 (1 ∷ []) f (omega arith) (omega arith)
      ],
    )
