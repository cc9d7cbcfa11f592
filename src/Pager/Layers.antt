-- ===== src/Pager/Layers.antt =====
-- The buffer with the slots, the header and the checksum written into it.
use cachy_db.Base.{ℕ, ◌+◌, ◌≤◌, ◌≡◌, refl, ap, subst, ◌∙◌, length, arith}
use cachy_db.Bytes.{Bytes, read, write, zeros}
use cachy_db.Bytes.Slices.{
  length-write, read-write_above, read-write_below, read-write_self, read-write_inside, write-write,
}
use cachy_db.Pager.{clear_checksum}

-- The buffer that `to_bytes` leaves: the slots, the header and the checksum written into it.
unfoldable pub unchecked : Bytes → Bytes → Bytes → Bytes
unchecked h sb b = clear_checksum (write 0 h (write 20 sb b))

unfoldable pub raw : Bytes → Bytes → Bytes → Bytes → Bytes
raw h sb ck b = write 16 ck (unchecked h sb b)

module _ (h sb ck b : Bytes) (lh : length h ≡ 16) (lc : length ck ≡ 4) (ls : 20 + length sb ≤ 4096)
    (lb : length b ≡ 4096) where
  pub length-layers :
      (length (write 20 sb b) ≡ 4096)
      × (length (write 0 h (write 20 sb b)) ≡ 4096)
      × (length (unchecked h sb b) ≡ 4096)
      × (length (raw h sb ck b) ≡ 4096)
  unfolding raw unchecked zeros
  length-layers =
      let l₁ = length-write 20 sb b (omega arith) in
      let l₂ = length-write 0 h (write 20 sb b) (omega arith) in
      let l₃ = length-write 16 (zeros 4) (write 0 h (write 20 sb b)) (omega arith) in
      let l₄ = length-write 16 ck (write 16 (zeros 4) (write 0 h (write 20 sb b))) (omega arith) in
      (omega arith, omega arith, omega arith, omega arith)

  pub read-header : (a n : ℕ) → a + n ≤ 16 → read a n (raw h sb ck b) ≡ read a n h
  unfolding raw unchecked
  read-header a n l =
      let (l₁, l₂, l₃, l₄) = length-layers in
      let b₁ = write 20 sb b in
      read-write_above 16 a n ck (unchecked h sb b) l (omega arith)
      ∙ (read-write_above 16 a n (zeros 4) (write 0 h b₁) l (omega arith)
          ∙ (ap (λ k. read k n (write 0 h b₁)) (omega arith)
              ∙ read-write_inside 0 a n h b₁ (omega arith) (omega arith)))

  pub read-after : (a n : ℕ) → 20 ≤ a → read a n (raw h sb ck b) ≡ read a n (write 20 sb b)
  unfolding raw unchecked zeros
  read-after a n l =
      let (l₁, l₂, l₃, l₄) = length-layers in
      let b₁ = write 20 sb b in
      read-write_below 16 a n ck (unchecked h sb b) (omega arith) (omega arith)
      ∙ (read-write_below 16 a n (zeros 4) (write 0 h b₁) (omega arith) (omega arith)
          ∙ read-write_below 0 a n h b₁ (omega arith) (omega arith))

  pub read-slots : read 20 (length sb) (raw h sb ck b) ≡ sb
  read-slots = read-after 20 (length sb) (omega arith) ∙ read-write_self 20 sb b (omega arith)

  pub read-checksum : read 16 4 (raw h sb ck b) ≡ ck
  unfolding raw
  read-checksum =
      let (l₁, l₂, l₃, l₄) = length-layers in
      subst (λ n. read 16 n (raw h sb ck b) ≡ ck) lc
        (read-write_self 16 ck (unchecked h sb b) (omega arith))

  pub clear_checksum-raw : clear_checksum (raw h sb ck b) ≡ unchecked h sb b
  unfolding raw unchecked zeros
  clear_checksum-raw =
      let (l₁, l₂, l₃, l₄) = length-layers in
      let b₂ = write 0 h (write 20 sb b) in
      write-write 16 (zeros 4) ck (clear_checksum b₂) (omega arith) (omega arith)
      ∙ write-write 16 (zeros 4) (zeros 4) b₂ refl (omega arith)
