-- ===== src/Wal/Recovery/Writes.antt =====
-- A whole write of a batch, as a recovery reads it.
use cachy_db.Base.{
  ap₂, sym, ◌++◌, ◌<◌, ℕ, zero, suc, ◌+◌, ◌*◌, ◌%◌, ◌≤◌, ◌≡◌, refl, ap, subst, ◌∙◌, false, ltb,
  List, [], ◌∷◌, length, arith, take, drop, ok, All,
}
use cachy_db.Bytes.{Bytes, read}
use cachy_db.Bytes.Slices.{drop-nil}
use cachy_db.Wal.{write_at, write_batch, get_slot_index, validate_tx_id}
use cachy_db.Wal.Recovery.{read_entries, read_file}
use cachy_db.Wal.Recovery.Headers.{header, header_fields, file_header_lem}
use cachy_db.Wal.Recovery.Older.{
  EntryIn, read-write_at_above, length-write_at, read_entries-Same, read_entries-append,
}
use cachy_db.Wal.Recovery.Batch.{
  Holds, Loggable, block_of, headers_of, payload_block_lem, header_block_lem, pending,
  read_entries-headers_of, length-headers_of,
}

take-length : (p : Bytes) → take (length p) p ≡ p
take-length [] = refl
take-length (x ∷ p) = ap (◌∷◌ x) (take-length p)

take-write_at_here : (p f : Bytes) → read 0 (length p) (write_at 0 p f) ≡ p
unfolding write_at read
take-write_at_here [] f = refl
take-write_at_here (x ∷ p) [] = ap (◌∷◌ x) (take-length p)
take-write_at_here (x ∷ p) (y ∷ f) = ap (◌∷◌ x) (take-write_at_here p f)

write_at-Holds : (off : ℕ) (p f : Bytes) → Holds (write_at off p f) off p
unfolding write_at read
write_at-Holds zero p f = take-write_at_here p f
write_at-Holds (suc off) p [] = write_at-Holds off p []
write_at-Holds (suc off) p (x ∷ f) = write_at-Holds off p f

drop_past : (a : ℕ) (p : Bytes) → length p ≤ a → drop a p ≡ []
drop_past a [] h = drop-nil a
drop_past zero (x ∷ p) h = absurd (omega arith)
drop_past (suc a) (x ∷ p) h = drop_past a p (omega arith)

read-write_at_below :
    (off : ℕ) (p f : Bytes) (a n : ℕ)
    → off + length p ≤ a
    → read a n (write_at off p f) ≡ read a n f
unfolding write_at read
read-write_at_below zero [] f a n h = refl
read-write_at_below zero (x ∷ p) f zero n h = absurd (omega arith)
read-write_at_below zero (x ∷ p) [] (suc a) n h = ap (take n) (drop_past a p (omega arith))
read-write_at_below zero (x ∷ p) (y ∷ f) (suc a) n h =
    read-write_at_below zero p f a n (omega arith)
read-write_at_below (suc off) p f zero n h = absurd (omega arith)
read-write_at_below (suc off) p [] (suc a) n h =
    read-write_at_below off p [] a n (omega arith) ∙ ap (take n) (drop-nil a)
read-write_at_below (suc off) p (x ∷ f) (suc a) n h = read-write_at_below off p f a n (omega arith)

read_file_lem :
    (f : Bytes) (records used : ℕ)
    → read 0 32 f ≡ header records used
    → records ≤ 50000
    → used ≤ 104857600
    → read_file f ≡ read_entries f 0 records
unfolding read_file
read_file_lem f records used h r u =
    let (h₀, h₁, h₂, h₃, h₄, h₅, h₆) = header_fields records used r u in rw (h, h₀, h₁, h₂, h₅)

-- The file after a batch was written to it.
written : Bytes → List ℕ → List (ℕ × Bytes) → Bytes → ℕ → ℕ → Bytes
written timestamp completed batch f rec used =
    let f₁ = write_at (1250032 + used) (block_of batch) f in
    let f₂ = write_at (32 + rec * 25) (headers_of timestamp completed batch used) f₁ in
    write_at 0 (header (rec + length batch) (used + length (block_of batch))) f₂

write_batch_lem :
    (timestamp : Bytes) (completed : List ℕ) (batch : List (ℕ × Bytes)) (tx_id : ℕ) (f : Bytes)
    (rec used : ℕ)
    → All Loggable batch
    → read 0 32 f ≡ header rec used
    → tx_id ≤ 9223372036854775807
    → tx_id % 50000 ≡ rec
    → rec + length batch ≤ 50000
    → used + length (block_of batch) ≤ 104857600
    → write_batch timestamp completed batch tx_id f
      ≡ ok (written timestamp completed batch f rec used)
unfolding write_batch get_slot_index validate_tx_id written
write_batch_lem timestamp completed batch tx_id f rec used v h m s r u =
    let (h₀, h₁, h₂, h₃, h₄, h₅, h₆) = header_fields rec used (omega arith) (omega arith) in
    let valid : ltb 9223372036854775807 tx_id ≡ false = ground (arith, m) in
    rw (
      h,
      h₀,
      h₁,
      h₂,
      h₃,
      h₄,
      h₅,
      h₆,
      payload_block_lem batch used u,
      valid,
      s,
      header_block_lem timestamp completed batch used v u,
      file_header_lem (rec + length batch) (used + length (block_of batch)) r u,
    )

length-written :
    (timestamp : Bytes) (completed : List ℕ) (batch : List (ℕ × Bytes)) (f : Bytes) (rec used : ℕ)
    → length f ≤ length (written timestamp completed batch f rec used)
unfolding written
length-written timestamp completed batch f rec used =
    let f₁ = write_at (1250032 + used) (block_of batch) f in
    let f₂ = write_at (32 + rec * 25) (headers_of timestamp completed batch used) f₁ in
    omega (
      arith,
      length-write_at (1250032 + used) (block_of batch) f,
      length-write_at (32 + rec * 25) (headers_of timestamp completed batch used) f₁,
      length-write_at 0 (header (rec + length batch) (used + length (block_of batch))) f₂,
    )

module _ (timestamp : Bytes) (completed : List ℕ) (batch : List (ℕ × Bytes)) (f : Bytes)
    (rec used : ℕ) (t : length timestamp ≡ 8) (r : rec + length batch ≤ 50000)
    (u : used + length (block_of batch) ≤ 104857600) where
  written-header :
      read 0 32 (written timestamp completed batch f rec used)
      ≡ header (rec + length batch) (used + length (block_of batch))
  unfolding written
  written-header =
      let f₁ = write_at (1250032 + used) (block_of batch) f in
      let f₂ = write_at (32 + rec * 25) (headers_of timestamp completed batch used) f₁ in
      let top = header (rec + length batch) (used + length (block_of batch)) in
      let (k₀, k₁, k₂, k₃, k₄, k₅, k₆) =
        header_fields (rec + length batch) (used + length (block_of batch)) r u in
      subst (λ l. read 0 l (write_at 0 top f₂) ≡ top) k₀ (write_at-Holds 0 top f₂)

  -- What lies behind the header of the file is not touched by the write of the header.
  written_tail :
      (a n : ℕ)
      → 32 ≤ a
      → read a n (written timestamp completed batch f rec used)
        ≡ read a n (
            write_at
              (32 + rec * 25)
              (headers_of timestamp completed batch used)
              (write_at (1250032 + used) (block_of batch) f))
  unfolding written
  written_tail a n h =
      let f₁ = write_at (1250032 + used) (block_of batch) f in
      let f₂ = write_at (32 + rec * 25) (headers_of timestamp completed batch used) f₁ in
      let top = header (rec + length batch) (used + length (block_of batch)) in
      let (k₀, k₁, k₂, k₃, k₄, k₅, k₆) =
        header_fields (rec + length batch) (used + length (block_of batch)) r u in
      read-write_at_below 0 top f₂ a n (omega arith)

  written-new :
      All Loggable batch
      → read_entries (written timestamp completed batch f rec used) rec (length batch)
        ≡ pending completed batch
  written-new v =
      let headers = headers_of timestamp completed batch used in
      let f₁ = write_at (1250032 + used) (block_of batch) f in
      let size = length-headers_of timestamp completed batch used t in
      read_entries-headers_of (written timestamp completed batch f rec used) timestamp completed
        batch rec used t v u
        (written_tail (32 + rec * 25) (length headers) (omega arith)
          ∙ write_at-Holds (32 + rec * 25) headers f₁)
        (written_tail (1250032 + used) (length (block_of batch)) (omega arith)
          ∙ (read-write_at_below (32 + rec * 25) headers f₁ (1250032 + used)
                (length (block_of batch)) (omega arith)
              ∙ write_at-Holds (1250032 + used) (block_of batch) f))

  written-old :
      32 + rec * 25 ≤ length f
      → ((j : ℕ) → j < rec → EntryIn f (1250032 + used) j)
      → read_entries (written timestamp completed batch f rec used) 0 rec ≡ read_entries f 0 rec
  written-old l e =
      let g = written timestamp completed batch f rec used in
      let headers = headers_of timestamp completed batch used in
      let f₁ = write_at (1250032 + used) (block_of batch) f in
      let size = length-headers_of timestamp completed batch used t in
      let long = length-write_at (1250032 + used) (block_of batch) f in
      read_entries-Same f g (1250032 + used) 0 rec (λ j h. e j (omega arith))
        (λ j h.
          written_tail (32 + j * 25) 25 (omega arith)
          ∙ (read-write_at_above (32 + rec * 25) headers f₁ (32 + j * 25) 25 (omega arith)
                (omega arith)
              ∙ read-write_at_above (1250032 + used) (block_of batch) f (32 + j * 25) 25
                  (omega arith) (omega arith)))
        (λ a m h k w.
          written_tail a m (omega arith)
          ∙ (read-write_at_below (32 + rec * 25) headers f₁ a m (omega arith)
              ∙ read-write_at_above (1250032 + used) (block_of batch) f a m k (omega arith)))

-- Writing a batch of transactions with valid ids and non-empty payloads to a log file that has a
-- valid header of `rec` entries and `used` bytes, whose entries and payloads lie in their areas, that
-- has room for the batch, and whose next free slot is that of the batch: the write succeeds, the new
-- header counts the batch, and a recovery reads from the file what it read before, followed by
-- exactly the transactions of the batch that are not completed.
pub read_file-write_batch :
    (timestamp : Bytes) (completed : List ℕ) (batch : List (ℕ × Bytes)) (first_tx_id : ℕ)
    (f : Bytes) (rec used : ℕ)
    → length timestamp ≡ 8
    → All Loggable batch
    → read 0 32 f ≡ header rec used
    → 32 + rec * 25 ≤ length f
    → ((j : ℕ) → j < rec → EntryIn f (1250032 + used) j)
    → first_tx_id ≤ 9223372036854775807
    → first_tx_id % 50000 ≡ rec
    → rec + length batch ≤ 50000
    → used + length (block_of batch) ≤ 104857600
    → (g : Bytes) × (write_batch timestamp completed batch first_tx_id f ≡ ok g)
      × (read_file g ≡ read_file f ++ pending completed batch)
      × (read 0 32 g ≡ header (rec + length batch) (used + length (block_of batch)))
read_file-write_batch timestamp completed batch tx_id f rec used t v h l e m s r u =
    let g = written timestamp completed batch f rec used in
    let top = written-header timestamp completed batch f rec used t r u in
    let long = length-written timestamp completed batch f rec used in
    let z : 0 + rec ≡ rec = omega arith in
    (
      g,
      write_batch_lem timestamp completed batch tx_id f rec used v h m s r u,
      read_file_lem g (rec + length batch) (used + length (block_of batch)) top r u
          ∙ (read_entries-append g 0 rec (length batch) (omega arith)
              ∙ (ap₂ (◌++◌) (written-old timestamp completed batch f rec used t r u l e) (
                    ap (λ k. read_entries g k (length batch)) z
                    ∙ written-new timestamp completed batch f rec used t r u v)
                  ∙ ap (λ x. x ++ pending completed batch)
                      (sym (read_file_lem f rec used h (omega arith) (omega arith))))),
      top,
    )
