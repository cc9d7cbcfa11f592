-- ===== src/Wal/Buffer.antt =====
-- The buffer: the transactions in it are numbered without a gap up to the next id.
use cachy_db.Base.{
  ℕ, zero, suc, ◌+◌, ◌≤◌, ◌≡◌, refl, sym, ap, ◌∙◌, ◌&&◌, leb, ltb, List, [], ◌∷◌, ◌++◌, map, length,
  append_assoc, append-nil, arith,
}
use cachy_db.Base.Dict.{nat_eq, mem}
use cachy_db.Bytes.{Bytes}
use cachy_db.Wal.{Wal, append_to_buffer, append_many_to_buffer}
use cachy_db.Wal.Disk.{in_buffer, last_tx_id}

-- The ids from `first` to before `next`, in order.
abbrev pub Numbered : ℕ → List (ℕ × Bytes) → ℕ → Type 0
Numbered first [] next = first ≡ next
Numbered first (entry ∷ buffer) next = (entry.0 ≡ first) × Numbered (suc first) buffer next

-- `n` ids from `first` on
abbrev pub count_from : ℕ → ℕ → List ℕ
count_from first zero = []
count_from first (suc n) = first ∷ count_from (suc first) n

abbrev pub payloads : List (ℕ × Bytes) → List Bytes
payloads buffer = map (λ entry. entry.1) buffer

payloads-append :
    (xs : List (ℕ × Bytes)) (t : ℕ) (r : Bytes)
    → payloads (xs ++ (t, r) ∷ []) ≡ payloads xs ++ r ∷ []
payloads-append [] t r = refl
payloads-append (x ∷ xs) t r = ap (◌∷◌ x.1) (payloads-append xs t r)

append-Numbered :
    (first : ℕ) (buffer : List (ℕ × Bytes)) (next : ℕ) (r : Bytes)
    → Numbered first buffer next
    → Numbered first (buffer ++ (next, r) ∷ []) (next + 1)
append-Numbered first [] next r h = (sym h, omega arith)
append-Numbered first (x ∷ buffer) next r h = (h.0, append-Numbered (suc first) buffer next r h.1)

-- Appending records to a buffer whose ids are consecutive up to the next id: the records get the next
-- ids, in order and without a gap, they are appended to the payloads of the buffer, and the ids of
-- the buffer are again consecutive up to the next id.
pub append_many_to_buffer-Numbered :
    (w : Wal) (first : ℕ) (records : List Bytes)
    → Numbered first w.wal_buffer w.global_tx_id
    → let r = append_many_to_buffer w records in
      Numbered first r.0.wal_buffer r.0.global_tx_id
      × (r.1 ≡ count_from w.global_tx_id (length records))
      × (payloads r.0.wal_buffer ≡ payloads w.wal_buffer ++ records)
      × (r.0.global_tx_id ≡ w.global_tx_id + length records)
unfolding append_many_to_buffer append_to_buffer
append_many_to_buffer-Numbered w first [] h =
    (h, refl, sym (append-nil (payloads w.wal_buffer)), omega arith)
append_many_to_buffer-Numbered w first (r ∷ records) h =
    let w' = (append_to_buffer w r).0 in
    let (i₀, i₁, i₂, i₃) =
      append_many_to_buffer-Numbered w' first records
        (append-Numbered first w.wal_buffer w.global_tx_id r h) in
    let e : w.global_tx_id + 1 ≡ suc w.global_tx_id = omega arith in
    (
      i₀,
      ap (◌∷◌ w.global_tx_id) (i₁ ∙ ap (λ k. count_from k (length records)) e),
      i₂
          ∙ (ap (λ l. l ++ records) (payloads-append w.wal_buffer w.global_tx_id r)
              ∙ append_assoc (payloads w.wal_buffer) (r ∷ []) records),
      omega arith,
    )

last_tx_id-Numbered :
    (first : ℕ) (buffer : List (ℕ × Bytes)) (next id : ℕ)
    → Numbered first buffer next
    → suc id ≡ first
    → suc (last_tx_id buffer id) ≡ next
last_tx_id-Numbered first [] next id h e = omega arith
last_tx_id-Numbered first (x ∷ buffer) next id h e =
    last_tx_id-Numbered (suc first) buffer next x.0 h.1 (omega (arith, h.0))

Numbered-le :
    (first : ℕ) (buffer : List (ℕ × Bytes)) (next : ℕ) → Numbered first buffer next → first ≤ next
Numbered-le first [] next h = omega arith
Numbered-le first (x ∷ buffer) next h = omega (arith, Numbered-le (suc first) buffer next h.1)

mem-Numbered :
    (first : ℕ) (buffer : List (ℕ × Bytes)) (next tx_id : ℕ)
    → Numbered first buffer next
    → mem tx_id (map (λ entry. entry.0) buffer) ≡ (leb first tx_id && ltb tx_id next)
unfolding mem
mem-Numbered first [] next tx_id h = ground arith
mem-Numbered first (x ∷ buffer) next tx_id h =
    let e = h.0 in
    ground (
      arith,
      e,
      mem-Numbered (suc first) buffer next tx_id h.1,
      Numbered-le (suc first) buffer next h.1,
    )

-- In such a buffer the test of the first and the last id finds exactly the transactions that are in
-- the buffer.
pub in_buffer-mem :
    (first : ℕ) (buffer : List (ℕ × Bytes)) (next tx_id : ℕ)
    → Numbered first buffer next
    → in_buffer buffer tx_id ≡ mem tx_id (map (λ entry. entry.0) buffer)
unfolding in_buffer mem
in_buffer-mem first [] next tx_id h = refl
in_buffer-mem first (x ∷ buffer) next tx_id h =
    let e = h.0 in
    let last = last_tx_id-Numbered (suc first) buffer next x.0 h.1 (omega arith) in
    ground (arith, e, last, mem-Numbered first (x ∷ buffer) next tx_id h)
