-- ===== src/Wal/Recovery/Batch.antt =====
-- A batch that was written to a log file, as a recovery reads it.
use cachy_db.Base.{
  ℕ, suc, ◌+◌, ◌*◌, ◌≤◌, ◌<◌, ◌≡◌, refl, sym, ap, subst, ◌∙◌, Bool, true, false, not, ◌||◌, ◌==◌,
  leb, ltb, List, [], ◌∷◌, ◌++◌, length, length-append, append-nil, arith, if◌then◌else◌, ok, some,
  All,
}
use cachy_db.Base.Dict.{nat_eq, mem}
use cachy_db.Bytes.{Bytes, read, from_big, from_big_at, bytes4, bytes8}
use cachy_db.Bytes.Slices.{read-read, read-append_skip, read-append_here}
use cachy_db.Bytes.Widths.{from_big-bytes4, from_big-bytes8, pack_i_lem, pack_q_lem}
use cachy_db.Wal.{
  payload_block, header_block, create_entry_header, validate_payload_size, validate_tx_id,
}
use cachy_db.Wal.Recovery.{read_entries, read_payload, is_completed}

-- The bytes `p` stand at `off`.
abbrev pub Holds : Bytes → ℕ → Bytes → Type 0
Holds g off p = read off (length p) g ≡ p

-- The payloads and the entry headers of a batch as bytes.
unfoldable pub with_length : Bytes → Bytes
with_length payload = bytes4 (length payload) ++ payload

unfoldable pub block_of : List (ℕ × Bytes) → Bytes
unfolding with_length
block_of [] = []
block_of (e ∷ batch) = with_length e.1 ++ block_of batch

pub offsets_of : List (ℕ × Bytes) → ℕ → List ℕ
unfolding with_length
offsets_of [] used = []
offsets_of (e ∷ batch) used = (1250032 + used) ∷ offsets_of batch (used + length (with_length e.1))

pub entry_of : Bytes → ℕ → ℕ → Bool → Bytes
entry_of timestamp tx_id offset completed =
    bytes8 tx_id ++ (timestamp ++ (if completed then 1 else 0) ∷ bytes8 offset)

pub headers_of : Bytes → List ℕ → List (ℕ × Bytes) → ℕ → Bytes
unfolding entry_of with_length
headers_of timestamp completed [] used = []
headers_of timestamp completed (e ∷ batch) used =
    entry_of timestamp e.0 (1250032 + used) (mem e.0 completed)
    ++ headers_of timestamp completed batch (used + length (with_length e.1))

-- An id in range and a payload that is not empty.
abbrev pub Loggable : ℕ × Bytes → Type 0
Loggable e = (e.0 ≤ 9223372036854775807) × (0 < length e.1)

length-with_length : (p : Bytes) → length (with_length p) ≡ length p + 4
unfolding with_length
length-with_length p = omega arith

validate_payload_size_lem :
    (p : Bytes) (used : ℕ) → used + length p ≤ 104857600 → validate_payload_size p used ≡ ok tt
unfolding validate_payload_size
validate_payload_size_lem p used h = ground arith

pub payload_block_lem :
    (batch : List (ℕ × Bytes)) (used : ℕ)
    → used + length (block_of batch) ≤ 104857600
    → payload_block batch used
      ≡ ok (offsets_of batch used, (block_of batch, used + length (block_of batch)))
unfolding payload_block block_of offsets_of with_length
payload_block_lem [] used h = let z : used ≡ used + 0 = omega arith in ap (λ n. ok ([], ([], n))) z
payload_block_lem (e ∷ batch) used h =
    let l = length-append (with_length e.1) (block_of batch) in
    let m = length-with_length e.1 in
    let rest = payload_block_lem batch (used + length (with_length e.1)) (omega arith) in
    let total : used + length (with_length e.1) + length (block_of batch)
        ≡ used + length (with_length e.1 ++ block_of batch) =
      omega arith in
    rw
      (
        pack_i_lem (length e.1) (omega arith),
        validate_payload_size_lem (with_length e.1) used (omega arith),
        rest,
      )
      (ap
        (λ n. ok (
          (1250032 + used) ∷ offsets_of batch (used + length (with_length e.1)),
          (with_length e.1 ++ block_of batch, n),
        ))
        total)

create_entry_header_lem :
    (timestamp : Bytes) (tx_id offset : ℕ) (completed : Bool)
    → tx_id ≤ 9223372036854775807
    → offset ≤ 9223372036854775807
    → create_entry_header timestamp tx_id offset completed
      ≡ ok (entry_of timestamp tx_id offset completed)
unfolding create_entry_header validate_tx_id entry_of
create_entry_header_lem timestamp tx_id offset completed h k =
    let a : ltb 9223372036854775807 tx_id ≡ false = ground arith in
    rw (a, pack_q_lem tx_id (omega arith), pack_q_lem offset (omega arith))

pub header_block_lem :
    (timestamp : Bytes) (completed : List ℕ) (batch : List (ℕ × Bytes)) (used : ℕ)
    → All Loggable batch
    → used + length (block_of batch) ≤ 104857600
    → header_block timestamp completed batch (offsets_of batch used)
      ≡ ok (headers_of timestamp completed batch used)
unfolding header_block headers_of offsets_of block_of
header_block_lem timestamp completed [] used v h = refl
header_block_lem timestamp completed (e ∷ batch) used v h =
    let l = length-append (with_length e.1) (block_of batch) in
    rw (
      create_entry_header_lem timestamp e.0 (1250032 + used) (mem e.0 completed) v.0.0
          (omega arith),
      header_block_lem timestamp completed batch (used + length (with_length e.1)) v.1
          (omega arith),
    )

-- The records of a batch that are not completed.
pub pending : List ℕ → List (ℕ × Bytes) → List (ℕ × Bytes)
pending completed [] = []
pending completed (e ∷ batch) =
    let rest = pending completed batch in if mem e.0 completed then rest else e ∷ rest

Holds-read :
    (g : Bytes) (off : ℕ) (p : Bytes) (a n : ℕ)
    → Holds g off p
    → a + n ≤ length p
    → read (off + a) n g ≡ read a n p
Holds-read g off p a n h l = sym (read-read off (length p) a n g l) ∙ ap (read a n) h

Holds-left : (g : Bytes) (off : ℕ) (p q : Bytes) → Holds g off (p ++ q) → Holds g off p
Holds-left g off p q h =
    let l = length-append p q in
    ap (λ n. read n (length p) g) (omega arith)
    ∙ (Holds-read g off (p ++ q) 0 (length p) h (omega arith) ∙ read-append_here p q)

Holds-right :
    (g : Bytes) (off : ℕ) (p q : Bytes) → Holds g off (p ++ q) → Holds g (off + length p) q
Holds-right g off p q h =
    let l = length-append p q in
    Holds-read g off (p ++ q) (length p) (length q) h (omega arith)
    ∙ (ap (λ n. read n (length q) (p ++ q)) (omega arith)
        ∙ (read-append_skip p q 0 (length q)
            ∙ (ap (λ m. read 0 (length q) m) (sym (append-nil q)) ∙ read-append_here q [])))

pub length-entry_of :
    (timestamp : Bytes) (tx_id offset : ℕ) (completed : Bool)
    → length timestamp ≡ 8
    → length (entry_of timestamp tx_id offset completed) ≡ 25
unfolding entry_of
length-entry_of timestamp tx_id offset completed t =
    let l = length-append timestamp ((if completed then 1 else 0) ∷ bytes8 offset) in omega arith

-- The fields of an entry.
entry_fields :
    (timestamp : Bytes) (tx_id offset : ℕ) (completed : Bool)
    → length timestamp ≡ 8
    → let entry = entry_of timestamp tx_id offset completed in
      (read 0 8 entry ≡ bytes8 tx_id)
      × (read 16 1 entry ≡ (if completed then 1 else 0) ∷ [])
      × (read 17 8 entry ≡ bytes8 offset)
unfolding entry_of read
entry_fields timestamp tx_id offset completed t =
    let tail = (if completed then 1 else 0) ∷ bytes8 offset in
    let skip : (a n : ℕ)
        → read (8 + (8 + a)) n (bytes8 tx_id ++ (timestamp ++ tail)) ≡ read a n tail =
      λ a n.
        read-append_skip (bytes8 tx_id) (timestamp ++ tail) (8 + a) n
        ∙ subst (λ m. read (m + a) n (timestamp ++ tail) ≡ read a n tail) t
            (read-append_skip timestamp tail a n) in
    (read-append_here (bytes8 tx_id) (timestamp ++ tail), skip 0 1, skip 1 8)

flag_bit : (b : Bool) → not (from_big ((if b then 1 else 0) ∷ []) == 0) ≡ b
unfolding from_big from_big_at
flag_bit true = refl
flag_bit false = refl

-- What the reader finds at one entry.
entry_read :
    (g timestamp : Bytes) (e : ℕ × Bytes) (offset : ℕ) (completed : Bool)
    → length timestamp ≡ 8
    → Loggable e
    → length e.1 + 4 ≤ 104857600
    → offset ≤ 106107632
    → Holds g offset (with_length e.1)
    → let entry = entry_of timestamp e.0 offset completed in
      (is_completed entry ≡ completed) × (read_payload g entry ≡ some e)
unfolding read_payload with_length from_big from_big_at
entry_read g timestamp e offset completed t v h o k =
    let (f₀, f₁, f₂) = entry_fields timestamp e.0 offset completed t in
    let id = from_big-bytes8 e.0 (omega (arith, v.0)) in
    let place : from_big (read 17 8 (entry_of timestamp e.0 offset completed)) ≡ offset =
      ap from_big f₂ ∙ from_big-bytes8 offset (omega arith) in
    let len : read offset 4 g ≡ bytes4 (length e.1) =
      Holds-left g offset (bytes4 (length e.1)) e.1 k in
    let count = from_big-bytes4 (length e.1) (omega arith) in
    let bytes : read (offset + 4) (length e.1) g ≡ e.1 =
      Holds-right g offset (bytes4 (length e.1)) e.1 k in
    let pos = v.1 in
    let a : (leb (length e.1) 0 || ltb 104857600 (length e.1)) ≡ false = ground arith in
    let b : ltb (length e.1) (length e.1) ≡ false = ground arith in
    (
      ap (λ x. not (from_big x == 0)) f₁ ∙ flag_bit completed,
      rw (place, len, count, a, bytes, b, f₀, id),
    )

pub read_entries-headers_of :
    (g timestamp : Bytes) (completed : List ℕ) (batch : List (ℕ × Bytes)) (slot used : ℕ)
    → length timestamp ≡ 8
    → All Loggable batch
    → used + length (block_of batch) ≤ 104857600
    → Holds g (32 + slot * 25) (headers_of timestamp completed batch used)
    → Holds g (1250032 + used) (block_of batch)
    → read_entries g slot (length batch) ≡ pending completed batch
unfolding read_entries headers_of block_of pending
read_entries-headers_of g timestamp completed [] slot used t v k h₁ b = refl
read_entries-headers_of g timestamp completed (e ∷ batch) slot used t v k h₁ b =
    let entry = entry_of timestamp e.0 (1250032 + used) (mem e.0 completed) in
    let later = headers_of timestamp completed batch (used + length (with_length e.1)) in
    let l = length-append (with_length e.1) (block_of batch) in
    let start = 32 + slot * 25 in
    let size : length entry ≡ 25 =
      length-entry_of timestamp e.0 (1250032 + used) (mem e.0 completed) t in
    let here : read start 25 g ≡ entry =
      subst (λ n. read start n g ≡ entry) size (Holds-left g start entry later h₁) in
    let (flag, record') =
      entry_read g timestamp e (1250032 + used) (mem e.0 completed) t v.0
        (omega (arith, length-with_length e.1)) (omega arith)
        (Holds-left g (1250032 + used) (with_length e.1) (block_of batch) b) in
    let rest =
      read_entries-headers_of g timestamp completed batch (suc slot)
        (used + length (with_length e.1)) t v.1 (omega arith)
        (subst (λ n. Holds g n later) (omega arith) (Holds-right g start entry later h₁))
        (subst (λ n. Holds g n (block_of batch)) (omega arith)
          (Holds-right g (1250032 + used) (with_length e.1) (block_of batch) b)) in
    rw (here, size, flag, record', rest)

pub length-headers_of :
    (timestamp : Bytes) (completed : List ℕ) (batch : List (ℕ × Bytes)) (used : ℕ)
    → length timestamp ≡ 8
    → length (headers_of timestamp completed batch used) ≡ length batch * 25
unfolding headers_of
length-headers_of timestamp completed [] used t = omega arith
length-headers_of timestamp completed (e ∷ batch) used t =
    let entry = entry_of timestamp e.0 (1250032 + used) (mem e.0 completed) in
    let later = headers_of timestamp completed batch (used + length (with_length e.1)) in
    omega (
      arith,
      length-append entry later,
      length-entry_of timestamp e.0 (1250032 + used) (mem e.0 completed) t,
      length-headers_of timestamp completed batch (used + length (with_length e.1)) t,
    )
