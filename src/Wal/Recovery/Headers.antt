-- ===== src/Wal/Recovery/Headers.antt =====
-- The header of a log file: what was written is what a start reads.
use cachy_db.Base.{
  refl, ℕ, ◌+◌, ◌*◌, ◌≤◌, ◌≡◌, ap, ◌∙◌, true, false, ◌==◌, ltb, ◌++◌, length, arith, ok, some,
}
use cachy_db.Bytes.{Bytes, read, write, zeros, from_big, bytes4, bytes8, crc32}
use cachy_db.Bytes.Slices.{read-write_self}
use cachy_db.Bytes.Widths.{pack_i_lem, pack_q_lem, crc32_bound, from_big-bytes4, from_big-bytes8}
use cachy_db.Wal.{
  write_at, create_file_header, file_header, pack_fields, checksum_matches, magic_matches,
  wal_magic,
}
use cachy_db.Wal.Recovery.{next_tx_id}
use cachy_db.Wal.Recovery.Marks.{write_at-write}

pub fields : ℕ → ℕ → Bytes
fields records used = wal_magic ++ (bytes4 50000 ++ (bytes4 records ++ bytes8 used))

pub header : ℕ → ℕ → Bytes
unfolding fields zeros
header records used = fields records used ++ (bytes4 (crc32 (fields records used)) ++ zeros 8)

create_file_header_lem :
    (records used : ℕ) (f : Bytes)
    → records ≤ 50000
    → used ≤ 104857600
    → create_file_header records used f ≡ ok (write_at 0 (header records used) f)
unfolding create_file_header file_header pack_fields header fields
create_file_header_lem records used f h k =
    let a : ltb 50000 records ≡ false = ground arith in
    let b : ltb 104857600 used ≡ false = ground arith in
    rw (
      a,
      b,
      pack_i_lem 50000 (omega arith),
      pack_i_lem records (omega arith),
      pack_q_lem used (omega arith),
      pack_i_lem (crc32 (fields records used)) (crc32_bound (fields records used)),
    )

pub file_header_lem :
    (records used : ℕ)
    → records ≤ 50000
    → used ≤ 104857600
    → file_header wal_magic 50000 records used ≡ ok (header records used)
unfolding file_header pack_fields header fields
file_header_lem records used h k = rw (
  pack_i_lem 50000 (omega arith),
  pack_i_lem records (omega arith),
  pack_q_lem used (omega arith),
  pack_i_lem (crc32 (fields records used)) (crc32_bound (fields records used)),
)

-- What the code reads in such a header.
pub header_fields :
    (records used : ℕ)
    → records ≤ 50000
    → used ≤ 104857600
    → let h = header records used in
      (length h ≡ 32)
      × (checksum_matches h ≡ true)
      × (magic_matches h ≡ true)
      × (read 0 4 h ≡ wal_magic)
      × (from_big (read 4 4 h) ≡ 50000)
      × (from_big (read 8 4 h) ≡ records)
      × (from_big (read 12 8 h) ≡ used)
unfolding checksum_matches magic_matches read fields header zeros
header_fields records used h k =
    let c = crc32 (fields records used) in
    (
      refl,
      ground (arith, from_big-bytes4 c (crc32_bound (fields records used))),
      refl,
      refl,
      from_big-bytes4 50000 (omega arith),
      from_big-bytes4 records (omega arith),
      from_big-bytes8 used (omega arith),
    )

pub read-header : (records used : ℕ) → read 0 32 (header records used) ≡ header records used
unfolding read fields header zeros
read-header records used = refl

pub length-header : (records used : ℕ) → length (header records used) ≡ 32
unfolding fields header zeros
length-header records used = refl

-- A start that finds a header written for `records` entries in the newest file `file_id` accepts its
-- checksum and its magic number, and the next transaction id is the first one after those entries.
pub next_tx_id-create_file_header :
    (file_id records used : ℕ) (f : Bytes)
    → records ≤ 50000
    → used ≤ 104857600
    → 32 ≤ length f
    → (g : Bytes) × (create_file_header records used f ≡ ok g)
      × (next_tx_id (some (file_id, g)) ≡ ok (file_id * 50000 + records))
unfolding next_tx_id checksum_matches magic_matches read fields header zeros
next_tx_id-create_file_header file_id records used f h k l =
    let hd = header records used in
    let g = write_at 0 hd f in
    let e : g ≡ write 0 hd f = write_at-write 0 hd f (omega arith) in
    let front : read 0 32 g ≡ hd = ap (read 0 32) e ∙ read-write_self 0 hd f (omega arith) in
    let c = crc32 (fields records used) in
    let check : (c == from_big (bytes4 c)) ≡ true =
      ground (arith, from_big-bytes4 c (crc32_bound (fields records used))) in
    (
      g,
      create_file_header_lem records used f h k,
      rw (front, check, from_big-bytes4 records (omega arith)),
    )
