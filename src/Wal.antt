-- ===== src/Wal.antt =====
-- src/cachyDB/recovery/wal.py: the write-ahead log. A file is its bytes and is named by its number;
-- the clock is an argument, the eight bytes of a timestamp. A method that runs under the lock is one
-- step; the threads that call them are left out, and so is the wait for a full buffer. What a file
-- holds after an exception in the middle of a write is not described.
pub mod Ids
pub mod Buffer
pub mod Batches
pub mod Disk
pub mod Recovery
mod Tests
use cachy_db.Base.{
  ℕ, zero, suc, ◌+◌, ◌-◌, ◌*◌, ◌/◌, ◌%◌, Bool, true, false, ◌&&◌, ◌||◌, not, Option, none, some,
  List, [], ◌∷◌, ◌++◌, map, Result, ok, raise, Error, ◌>>=◌, ◌>>◌, raise_if, or_raise, value_error,
  struct_error, os_error, index_error, wal_corruption_error, wal_capacity_error, ltb, leb, ◌==◌,
  if◌then◌else◌, length, eq_str,
}
use cachy_db.Base.Dict
use cachy_db.Base.Dict.{nat_eq, mem, append_key}
use cachy_db.Bytes.{Bytes, read, zeros, pack_i, pack_q, from_big, crc32}

pub record Wal : Type 0 where
  pub global_tx_id : ℕ
  pub wal_buffer : List (ℕ × Bytes)
  pub ram_completed_tx : List ℕ
  pub files : List (ℕ × Bytes)

abbrev pub wal_capacity : ℕ
wal_capacity = 50000

abbrev pub wal_file_header_size : ℕ
wal_file_header_size = 32

abbrev pub wal_entry_header_size : ℕ
wal_entry_header_size = 25

-- 100 MB
abbrev pub payload_area_size : ℕ
payload_area_size = 104857600

-- `b"WAL1"`
abbrev pub wal_magic : Bytes
wal_magic = 0x57 ∷ 0x41 ∷ 0x4C ∷ 0x31 ∷ []

-- `f.seek(off); f.write(p)`: a file that ends before `off` is filled with zeros.
pub write_at : ℕ → Bytes → Bytes → Bytes
write_at zero [] f = f
write_at zero (x ∷ p) [] = x ∷ p
write_at zero (x ∷ p) (y ∷ f) = x ∷ write_at zero p f
write_at (suc off) p [] = 0 ∷ write_at off p []
write_at (suc off) p (x ∷ f) = x ∷ write_at off p f

-- `except (OSError, struct.error) as exc: raise OSError`
abbrev pub as_os_error {ℓ} : {A : Type ℓ} → Result A → Result A
as_os_error (ok a) = ok a
as_os_error (raise struct_error) = raise os_error
as_os_error (raise e) = raise e

pub validate_tx_id : ℕ → Result (Unit {0})
validate_tx_id tx_id = raise_if (ltb 9223372036854775807 tx_id) value_error

-- The number in the name `global_<number>.wal`.
pub get_file_path : ℕ → Result ℕ
unfolding validate_tx_id
get_file_path tx_id = do validate_tx_id tx_id; ok (tx_id / wal_capacity)

pub get_slot_index : ℕ → Result ℕ
unfolding validate_tx_id
get_slot_index tx_id = do validate_tx_id tx_id; ok (tx_id % wal_capacity)

-- `struct.pack("> 4s I I Q", magic, capacity, current_records, used_space)`
pub pack_fields : Bytes → ℕ → ℕ → ℕ → Result Bytes
pack_fields magic capacity current_records used_space = do
  capacity' ← pack_i capacity
  records ← pack_i current_records
  used ← pack_q used_space
  ok (magic ++ capacity' ++ records ++ used)

-- The header with its checksum and eight bytes of padding.
pub file_header : Bytes → ℕ → ℕ → ℕ → Result Bytes
unfolding pack_fields
file_header magic capacity current_records used_space = do
  header_without_checksum ← pack_fields magic capacity current_records used_space
  checksum ← pack_i (crc32 header_without_checksum)
  ok (header_without_checksum ++ checksum ++ zeros 8)

pub create_file_header : ℕ → ℕ → Bytes → Result Bytes
unfolding file_header
create_file_header current_records used_space f = do
  raise_if (ltb wal_capacity current_records) value_error
  raise_if (ltb payload_area_size used_space) value_error
  header_bytes ← file_header wal_magic wal_capacity current_records used_space
  ok (write_at 0 header_bytes f)

-- A new file of `size_bytes`.
pub pre_allocate_wal : ℕ → Result Bytes
unfolding create_file_header
pre_allocate_wal size_bytes = create_file_header 0 0 (zeros size_bytes)

pub create_entry_header : Bytes → ℕ → ℕ → Bool → Result Bytes
unfolding validate_tx_id
create_entry_header timestamp tx_id payload_offset is_completed = do
  validate_tx_id tx_id
  id ← pack_q tx_id
  offset ← pack_q payload_offset
  ok (id ++ timestamp ++ (if is_completed then 1 else 0) ∷ offset)

pub validate_payload_size : Bytes → ℕ → Result (Unit {0})
validate_payload_size payload current_used_space = do
  raise_if (ltb payload_area_size (length payload)) wal_capacity_error
  raise_if (ltb payload_area_size (current_used_space + length payload)) wal_capacity_error

pub append_to_buffer : Wal → Bytes → Wal × ℕ
append_to_buffer w packed_record = (
  record w {
    global_tx_id = w.global_tx_id + 1;
    wal_buffer = w.wal_buffer ++ (w.global_tx_id, packed_record) ∷ [];
  },
  w.global_tx_id,
)

pub append_many_to_buffer : Wal → List Bytes → Wal × List ℕ
unfolding append_to_buffer
append_many_to_buffer w [] = (w, [])
append_many_to_buffer w (packed_record ∷ packed_records) =
    let one = append_to_buffer w packed_record in
    let rest = append_many_to_buffer one.0 packed_records in (rest.0, one.1 ∷ rest.1)

-- What the fields of a file header are, or `none` if it is cut off.
abbrev pub header_block_size : ℕ
header_block_size = wal_file_header_size + wal_capacity * wal_entry_header_size

abbrev pub header_without_checksum : Bytes → Bytes
header_without_checksum h = read 0 20 h

-- The checksum of a header: over its fields, packed again, which are its first 20 bytes.
unfoldable pub checksum_matches : Bytes → Bool
checksum_matches h = crc32 (header_without_checksum h) == from_big (read 20 4 h)

unfoldable pub magic_matches : Bytes → Bool
magic_matches h = eq_str (read 0 4 h) wal_magic

-- Phase 1 of `_write_batch_to_disk`: the offsets of the payloads, their block, and the used space.
pub payload_block : List (ℕ × Bytes) → ℕ → Result (List ℕ × (Bytes × ℕ))
unfolding validate_payload_size
payload_block [] used = ok ([], ([], used))
payload_block ((tx_id, payload) ∷ batch) used = do
  len ← pack_i (length payload)
  let payload_with_len = len ++ payload
  validate_payload_size payload_with_len used
  rest ← payload_block batch (used + length payload_with_len)
  ok ((header_block_size + used) ∷ rest.0, (payload_with_len ++ rest.1.0, rest.1.1))

-- Phase 2: the entry headers.
pub header_block : Bytes → List ℕ → List (ℕ × Bytes) → List ℕ → Result Bytes
unfolding create_entry_header
header_block timestamp completed [] offsets = ok []
header_block timestamp completed (entry ∷ batch) [] = raise index_error
header_block timestamp completed ((tx_id, payload) ∷ batch) (offset ∷ offsets) = do
  entry_header ← create_entry_header timestamp tx_id offset (mem tx_id completed)
  rest ← header_block timestamp completed batch offsets
  ok (entry_header ++ rest)

-- The part of `_write_batch_to_disk` on the open file; `first_tx_id` is that of the batch.
pub write_batch : Bytes → List ℕ → List (ℕ × Bytes) → ℕ → Bytes → Result Bytes
unfolding checksum_matches magic_matches payload_block header_block get_slot_index file_header
write_batch timestamp completed batch first_tx_id f = as_os_error do
  let header_data = read 0 wal_file_header_size f
  raise_if (not (length header_data == wal_file_header_size)) wal_corruption_error
  raise_if (not (checksum_matches header_data)) wal_corruption_error
  raise_if (not (magic_matches header_data)) wal_corruption_error
  let capacity = from_big (read 4 4 header_data)
  let current_rec = from_big (read 8 4 header_data)
  let start_space = from_big (read 12 8 header_data)
  (payload_offsets, (block, used)) ← payload_block batch start_space
  slot ← get_slot_index first_tx_id
  headers ← header_block timestamp completed batch payload_offsets
  header_bytes ← file_header (read 0 4 header_data) capacity (current_rec + length batch) used
  let f₁ = write_at (header_block_size + start_space) block f
  let f₂ = write_at (wal_file_header_size + slot * wal_entry_header_size) headers f₁
  ok (write_at 0 header_bytes f₂)
