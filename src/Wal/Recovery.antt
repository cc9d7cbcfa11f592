-- ===== src/Wal/Recovery.antt =====
-- The methods of `WAL` that read its files after a start: the next transaction id and the records
-- that are not completed.
pub mod Marks
pub mod Headers
pub mod Batch
pub mod Older
pub mod Writes
use cachy_db.Base.{
  ℕ, zero, suc, ◌+◌, ◌*◌, Bool, true, false, ◌&&◌, ◌||◌, not, Option, none, some, List, [], ◌∷◌,
  ◌++◌, Result, ok, raise, ◌>>=◌, ◌>>◌, raise_if, wal_corruption_error, ltb, leb, ◌==◌,
  if◌then◌else◌, length,
}
use cachy_db.Bytes.{Bytes, read, from_big}
use cachy_db.Wal.{
  Wal, checksum_matches, magic_matches, wal_capacity, wal_file_header_size, wal_entry_header_size,
  payload_area_size,
}

abbrev pub current_records : Bytes → ℕ
current_records f = from_big (read 8 4 f)

-- `f.seek(...); f.read(WAL_ENTRY_HEADER_SIZE)` of entry `i`
abbrev pub entry_data : Bytes → ℕ → Bytes
entry_data f i = read (wal_file_header_size + i * wal_entry_header_size) wal_entry_header_size f

abbrev pub is_completed : Bytes → Bool
is_completed entry = not (from_big (read 16 1 entry) == 0)

-- The record of an entry, `none` if its length or its bytes are not there.
pub read_payload : Bytes → Bytes → Option (ℕ × Bytes)
read_payload f entry =
    let payload_offset = from_big (read 17 8 entry) in
    let length_bytes = read payload_offset 4 f in
    let record_length = from_big length_bytes in
    let packed_record = read (payload_offset + 4) record_length f in
    if ltb (length length_bytes) 4
    then none
    else if leb record_length 0 || ltb payload_area_size record_length
    then none
    else if ltb (length packed_record) record_length
    then none
    else some (from_big (read 0 8 entry), packed_record)

-- What one turn of the loop adds.
abbrev pub yield_record : Option (ℕ × Bytes) → List (ℕ × Bytes) → List (ℕ × Bytes)
yield_record none rest = rest
yield_record (some r) rest = r ∷ rest

-- The loop over the entries from `i`, `n` of them.
unfoldable pub read_entries : Bytes → ℕ → ℕ → List (ℕ × Bytes)
unfolding read_payload
read_entries f i zero = []
read_entries f i (suc n) =
    let rest = read_entries f (suc i) n in
    let entry = entry_data f i in
    if ltb (length entry) wal_entry_header_size
    then []
    else if is_completed entry
    then rest
    else yield_record (read_payload f entry) rest

abbrev pub header_is_whole : Bytes → Bool
header_is_whole f = leb wal_file_header_size (length (read 0 wal_file_header_size f))

unfoldable pub read_file : Bytes → List (ℕ × Bytes)
unfolding read_entries checksum_matches magic_matches
read_file f =
    let header = read 0 wal_file_header_size f in
    let records = read_entries f 0 (current_records header) in
    if header_is_whole f && checksum_matches header && magic_matches header then records else []

-- `sorted(files, key=...)`: by the number of the file.
unfoldable pub insert_file : ℕ × Bytes → List (ℕ × Bytes) → List (ℕ × Bytes)
insert_file f [] = f ∷ []
insert_file f (g ∷ files) =
    let rest = insert_file f files in if leb f.0 g.0 then f ∷ g ∷ files else g ∷ rest

unfoldable pub sort_files : List (ℕ × Bytes) → List (ℕ × Bytes)
unfolding insert_file
sort_files [] = []
sort_files (f ∷ files) = insert_file f (sort_files files)

unfoldable pub read_files : List (ℕ × Bytes) → List (ℕ × Bytes)
unfolding read_file
read_files [] = []
read_files (f ∷ files) = read_file f.1 ++ read_files files

unfoldable pub read_wal : List (ℕ × Bytes) → List (ℕ × Bytes)
unfolding sort_files read_files
read_wal files = read_files (sort_files files)

pub last_file : List (ℕ × Bytes) → Option (ℕ × Bytes)
last_file [] = none
last_file (f ∷ []) = some f
last_file (f ∷ g ∷ files) = last_file (g ∷ files)

-- The next transaction id from the newest file.
pub next_tx_id : Option (ℕ × Bytes) → Result ℕ
unfolding checksum_matches magic_matches
next_tx_id none = ok 0
next_tx_id (some (file_id, f)) =
    let header = read 0 wal_file_header_size f in
    let whole = (do
      raise_if (not (checksum_matches header)) wal_corruption_error
      raise_if (not (magic_matches header)) wal_corruption_error
      ok (file_id * wal_capacity + current_records header)) in
    if header_is_whole f then whole else ok (file_id * wal_capacity)

pub restore_global_tx_id : Wal → Result Wal
unfolding sort_files last_file next_tx_id
restore_global_tx_id w = do
  tx_id ← next_tx_id (last_file (sort_files w.files))
  ok (record w { global_tx_id = tx_id })
