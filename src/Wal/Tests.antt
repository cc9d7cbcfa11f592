-- ===== src/Wal/Tests.antt =====
-- The theorems on the log at concrete inputs.
use cachy_db.Base.{
  List, ℕ, ◌+◌, ◌*◌, ◌≤◌, ◌≡◌, refl, true, [], ◌∷◌, ◌++◌, map, length, ok, arith, some,
}
use cachy_db.Base.Dict
use cachy_db.Base.Dict.{nat_eq, mem}
use cachy_db.Bytes.{Bytes, read, zeros}
use cachy_db.Bytes.Slices.{length-zeros}
use cachy_db.Wal.{
  Wal, get_file_path, get_slot_index, append_many_to_buffer, wal_file_header_size,
  wal_entry_header_size, header_block_size, create_file_header, write_batch,
}
use cachy_db.Wal.Ids.{get_file_path-get_slot_index}
use cachy_db.Wal.Buffer.{
  Numbered, count_from, payloads, append_many_to_buffer-Numbered, in_buffer-mem,
}
use cachy_db.Wal.Batches.{of_file, file_batches-of_file}
use cachy_db.Wal.Disk.{or_nil, file_batches, in_buffer, mark_entry}
use cachy_db.Wal.Recovery.{read_file, entry_data, is_completed, current_records, next_tx_id}
use cachy_db.Wal.Recovery.Marks.{mark_entry-entry_data}
use cachy_db.Wal.Recovery.Headers.{
  header, read-header, length-header, next_tx_id-create_file_header,
}
use cachy_db.Wal.Recovery.Batch.{block_of, with_length, pending}
use cachy_db.Wal.Recovery.Writes.{read_file-write_batch}

get_file_path-get_slot_index_example :
    (file_id slot_index : ℕ) × (get_file_path 123456 ≡ ok file_id)
    × (get_slot_index 123456 ≡ ok slot_index)
    × (wal_file_header_size + slot_index * wal_entry_header_size + wal_entry_header_size
        ≤ header_block_size)
    × (file_id * 50000 + slot_index ≡ 123456)
get_file_path-get_slot_index_example = get_file_path-get_slot_index 123456 (omega arith)

-- Transactions 7 and 8 are in the buffer.
abbrev wal : Wal
wal = record {
  global_tx_id = 9;
  wal_buffer = (7, 1 ∷ []) ∷ (8, 2 ∷ []) ∷ [];
  ram_completed_tx = [];
  files = [];
}

append_many_to_buffer-Numbered_example :
    let r = append_many_to_buffer wal ((3 ∷ []) ∷ (4 ∷ []) ∷ []) in
    Numbered 7 r.0.wal_buffer r.0.global_tx_id
    × (r.1 ≡ count_from wal.global_tx_id (length {A = Bytes} ((3 ∷ []) ∷ (4 ∷ []) ∷ [])))
    × (payloads r.0.wal_buffer ≡ payloads wal.wal_buffer ++ (3 ∷ []) ∷ (4 ∷ []) ∷ [])
    × (r.0.global_tx_id ≡ wal.global_tx_id + length {A = Bytes} ((3 ∷ []) ∷ (4 ∷ []) ∷ []))
append_many_to_buffer-Numbered_example =
    append_many_to_buffer-Numbered wal 7 ((3 ∷ []) ∷ (4 ∷ []) ∷ []) (refl, (refl, refl))

in_buffer-mem_example : in_buffer wal.wal_buffer 8 ≡ mem 8 (map (λ entry. entry.0) wal.wal_buffer)
in_buffer-mem_example = in_buffer-mem 7 wal.wal_buffer 9 8 (refl, (refl, refl))

mark_entry-entry_data_example :
    (is_completed (entry_data (mark_entry 1 (zeros 100)) 1) ≡ true)
    × (read 0 8 (entry_data (mark_entry 1 (zeros 100)) 1) ≡ read 0 8 (entry_data (zeros 100) 1))
    × (current_records (mark_entry 1 (zeros 100)) ≡ current_records (zeros 100))
    × (entry_data (mark_entry 1 (zeros 100)) 0 ≡ entry_data (zeros 100) 0)
mark_entry-entry_data_example =
    mark_entry-entry_data 1 0 (zeros 100) (omega (arith, length-zeros 100)) (omega arith)

next_tx_id-create_file_header_example :
    (g : Bytes) × (create_file_header 12 340 (zeros 64) ≡ ok g)
    × (next_tx_id (some (3, g)) ≡ ok (3 * 50000 + 12))
next_tx_id-create_file_header_example =
    next_tx_id-create_file_header 3 12 340 (zeros 64) (omega arith) (omega arith)
      (omega (arith, length-zeros 64))

-- The first two transactions of the third file; the second is completed already.
abbrev batch : List (ℕ × Bytes)
batch = (100000, 1 ∷ 2 ∷ []) ∷ (100001, 3 ∷ []) ∷ []

length-block_of : length (block_of batch) ≤ 20
unfolding block_of with_length
length-block_of = omega arith

read_file-write_batch_example :
    (g : Bytes) × (write_batch (zeros 8) (100001 ∷ []) batch 100000 (header 0 0) ≡ ok g)
    × (read_file g ≡ read_file (header 0 0) ++ pending (100001 ∷ []) batch)
    × (read 0 32 g ≡ header (0 + length batch) (0 + length (block_of batch)))
read_file-write_batch_example =
    read_file-write_batch (zeros 8) (100001 ∷ []) batch 100000 (header 0 0) 0 0 (length-zeros 8)
      ((omega arith, omega arith), ((omega arith, omega arith), tt)) (read-header 0 0)
      (omega (arith, length-header 0 0)) (λ j l. absurd (omega arith)) (omega arith) refl
      (omega arith) (omega (arith, length-block_of))

-- Three transactions around the border of the first file.
abbrev mixed : List (ℕ × Bytes)
mixed = (49999, 1 ∷ []) ∷ (50000, 2 ∷ []) ∷ (50001, 3 ∷ []) ∷ []

abbrev no_batches : List (ℕ × List (ℕ × Bytes))
no_batches = []

file_batches-of_file_example :
    or_nil (Dict.get 1 (file_batches mixed no_batches))
    ≡ or_nil (Dict.get 1 no_batches) ++ of_file 1 mixed
file_batches-of_file_example = file_batches-of_file 1 mixed no_batches

of_file_second : of_file 1 mixed ≡ (50000, 2 ∷ []) ∷ (50001, 3 ∷ []) ∷ []
unfolding of_file
of_file_second = refl
