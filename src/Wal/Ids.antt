-- ===== src/Wal/Ids.antt =====
-- Where a transaction has its entry: the file and the slot.
use cachy_db.Base.{ℕ, ◌+◌, ◌*◌, ◌/◌, ◌%◌, ◌≤◌, ◌≡◌, ok, arith}
use cachy_db.Wal.{
  validate_tx_id, get_file_path, get_slot_index, wal_file_header_size, wal_entry_header_size,
  header_block_size,
}

pub validate_tx_id-ok : (tx_id : ℕ) → tx_id ≤ 9223372036854775807 → validate_tx_id tx_id ≡ ok tt
unfolding validate_tx_id
validate_tx_id-ok tx_id h = ground (arith, h)

-- Every valid transaction id has a file and a slot; its entry lies between the file header and the
-- payloads, and the file and the slot give the id back, so that no two transactions share an entry.
pub get_file_path-get_slot_index :
    (tx_id : ℕ)
    → tx_id ≤ 9223372036854775807
    → (file_id slot_index : ℕ) × (get_file_path tx_id ≡ ok file_id)
      × (get_slot_index tx_id ≡ ok slot_index)
      × (wal_file_header_size + slot_index * wal_entry_header_size + wal_entry_header_size
          ≤ header_block_size)
      × (file_id * 50000 + slot_index ≡ tx_id)
unfolding get_file_path get_slot_index validate_tx_id
get_file_path-get_slot_index tx_id h =
    (tx_id / 50000, tx_id % 50000, ground (arith, h), ground (arith, h), omega arith, omega arith)
