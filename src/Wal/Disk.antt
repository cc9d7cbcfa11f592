-- ===== src/Wal/Disk.antt =====
-- The methods of `WAL` that write to its files: the flush of the buffer and the marks of completion.
use cachy_db.Base.{
  ℕ, ◌+◌, ◌*◌, ◌/◌, Bool, false, ◌&&◌, Option, none, some, List, [], ◌∷◌, ◌++◌, Result, ok, raise,
  ◌>>=◌, ◌>>◌, or_raise, index_error, leb, if◌then◌else◌, length,
}
use cachy_db.Base.Exec.{Exec, after}
use cachy_db.Base.Dict
use cachy_db.Base.Dict.{nat_eq, append_key}
use cachy_db.Bytes.{Bytes}
use cachy_db.Wal.{
  Wal, write_at, write_batch, pre_allocate_wal, get_file_path, get_slot_index, validate_tx_id,
  wal_capacity, wal_file_header_size, wal_entry_header_size, header_block_size, payload_area_size,
}

-- `d[file_id]` of a `defaultdict(list)`
abbrev pub or_nil {ℓ} : {A : Type ℓ} → Option (List A) → List A
or_nil none = []
or_nil (some l) = l

-- The entries of the buffer by file, in the order of the first entry of each.
unfoldable pub file_batches :
    List (ℕ × Bytes) → List (ℕ × List (ℕ × Bytes)) → List (ℕ × List (ℕ × Bytes))
file_batches [] batches = batches
file_batches (entry ∷ buffer) batches =
    let file_id = entry.0 / wal_capacity in
    file_batches buffer (Dict.put file_id (or_nil (Dict.get file_id batches) ++ entry ∷ []) batches)

pub total_payload_size : List (ℕ × Bytes) → ℕ
total_payload_size [] = 0
total_payload_size (entry ∷ batch) = length entry.1 + 4 + total_payload_size batch

abbrev pub first_tx_id : List (ℕ × Bytes) → Option ℕ
first_tx_id [] = none
first_tx_id (entry ∷ batch) = some entry.0

abbrev pub last_tx_id : List (ℕ × Bytes) → ℕ → ℕ
last_tx_id [] tx_id = tx_id
last_tx_id (entry ∷ batch) tx_id = last_tx_id batch entry.0

-- The file that is there, or a new one.
pub open_or_new : ℕ → Option Bytes → Result Bytes
unfolding pre_allocate_wal
open_or_new size_bytes (some f) = ok f
open_or_new size_bytes none = pre_allocate_wal size_bytes

-- The first transaction of a batch and its file.
abbrev pub batch_file : List (ℕ × Bytes) → Result (ℕ × ℕ)
batch_file batch = do
  first ← or_raise index_error (first_tx_id batch)
  file_id ← get_file_path first
  ok (first, file_id)

-- The thread that `_write_batch_to_disk` starts for the next file is `pre_allocate_async`. A batch that
-- fails leaves the file, which may be new, as it was before: what the failed write may have put beyond
-- the file's used space is left out.
pub write_batch_to_disk : Bytes → List ℕ → List (ℕ × Bytes) → Exec Wal (Unit {0})
unfolding get_file_path total_payload_size open_or_new write_batch
write_batch_to_disk timestamp completed batch w =
    after (w, batch_file batch)
      (λ place w0.
        after
          (
            w0,
            open_or_new (wal_file_header_size + total_payload_size batch)
                (Dict.get place.1 w0.files),
          )
          (λ f w1. elim (write_batch timestamp completed batch place.0 f) [
            | raise e ↦ (record w1 { files = Dict.put place.1 f w1.files }, raise e)
            | ok f' ↦ (record w1 { files = Dict.put place.1 f' w1.files }, ok tt)
          ]))

-- An error leaves the files as they are.
pub pre_allocate_async : ℕ → Wal → Wal
unfolding pre_allocate_wal
pre_allocate_async file_id w = elim (Dict.get file_id w.files) [
  | some f ↦ w
  | none ↦ elim (pre_allocate_wal (header_block_size + payload_area_size)) [
    | ok f ↦ record w { files = Dict.put file_id f w.files }
    | raise e ↦ w
  ]
]

-- A batch that fails ends the loop; those before it are on disk.
pub write_batches : Bytes → List ℕ → List (ℕ × List (ℕ × Bytes)) → Exec Wal (Unit {0})
unfolding write_batch_to_disk
write_batches timestamp completed [] w = (w, ok tt)
write_batches timestamp completed ((file_id, batch) ∷ batches) w =
    after (write_batch_to_disk timestamp completed batch w)
      (λ u. write_batches timestamp completed batches)

pub write_buffer_to_disk : Bytes → List (ℕ × Bytes) → Exec Wal (Unit {0})
unfolding file_batches write_batches
write_buffer_to_disk timestamp [] w = (w, ok tt)
write_buffer_to_disk timestamp (entry ∷ buffer) w =
    write_batches timestamp w.ram_completed_tx (file_batches (entry ∷ buffer) [])
      (record w { ram_completed_tx = [] })

-- One round of `_wal_writer_loop`, without the other threads in between. An exception is logged only:
-- the buffer is taken all the same.
pub writer_round : Bytes → Wal → Wal
unfolding write_buffer_to_disk
writer_round timestamp w =
    (write_buffer_to_disk timestamp w.wal_buffer (record w { wal_buffer = [] })).0

-- `buffer[0][0] <= tx_id <= buffer[-1][0]` of a buffer that is not empty
unfoldable pub in_buffer : List (ℕ × Bytes) → ℕ → Bool
in_buffer [] tx_id = false
in_buffer (entry ∷ buffer) tx_id = leb entry.0 tx_id && leb tx_id (last_tx_id buffer entry.0)

-- The completion flag of the entry in a slot set on disk.
unfoldable pub mark_entry : ℕ → Bytes → Bytes
mark_entry slot_index f =
    let entry_offset = wal_file_header_size + slot_index * wal_entry_header_size in
    write_at (entry_offset + 16) (1 ∷ []) f

pub mark_on_disk : Wal → ℕ → ℕ → Option Bytes → Wal
unfolding mark_entry
mark_on_disk w file_id slot_index none = w
mark_on_disk w file_id slot_index (some f) = record w {
  files = Dict.put file_id (mark_entry slot_index f) w.files;
}

unfoldable pub mark_job_complete : Wal → ℕ → ℕ → Result Wal
unfolding validate_tx_id get_slot_index in_buffer mark_on_disk
mark_job_complete w tx_id file_id = do
  validate_tx_id tx_id
  let w' = record w { ram_completed_tx = append_key tx_id w.ram_completed_tx }
  slot_index ← get_slot_index tx_id
  let on_disk = mark_on_disk w' file_id slot_index (Dict.get file_id w'.files)
  ok (if in_buffer w.wal_buffer tx_id then w' else on_disk)

pub add_completed : List ℕ → List ℕ → List ℕ
add_completed [] completed = completed
add_completed (tx_id ∷ tx_ids) completed = add_completed tx_ids (append_key tx_id completed)

-- The transactions that are not in the buffer.
pub disk_tx_ids : List (ℕ × Bytes) → List ℕ → List ℕ
unfolding in_buffer
disk_tx_ids buffer [] = []
disk_tx_ids buffer (tx_id ∷ tx_ids) =
    let rest = disk_tx_ids buffer tx_ids in if in_buffer buffer tx_id then rest else tx_id ∷ rest

-- The transactions by file; an invalid id is skipped.
pub files_to_update : List ℕ → List (ℕ × List ℕ) → List (ℕ × List ℕ)
unfolding get_file_path
files_to_update [] updates = updates
files_to_update (tx_id ∷ tx_ids) updates = files_to_update tx_ids (elim (get_file_path tx_id) [
  | ok file_id ↦ Dict.put file_id (or_nil (Dict.get file_id updates) ++ tx_id ∷ []) updates
  | raise e ↦ updates
])

pub mark_entries : List ℕ → Bytes → Bytes
unfolding mark_entry get_slot_index
mark_entries [] f = f
mark_entries (tx_id ∷ tx_ids) f = elim (get_slot_index tx_id) [
  | ok slot_index ↦ mark_entries tx_ids (mark_entry slot_index f)
  | raise e ↦ f
]

pub update_files : List (ℕ × List ℕ) → Wal → Wal
unfolding mark_entries
update_files [] w = w
update_files ((file_id, tx_ids) ∷ updates) w =
    update_files updates (elim (Dict.get file_id w.files) [
      | none ↦ w
      | some f ↦ record w { files = Dict.put file_id (mark_entries tx_ids f) w.files }
    ])

pub mark_many_jobs_complete : Wal → List ℕ → Wal
unfolding add_completed disk_tx_ids files_to_update update_files
mark_many_jobs_complete w tx_ids =
    update_files (files_to_update (disk_tx_ids w.wal_buffer tx_ids) [])
      (record w { ram_completed_tx = add_completed tx_ids w.ram_completed_tx })
