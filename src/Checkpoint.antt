-- ===== src/Checkpoint.antt =====
-- src/cachyDB/recovery/checkpoint.py: the archiving of completed log files. A file is named by its
-- number, so there are no malformed names, and an archive is what its gzip file decompresses to. The
-- thread and its timer are left out, and so are the errors of the file system.
pub mod Safety
mod Tests
use cachy_db.Base.{
  ℕ, zero, suc, ◌+◌, ◌*◌, Bool, true, false, ◌&&◌, not, Option, none, some, List, [], ◌∷◌, leb, ltb,
  ◌==◌, if◌then◌else◌, length, is_some,
}
use cachy_db.Base.Dict
use cachy_db.Base.Dict.{nat_eq}
use cachy_db.Bytes.{Bytes, read}
use cachy_db.Wal.{checksum_matches, magic_matches, wal_file_header_size, wal_entry_header_size}
use cachy_db.Wal.Recovery.{current_records, entry_data, is_completed, header_is_whole, sort_files}

-- `data/wal` and `data/wal_archives`
pub record Directories : Type 0 where
  pub files : List (ℕ × Bytes)
  pub archives : List (ℕ × Bytes)

-- The loop over the entries from `i`, `n` of them.
pub entries_completed : Bytes → ℕ → ℕ → Bool
entries_completed f i zero = true
entries_completed f i (suc n) =
    let rest = entries_completed f (suc i) n in
    let entry = entry_data f i in
    if ltb (length entry) wal_entry_header_size
    then false
    else if not (is_completed entry)
    then false
    else rest

pub is_file_fully_completed : Bytes → Bool
unfolding entries_completed
is_file_fully_completed f =
    let header = read 0 wal_file_header_size f in
    let entries = entries_completed f 0 (current_records header) in
    if not (header_is_whole f)
    then false
    else if not (magic_matches header)
    then false
    else if not (checksum_matches header)
    then false
    else if current_records header == 0
    then true
    else entries

pub archive_file : ℕ × Bytes → Directories → Directories
archive_file f d =
    if is_some (Dict.get f.0 d.archives)
    then d
    else record d { archives = Dict.put f.0 f.1 d.archives; files = Dict.remove f.0 d.files }

pub archive_completed : List (ℕ × Bytes) → Directories → Directories
unfolding is_file_fully_completed archive_file
archive_completed [] d = d
archive_completed (f ∷ sealed) d =
    archive_completed sealed (if is_file_fully_completed f.1 then archive_file f d else d)

-- `files[:-1]`
pub all_but_last : List (ℕ × Bytes) → List (ℕ × Bytes)
all_but_last [] = []
all_but_last (f ∷ []) = []
all_but_last (f ∷ g ∷ files) = f ∷ all_but_last (g ∷ files)

-- `active_flushes` is the counter of the router's flushes that run.
pub run_checkpoint : ℕ → Directories → Directories
unfolding archive_completed all_but_last
run_checkpoint active_flushes d =
    let wal_files = sort_files d.files in
    if ltb 0 active_flushes
    then d
    else if leb (length wal_files) 1
    then d
    else archive_completed (all_but_last wal_files) d
