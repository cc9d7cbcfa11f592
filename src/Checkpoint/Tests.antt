-- ===== src/Checkpoint/Tests.antt =====
-- The theorems on checkpoints at concrete inputs.
use cachy_db.Base.{◌≡◌, refl, true, [], ◌∷◌}
use cachy_db.Base.Dict
use cachy_db.Bytes.{Bytes, read, from_big, from_big_at, crc32, crc_loop, crc_byte, crc_bit}
use cachy_db.Wal.{checksum_matches, magic_matches}
use cachy_db.Wal.Recovery.{read_wal, read_file, sort_files, insert_file}
use cachy_db.Checkpoint.{
  Directories, run_checkpoint, is_file_fully_completed, entries_completed, archive_completed,
  archive_file, all_but_last,
}
use cachy_db.Checkpoint.Safety.{run_checkpoint-read_wal, read_file-completed}

-- A log of one entry, which is completed, and one of none.
abbrev completed_log : Bytes
completed_log =
    87 ∷ 65 ∷ 76 ∷ 49 ∷ 0 ∷ 0 ∷ 195 ∷ 80 ∷ 0 ∷ 0 ∷ 0 ∷ 1 ∷ 0 ∷ 0 ∷ 0 ∷ 0 ∷ 0 ∷ 0 ∷ 0 ∷ 5 ∷ 105 ∷ 85
    ∷ 217 ∷ 134 ∷ 0 ∷ 0 ∷ 0 ∷ 0 ∷ 0 ∷ 0 ∷ 0 ∷ 0 ∷ 0 ∷ 0 ∷ 0 ∷ 0 ∷ 0 ∷ 0 ∷ 0 ∷ 0 ∷ 63 ∷ 240 ∷ 0 ∷ 0
    ∷ 0 ∷ 0 ∷ 0 ∷ 0 ∷ 1 ∷ 0 ∷ 0 ∷ 0 ∷ 0 ∷ 0 ∷ 19 ∷ 18 ∷ 240 ∷ []

abbrev empty_log : Bytes
empty_log =
    87 ∷ 65 ∷ 76 ∷ 49 ∷ 0 ∷ 0 ∷ 195 ∷ 80 ∷ 0 ∷ 0 ∷ 0 ∷ 0 ∷ 0 ∷ 0 ∷ 0 ∷ 0 ∷ 0 ∷ 0 ∷ 0 ∷ 0 ∷ 14 ∷ 68
    ∷ 57 ∷ 74 ∷ 0 ∷ 0 ∷ 0 ∷ 0 ∷ 0 ∷ 0 ∷ 0 ∷ 0 ∷ []

abbrev directories : Directories
directories = record { files = (1, empty_log) ∷ (0, completed_log) ∷ []; archives = [] }

program : Unit {0}
unfolding is_file_fully_completed entries_completed checksum_matches magic_matches read from_big
    from_big_at crc32 crc_loop crc_byte crc_bit run_checkpoint archive_completed archive_file
    all_but_last sort_files insert_file Dict.get Dict.put Dict.remove
program = tt

completed_log_complete : is_file_fully_completed completed_log ≡ true
unfolding program
completed_log_complete = refl

-- The older log is archived, the newest stays.
run_checkpoint_archives :
    run_checkpoint 0 directories
    ≡ record { files = (1, empty_log) ∷ []; archives = (0, completed_log) ∷ [] }
unfolding program
run_checkpoint_archives = refl

read_file-completed_example : read_file completed_log ≡ []
read_file-completed_example = read_file-completed completed_log completed_log_complete

run_checkpoint-read_wal_example :
    read_wal (run_checkpoint 0 directories).files ≡ read_wal directories.files
unfolding Dict.get
run_checkpoint-read_wal_example = run_checkpoint-read_wal 0 directories (refl, (refl, tt))
