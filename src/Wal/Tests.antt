-- ===== src/Wal/Tests.antt =====
-- Concrete runs of the log, and the theorems at inputs that meet their hypotheses.
use nekoq_component.Base.{ℕ, ◌≡◌, ◌≢◌, refl, ◌⊎◌, List, [], ◌∷◌, ◌++◌, arith, some, none}
use nekoq_component.Base.Result.{ok, err}
use nekoq_component.Base.Str.{bytes}
use nekoq_component.Base.Endian.{put_uint}
use nekoq_component.Hex.{hex_digit, hex_encode, hex_value}
use nekoq_component.Wal.Position.{Position, IsPosition, to_bytes}
use nekoq_component.Wal.Entry.{header, adler32, prepare_write_entry, put_position}
use nekoq_component.Wal.Reader.{
  found, failed, unfinished, unexpected_end, read_last_pos, read_last_pos_finishes,
}
use nekoq_component.Wal.Names.{
  hex16, wal_name, scan_literal, skip_space, scan_digits, scan_number, scan_index,
}
use nekoq_component.Wal.Contents.{at, entries, read_last_pos-entries, read_last_pos_cut}
use nekoq_component.Wal.Torn.{torn_header_counts}
use nekoq_component.Wal.Log.{
  Wal, write_error, index_panic, new_wal, startup, write, next_pos, log_names, log_files,
}
use nekoq_component.Wal.Writes.{first_log, Holds, write_outcome, write_all}
use nekoq_component.Wal.Recovery.{restart-write_all, foreign_names_panic}
use nekoq_component.Wal.MemFs.{mem_fs, mem_fs-Keeps, content, extend, create}

adler_wikipedia : adler32 (bytes "Wikipedia") ≡ 0x11e60398
unfolding adler32
adler_wikipedia = refl

name_runs : wal_name 1 ≡ bytes "wal_0000000000000001.log"
unfolding wal_name hex16 hex_encode hex_digit put_uint
name_runs = refl

scan_runs :
    (scan_index (bytes "wal_00000000000000ff.log") ≡ some 255)
    × (scan_index (bytes "wal_1.log.0000000000.old") ≡ some 1)
    × (scan_index (bytes "backup_of_the_folder.txt") ≡ none)
unfolding scan_index scan_literal skip_space scan_number scan_digits hex_value
scan_runs = (refl, refl, refl)

abbrev some_position : Position
some_position = at 1 0x1234_5678_9abc

some_position-IsPosition : IsPosition some_position
some_position-IsPosition = record { file_nonneg = omega arith; offset_nonneg = omega arith }

read_last_pos_finishes_example : read_last_pos 1 (bytes "no log at all") ≢ unfinished
read_last_pos_finishes_example = read_last_pos_finishes 1 (bytes "no log at all")

abbrev two_records : List (List ℕ)
two_records = bytes "one" ∷ bytes "two!" ∷ []

read_last_pos-entries_example : read_last_pos 1 (entries 1 0 two_records) ≡ found (at 1 2)
read_last_pos-entries_example =
    read_last_pos-entries 1 two_records (omega arith) (omega arith) (omega arith)

-- The third record has one byte of its three.
read_last_pos_cut_example :
    read_last_pos 1 (entries 1 0 two_records ++ (header (at 1 3) (bytes "six") ++ bytes "s"))
    ≡ failed unexpected_end
read_last_pos_cut_example =
    read_last_pos_cut 1 two_records (at 1 3) (bytes "six") (bytes "s") (omega arith) (omega arith)
      (omega arith) (omega arith) (omega arith)

-- Record 4 was never in_transaction-IsWritten: only its position was.
torn_header_counts_example :
    read_last_pos 1 (entries 1 0 two_records ++ (header (at 1 3) [] ++ to_bytes (at 1 4)))
    ≡ found (at 1 4)
torn_header_counts_example =
    torn_header_counts 1 two_records (at 1 3) (at 1 4) (omega arith) (omega arith) (omega arith)
      (record { file_nonneg = omega arith; offset_nonneg = omega arith })
      (record { file_nonneg = omega arith; offset_nonneg = omega arith })

-- A log in an empty folder of a file system in memory.
abbrev started : Wal mem_fs
started = record {
  current_position = at 1 0;
  open_file = some first_log;
  disk = (first_log, []) ∷ [];
}

started-Holds : Holds mem_fs started []
unfolding content entries wal_name hex16 hex_encode hex_digit put_uint
started-Holds = record { is_open = refl; content = refl; position = refl; in_range = omega arith }

write_outcome_example :
    (((write mem_fs started (bytes "one")).1 ≡ ok (at 1 1))
      × Holds mem_fs (write mem_fs started (bytes "one")).0 (bytes "one" ∷ []))
    ⊎ (((write mem_fs started (bytes "one")).1 ≡ err (write_error 1))
        × ((write mem_fs started (bytes "one")).0.current_position ≡ started.current_position)
        × ((write mem_fs started (bytes "one")).0.open_file ≡ started.open_file)
        × ((write mem_fs started (bytes "one")).0.disk
            ≡ (mem_fs.append first_log
                (put_position (next_pos mem_fs started) (prepare_write_entry (bytes "one")))
                started.disk).0))
write_outcome_example =
    write_outcome mem_fs started [] (bytes "one") (mem_fs-Keeps first_log) started-Holds
      (omega arith)

restart-write_all_example :
    (w : Wal mem_fs) × (startup mem_fs
        (new_wal mem_fs (write_all mem_fs started two_records).0.disk)
      ≡ ok w)
    × Holds mem_fs w two_records
    × (w.current_position ≡ (write_all mem_fs started two_records).0.current_position)
unfolding write_all write log_names wal_name hex16 hex_encode hex_digit put_uint extend create
restart-write_all_example =
    restart-write_all mem_fs started [] two_records _ _ (mem_fs-Keeps first_log) started-Holds
      (omega arith) (omega arith) tt refl refl refl

-- A folder that holds one other file, with a name of 24 bytes.
abbrev foreign : Wal mem_fs
foreign = new_wal mem_fs ((bytes "backup_of_the_folder.txt", bytes "x") ∷ [])

foreign_names_panic_example : startup mem_fs foreign ≡ err index_panic
unfolding log_names log_files scan_index scan_literal
foreign_names_panic_example = foreign_names_panic mem_fs foreign _ refl (λ e. cc) refl
