-- ===== src/Wal/Recovery.antt =====
-- The position of the log after a restart.
use nekoq_component.Base.{
  ℕ, ◌+◌, ◌^◌, ◌<◌, ◌≡◌, ◌≢◌, refl, sym, ap, ◌∙◌, some, List, [], ◌∷◌, ◌++◌, arith, length,
}
use nekoq_component.Base.Result.{ok, err}
use nekoq_component.Base.Str.{Str}
use nekoq_component.Wal.Position.{Position}
use nekoq_component.Wal.Reader.{read_last_pos, found}
use nekoq_component.Wal.FileSystem.{FileInfo, Fs, Keeps}
use nekoq_component.Wal.Names.{scan_index-wal_name}
use nekoq_component.Wal.Contents.{at, entries, AllFit, read_last_pos-entries}
use nekoq_component.Wal.Log.{
  Wal, WalError, starting_position, index_panic, new_wal, log_names, LogFile, log_files, sort_files,
  is_continuous, last_file, check_names, read_last, read_and_check_existing_file, initialize_file,
  startup,
}
use nekoq_component.Wal.Writes.{first_log, AllOk, Holds, write_all, write_all-Holds, dir-write_all}

module _ (fs : Fs) where
  one_file : log_files (first_log ∷ []) ≡ record { name = first_log; index = 1 } ∷ []
  unfolding log_files
  one_file = rw ((scan_index-wal_name 1 (omega arith)).0, log_files) refl

  check_first_log :
      (w : Wal fs)
      → check_names fs w (first_log ∷ [])
        ≡ read_last fs w (some (record { name = first_log; index = 1 }))
  unfolding check_names sort_files is_continuous last_file
  check_first_log w = rw (one_file, check_names) refl

  read_last_lem :
      (w : Wal fs) (f : LogFile) (c : List ℕ) (p : Position)
      → fs.read_file f.name w.disk ≡ ok c
      → read_last_pos f.index c ≡ found p
      → read_last fs w (some f) ≡ ok (record w { current_position = p })
  unfolding read_last
  read_last_lem w f c p e g = rw (e, g) refl

  read_and_check_lem :
      (w : Wal fs) (infos : List FileInfo)
      → fs.read_dir w.disk ≡ ok infos
      → read_and_check_existing_file fs w ≡ check_names fs w (log_names infos)
  unfolding read_and_check_existing_file
  read_and_check_lem w infos e = rw e refl

  -- Opening the log again, on the disk that a running log has, finds its position.
  pub reopened :
      (w : Wal fs) (ds : List (List ℕ)) (infos : List FileInfo)
      → Holds fs w ds
      → AllFit ds
      → fs.read_dir w.disk ≡ ok infos
      → log_names infos ≡ first_log ∷ []
      → read_and_check_existing_file fs (new_wal fs w.disk)
        ≡ ok (record (new_wal fs w.disk) { current_position = w.current_position })
  reopened w ds infos h fit dir names =
      read_and_check_lem (new_wal fs w.disk) infos dir
      ∙ ap (check_names fs (new_wal fs w.disk)) names
      ∙ check_first_log (new_wal fs w.disk)
      ∙ read_last_lem (new_wal fs w.disk) (record { name = first_log; index = 1 }) (entries 1 0 ds)
          (at 1 (length ds)) h.content (read_last_pos-entries 1 ds (omega arith) h.in_range fit)
      ∙ ap (λ p. ok (record (new_wal fs w.disk) { current_position = p })) (sym h.position)

  startup_lem :
      (w w' w'' : Wal fs)
      → read_and_check_existing_file fs w ≡ ok w'
      → initialize_file fs w' ≡ ok w''
      → startup fs w ≡ ok w''
  unfolding startup
  startup_lem w w' w'' e f = rw e f

  initialize_file_lem :
      (w : Wal fs) (s : fs.State)
      → w.current_position.file ≡ 1
      → fs.open_append first_log w.disk ≡ ok s
      → initialize_file fs w ≡ ok (record w { open_file = some first_log; disk = s })
  unfolding initialize_file
  initialize_file_lem w s e opened = rw (e, opened) refl

  -- From a log whose first file holds the records ds, on a file system that keeps one file's
  -- contents (Keeps) and whose folder lists that file as the only log file, if every write of the
  -- records xss is answered with a position and the file system then opens the first file again, a
  -- new log on the same disk starts, its file holds exactly ds followed by xss, and its position
  -- is the one that the first log had reached. The records fit the 32-bit size field and their
  -- number is below 2^63.
  pub restart-write_all :
      (w : Wal fs) (ds xss : List (List ℕ)) (infos : List FileInfo) (s : fs.State)
      → Keeps fs first_log
      → Holds fs w ds
      → AllFit (ds ++ xss)
      → length ds + length xss < 2 ^ 63
      → AllOk (write_all fs w xss).1
      → fs.read_dir w.disk ≡ ok infos
      → log_names infos ≡ first_log ∷ []
      → fs.open_append first_log (write_all fs w xss).0.disk ≡ ok s
      → (w' : Wal fs) × (startup fs (new_wal fs (write_all fs w xss).0.disk) ≡ ok w')
        × Holds fs w' (ds ++ xss)
        × (w'.current_position ≡ (write_all fs w xss).0.current_position)
  restart-write_all w ds xss infos s k h fit room oks dir names opened = (
    record {
      current_position = (write_all fs w xss).0.current_position;
      open_file = some first_log;
      disk = s;
    },
    startup_lem (new_wal fs end.disk) _ _ found_again (
        initialize_file_lem
          (record (new_wal fs end.disk) { current_position = end.current_position }) s
          (ap (λ (p : Position). p.file) held.position) opened),
    record {
      is_open = refl;
      content = k.open_keeps _ s _ opened held.content;
      position = held.position;
      in_range = held.in_range;
    },
    refl,
  )
    where
      held : Holds fs (write_all fs w xss).0 (ds ++ xss)
      held = write_all-Holds fs w ds xss k h room oks

      end : Wal fs
      end = (write_all fs w xss).0

      found_again :
          read_and_check_existing_file fs (new_wal fs end.disk)
          ≡ ok (record (new_wal fs end.disk) { current_position = end.current_position })
      found_again =
          reopened end (ds ++ xss) infos held fit (dir-write_all fs w xss k h.is_open ∙ dir) names

  -- In a folder with no name of 24 bytes Startup succeeds, with the first file open, no record in
  -- it and the position at its beginning, if the file can be created empty.
  pub fresh_start :
      (s s' : fs.State) (infos : List FileInfo)
      → fs.read_dir s ≡ ok infos
      → log_names infos ≡ []
      → fs.open_append first_log s ≡ ok s'
      → fs.read_file first_log s' ≡ ok []
      → (w : Wal fs) × (startup fs (new_wal fs s) ≡ ok w) × Holds fs w []
  unfolding entries check_names
  fresh_start s s' infos dir names opened empty = (
    record { current_position = starting_position; open_file = some first_log; disk = s' },
    startup_lem (new_wal fs s) (new_wal fs s) _
        (read_and_check_lem (new_wal fs s) infos dir ∙ ap (check_names fs (new_wal fs s)) names)
        (initialize_file_lem (new_wal fs s) s' refl opened),
    record { is_open = refl; content = empty; position = refl; in_range = omega arith },
  )

  check_foreign :
      (w : Wal fs) (l : List Str) → l ≢ [] → log_files l ≡ [] → check_names fs w l ≡ err index_panic
  unfolding check_names sort_files is_continuous last_file read_last
  check_foreign w [] some_name e = absurd (some_name refl)
  check_foreign w (n ∷ ns) some_name e = rw (e, check_names) refl

  startup_err :
      (w : Wal fs) (e : WalError fs.Error)
      → read_and_check_existing_file fs w ≡ err e
      → startup fs w ≡ err e
  unfolding startup
  startup_err w e f = rw f refl

  -- In a folder that has names of 24 bytes, none of which is read as a log file's name, Startup
  -- ends with an index out of range.
  pub foreign_names_panic :
      (w : Wal fs) (infos : List FileInfo)
      → fs.read_dir w.disk ≡ ok infos
      → log_names infos ≢ []
      → log_files (log_names infos) ≡ []
      → startup fs w ≡ err index_panic
  foreign_names_panic w infos dir some_name no_file =
      startup_err w index_panic
        (read_and_check_lem w infos dir ∙ check_foreign w (log_names infos) some_name no_file)
