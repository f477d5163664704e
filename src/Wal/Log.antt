-- ===== src/Wal/Log.antt =====
-- `Wal` of wal.go over a file system. `Write` hands its entry to `WriteLoop` and waits for the answer, so
-- that the writes of all goroutines are a sequence of `do_write`s in the order of the queue.
use nekoq_component.Base.{
  ℕ, Bool, true, ◌&&◌, not, Option, none, some, List, [], ◌∷◌, ◌==◌, if◌then◌else◌, length,
}
use nekoq_component.Base.Result.{Result, ok, err, ◌>>=◌}
use nekoq_component.Base.Str.{Str, str_eq, str_lt}
use nekoq_component.Base.Words.{add64, sub64}
use nekoq_component.Wal.Position.{Position}
use nekoq_component.Wal.Entry.{prepare_write_entry, put_position}
use nekoq_component.Wal.Reader.{ReadStatus, ReadResult, found, failed, unfinished, read_last_pos}
use nekoq_component.Wal.FileSystem.{FileInfo, Fs}
use nekoq_component.Wal.Names.{wal_name, scan_index}

-- How a call ends badly. The last two are run-time panics, and `not_ended` is a read that goes on.
pub data WalError (E : Type 0) : Type 0 where
  fs_error : E → WalError E
  not_continuous : WalError E
  read_failed : ReadStatus → WalError E
  write_error : ℕ → WalError E
  not_ended : WalError E
  index_panic : WalError E
  nil_file_panic : WalError E

abbrev pub starting_position : Position
starting_position = record { file = 1; offset = 0 }

abbrev pub file_name_length : ℕ
file_name_length = 24

-- The names that may be log files, each once: a Go map whose values are empty.
unfoldable pub add_name : Str → List Str → List Str
add_name n [] = n ∷ []
add_name n (m ∷ ms) = if str_eq n m then m ∷ ms else m ∷ add_name n ms

unfoldable pub log_names : List FileInfo → List Str
unfolding add_name
log_names [] = []
log_names (f ∷ fs) =
    let rest = log_names fs in
    if not f.is_dir && (length f.name == file_name_length) then add_name f.name rest else rest

pub record LogFile : Type 0 where
  pub name : Str
  pub index : ℕ

-- A name whose number cannot be read is passed over.
unfoldable pub log_files : List Str → List LogFile
log_files [] = []
log_files (n ∷ ns) =
    let rest = log_files ns in
    elim (scan_index n) [ none ↦ rest | some i ↦ record { name = n; index = i } ∷ rest ]

unfoldable pub insert_file : LogFile → List LogFile → List LogFile
insert_file f [] = f ∷ []
insert_file f (g ∷ gs) = if str_lt g.name f.name then g ∷ insert_file f gs else f ∷ g ∷ gs

unfoldable pub sort_files : List LogFile → List LogFile
unfolding insert_file
sort_files [] = []
sort_files (f ∷ fs) = insert_file f (sort_files fs)

unfoldable pub is_continuous : List LogFile → Bool
is_continuous [] = true
is_continuous (f ∷ []) = true
is_continuous (f ∷ g ∷ gs) = (sub64 g.index f.index == 1) && is_continuous (g ∷ gs)

unfoldable pub last_file : List LogFile → Option LogFile
last_file [] = none
last_file (f ∷ []) = some f
last_file (f ∷ g ∷ gs) = last_file (g ∷ gs)

module _ (fs : Fs) where
  pub record Wal : Type 0 where
    pub current_position : Position
    pub open_file : Option Str
    pub disk : fs.State

  abbrev pub new_wal : fs.State → Wal
  new_wal s = record { current_position = starting_position; open_file = none; disk = s }

  abbrev lift_fs {ℓ} : {A : Type ℓ} → Result fs.Error A → Result (WalError fs.Error) A
  lift_fs (ok a) = ok a
  lift_fs (err e) = err (fs_error e)

  abbrev position_found : Wal → ReadResult → Result (WalError fs.Error) Wal
  position_found w (found p) = ok (record w { current_position = p })
  position_found w (failed st) = err (read_failed st)
  position_found w unfinished = err not_ended

  unfoldable pub read_last : Wal → Option LogFile → Result (WalError fs.Error) Wal
  read_last w none = err index_panic
  read_last w (some f) = do
    content ← lift_fs (fs.read_file f.name w.disk)
    position_found w (read_last_pos f.index content)

  unfoldable pub check_names : Wal → List Str → Result (WalError fs.Error) Wal
  check_names w [] = ok w
  check_names w (n ∷ ns) =
      let files = sort_files (log_files (n ∷ ns)) in
      if is_continuous files then read_last w (last_file files) else err not_continuous

  unfoldable pub read_and_check_existing_file : Wal → Result (WalError fs.Error) Wal
  unfolding check_names read_last
  read_and_check_existing_file w = do
    infos ← lift_fs (fs.read_dir w.disk)
    check_names w (log_names infos)

  unfoldable pub initialize_file : Wal → Result (WalError fs.Error) Wal
  initialize_file w = do
    let name = wal_name w.current_position.file
    s ← lift_fs (fs.open_append name w.disk)
    ok (record w { open_file = some name; disk = s })

  unfoldable pub startup : Wal → Result (WalError fs.Error) Wal
  startup w = do w' ← read_and_check_existing_file w; initialize_file w'

  pub shutdown : Wal → Wal
  shutdown w = elim w.open_file [ none ↦ w | some n ↦ record w { disk = fs.close n w.disk } ]

  abbrev pub next_pos : Wal → Position
  next_pos w = record w.current_position { offset = add64 w.current_position.offset 1 }

  -- A write that fails keeps the position; what it left on the disk stays there.
  abbrev committed :
      Wal
      → Position
      → fs.State × Result fs.Error (Unit {0})
      → Wal × Result (WalError fs.Error) Position
  committed w p (s, ok _) = (record w { disk = s; current_position = p }, ok p)
  committed w p (s, err e) = (record w { disk = s }, err (fs_error e))

  unfoldable pub append_entry :
      Wal → Option Str → List ℕ → Wal × Result (WalError fs.Error) Position
  append_entry w none entry = (w, err nil_file_panic)
  append_entry w (some name) entry =
      committed w (next_pos w) (fs.append name (put_position (next_pos w) entry) w.disk)

  unfoldable pub do_write : Wal → List ℕ → Wal × Result (WalError fs.Error) Position
  unfolding append_entry
  do_write w entry = append_entry w w.open_file entry

  -- The answer of the loop carries a code in place of the error.
  abbrev pub answer : Result (WalError fs.Error) Position → Result (WalError fs.Error) Position
  answer (ok p) = ok p
  answer (err (fs_error e)) = err (write_error 1)
  answer (err e) = err e

  unfoldable pub write : Wal → List ℕ → Wal × Result (WalError fs.Error) Position
  unfolding do_write
  write w xs = let (w', r) = do_write w (prepare_write_entry xs) in (w', answer r)

  abbrev pub current_position_of : Wal → Position
  current_position_of w = w.current_position
