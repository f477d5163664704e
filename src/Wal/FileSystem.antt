-- ===== src/Wal/FileSystem.antt =====
-- The file system that `WalOptions.FS` passes in (github.com/spf13/afero), as far as wal.go calls it.
-- A file is opened by `OpenFile` with O_CREATE, O_RDWR and O_APPEND, or by `Open` to be read; a handle
-- is its file's name.
use nekoq_component.Base.{ℕ, ◌≡◌, Bool, List, ◌++◌}
use nekoq_component.Base.Result.{Result, ok}
use nekoq_component.Base.Str.{Str}

pub record FileInfo : Type 0 where
  pub name : Str
  pub is_dir : Bool

pub record Fs : Type 1 where
  pub State : Type 0
  pub Error : Type 0
  pub read_dir : State → Result Error (List FileInfo)
  pub open_append : Str → State → Result Error State
  -- The bytes that a reader of the opened file delivers.
  pub read_file : Str → State → Result Error (List ℕ)
  -- `Write` on the append handle: the new state, and the error if there is one.
  pub append : Str → List ℕ → State → State × Result Error (Unit {0})
  pub close : Str → State → State

-- What a local file system promises about one file while nobody else writes the folder.
pub record Keeps (fs : Fs) (name : Str) : Type 0 where
  pub open_keeps :
      (s s' : fs.State) (c : List ℕ)
      → fs.open_append name s ≡ ok s'
      → fs.read_file name s ≡ ok c
      → fs.read_file name s' ≡ ok c
  pub append_adds :
      (s : fs.State) (c d : List ℕ)
      → (fs.append name d s).1 ≡ ok tt
      → fs.read_file name s ≡ ok c
      → fs.read_file name (fs.append name d s).0 ≡ ok (c ++ d)
  pub append_dir : (s : fs.State) (d : List ℕ) → fs.read_dir (fs.append name d s).0 ≡ fs.read_dir s
