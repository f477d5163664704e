-- ===== src/Wal/MemFs.antt =====
-- A file system in memory, to run the log on: the files of the folder with their contents.
use nekoq_component.Base.{◌≡◌, refl, ap, false, List, [], ◌∷◌, ◌++◌, map, ℕ, if◌then◌else◌, arith}
use nekoq_component.Base.Result.{Result, ok, err}
use nekoq_component.Base.Str.{Str, str_eq}
use nekoq_component.Wal.FileSystem.{FileInfo, Fs, Keeps}

pub data MemError : Type 0 where
  no_such_file : MemError

abbrev pub Files : Type 0
Files = List (Str × List ℕ)

unfoldable pub content : Str → Files → Result MemError (List ℕ)
content n [] = err no_such_file
content n ((m, c) ∷ s) = if str_eq n m then ok c else content n s

unfoldable pub extend : Str → List ℕ → Files → Files
extend n d [] = []
extend n d ((m, c) ∷ s) = if str_eq n m then (m, c ++ d) ∷ s else (m, c) ∷ extend n d s

unfoldable pub create : Str → Files → Files
create n [] = (n, []) ∷ []
create n ((m, c) ∷ s) = if str_eq n m then (m, c) ∷ s else (m, c) ∷ create n s

abbrev info : Str × List ℕ → FileInfo
info (n, c) = record { name = n; is_dir = false }

abbrev pub mem_fs : Fs
mem_fs = record {
  State = Files;
  Error = MemError;
  read_dir = λ s. ok (map info s);
  open_append = λ n s. ok (create n s);
  read_file = content;
  append = λ n d s. (extend n d s, ok tt);
  close = λ n s. s;
}

content-create :
    (n : Str) (s : Files) (c : List ℕ) → content n s ≡ ok c → content n (create n s) ≡ ok c
unfolding content create
content-create n [] c e = cc
content-create n ((m, x) ∷ s) c e = ground (arith, content-create n s c)

content-extend :
    (n : Str) (d : List ℕ) (s : Files) (c : List ℕ)
    → content n s ≡ ok c
    → content n (extend n d s) ≡ ok (c ++ d)
unfolding content extend
content-extend n d [] c e = cc
content-extend n d ((m, x) ∷ s) c e = ground (arith, content-extend n d s c)

names-extend : (n : Str) (d : List ℕ) (s : Files) → map info (extend n d s) ≡ map info s
unfolding extend
names-extend n d [] = refl
names-extend n d ((m, x) ∷ s) = ground (arith, names-extend n d s)

pub mem_fs-Keeps : (n : Str) → Keeps mem_fs n
mem_fs-Keeps n = record {
  open_keeps = λ s s' c e h. let same : create n s ≡ s' = cc in rw same at (content-create n s c h);
  append_adds = λ s c d e h. content-extend n d s c h;
  append_dir = λ s d. ap ok (names-extend n d s);
}
