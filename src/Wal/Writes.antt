-- ===== src/Wal/Writes.antt =====
-- The log over a file system: what the writes leave in the file.
use nekoq_component.Base.{
  ℕ, suc, ◌+◌, ◌^◌, ◌<◌, ◌≡◌, ◌⊎◌, inl, inr, refl, ap, ◌∙◌, some, List, [], ◌∷◌, ◌++◌, append_assoc,
  append-nil, arith, length, length-append,
}
use nekoq_component.Base.Result.{Result, ok, err, Result-cases}
use nekoq_component.Base.Str.{Str}
use nekoq_component.Base.Words.{add64}
use nekoq_component.Wal.Position.{Position}
use nekoq_component.Wal.Entry.{prepare_write_entry, put_position, put_position-prepare}
use nekoq_component.Wal.FileSystem.{Fs, Keeps}
use nekoq_component.Wal.Names.{wal_name}
use nekoq_component.Wal.Contents.{at, entries, entries_last}
use nekoq_component.Wal.Log.{
  Wal, WalError, fs_error, write_error, do_write, append_entry, answer, write, next_pos,
}

abbrev pub first_log : Str
first_log = wal_name 1

-- Every answer is a position.
abbrev pub AllOk {ℓ κ} : {E : Type ℓ} {A : Type κ} → List (Result E A) → Type 0
AllOk [] = Unit
AllOk (ok a ∷ rs) = AllOk rs
AllOk (err e ∷ rs) = ⊥

module _ (fs : Fs) where
  -- The log has started on its first file, which holds the records of `ds`.
  pub record Holds (w : Wal fs) (ds : List (List ℕ)) : Type 0 where
    pub is_open : w.open_file ≡ some first_log
    pub content : fs.read_file first_log w.disk ≡ ok (entries 1 0 ds)
    pub position : w.current_position ≡ at 1 (length ds)
    pub in_range : length ds < 2 ^ 63

  next_pos_lem :
      (w : Wal fs) (n : ℕ)
      → w.current_position ≡ at 1 n
      → suc n < 2 ^ 63
      → next_pos fs w ≡ at 1 (suc n)
  unfolding add64
  next_pos_lem w n e h = rw e (ap (at 1) (omega arith))

  append_entry_lem :
      (w : Wal fs) (name : Str) (entry : List ℕ)
      → (fs.append name (put_position (next_pos fs w) entry) w.disk).1 ≡ ok tt
      → append_entry fs w (some name) entry ≡ (
        record w {
          disk = (fs.append name (put_position (next_pos fs w) entry) w.disk).0;
          current_position = next_pos fs w;
        },
        ok (next_pos fs w),
      )
  unfolding append_entry
  append_entry_lem w name entry e = rw e refl

  append_entry_err :
      (w : Wal fs) (name : Str) (entry : List ℕ) (e : fs.Error)
      → (fs.append name (put_position (next_pos fs w) entry) w.disk).1 ≡ err e
      → append_entry fs w (some name) entry ≡ (
        record w { disk = (fs.append name (put_position (next_pos fs w) entry) w.disk).0 },
        err (fs_error e),
      )
  unfolding append_entry
  append_entry_err w name entry e f = rw f refl

  do_write_lem :
      (w : Wal fs) (entry : List ℕ) → do_write fs w entry ≡ append_entry fs w w.open_file entry
  unfolding do_write
  do_write_lem w entry = refl

  write-do_write :
      (w : Wal fs) (xs : List ℕ)
      → write fs w xs ≡ (
        (do_write fs w (prepare_write_entry xs)).0,
        answer fs (do_write fs w (prepare_write_entry xs)).1,
      )
  unfolding write
  write-do_write w xs = refl

  -- What the file gets from one write.
  abbrev pub appended : Wal fs → List ℕ → fs.State × Result fs.Error (Unit {0})
  appended w xs = fs.append first_log (put_position (next_pos fs w) (prepare_write_entry xs)) w.disk

  write_lem :
      (w : Wal fs) (xs : List ℕ)
      → w.open_file ≡ some first_log
      → (appended w xs).1 ≡ ok tt
      → write fs w xs ≡ (
        record w { disk = (appended w xs).0; current_position = next_pos fs w },
        ok (next_pos fs w),
      )
  write_lem w xs o e =
      write-do_write w xs
      ∙ ap (λ p. (p.0, answer fs p.1))
          (do_write_lem w (prepare_write_entry xs)
            ∙ ap (λ n. append_entry fs w n (prepare_write_entry xs)) o
            ∙ append_entry_lem w first_log (prepare_write_entry xs) e)

  write_err_lem :
      (w : Wal fs) (xs : List ℕ) (e : fs.Error)
      → w.open_file ≡ some first_log
      → (appended w xs).1 ≡ err e
      → write fs w xs ≡ (record w { disk = (appended w xs).0 }, err (write_error 1))
  write_err_lem w xs e o f =
      write-do_write w xs
      ∙ ap (λ p. (p.0, answer fs p.1))
          (do_write_lem w (prepare_write_entry xs)
            ∙ ap (λ n. append_entry fs w n (prepare_write_entry xs)) o
            ∙ append_entry_err w first_log (prepare_write_entry xs) e f)

  grown :
      (w : Wal fs) (ds : List (List ℕ)) (xs : List ℕ)
      → w.current_position ≡ at 1 (length ds)
      → suc (length ds) < 2 ^ 63
      → entries 1 0 ds ++ put_position (next_pos fs w) (prepare_write_entry xs)
        ≡ entries 1 0 (ds ++ (xs ∷ []))
  grown w ds xs p room =
      let same : suc (0 + length ds) ≡ suc (length ds) = omega arith in
      rw (next_pos_lem w (length ds) p room, put_position-prepare, entries_last 1 0 ds xs, same)
        refl

  write_ok :
      (w : Wal fs) (ds : List (List ℕ)) (xs : List ℕ)
      → Keeps fs first_log
      → Holds w ds
      → suc (length ds) < 2 ^ 63
      → (appended w xs).1 ≡ ok tt
      → ((write fs w xs).1 ≡ ok (at 1 (suc (length ds))))
        × Holds (write fs w xs).0 (ds ++ (xs ∷ []))
  write_ok w ds xs k h room e = rw (write_lem w xs h.is_open e) (
    ap ok (next_pos_lem w (length ds) h.position room),
    record {
      is_open = h.is_open;
      content =
          k.append_adds w.disk (entries 1 0 ds)
            (put_position (next_pos fs w) (prepare_write_entry xs)) e h.content
          ∙ ap ok (grown w ds xs h.position room);
      position =
          next_pos_lem w (length ds) h.position room
          ∙ ap (at 1) (omega (arith, length-append ds (xs ∷ [])));
      in_range = omega (arith, length-append ds (xs ∷ []), room);
    },
  )

  -- On a file system that keeps the first file's contents (Keeps) and a log whose first file holds
  -- the records ds, with one record more still fewer than 2^63, a write answers with the next
  -- position and appends exactly its record to the file, or it answers with the general error,
  -- keeps the position and the handle, and leaves on the disk what the append of that record left
  -- there.
  pub write_outcome :
      (w : Wal fs) (ds : List (List ℕ)) (xs : List ℕ)
      → Keeps fs first_log
      → Holds w ds
      → suc (length ds) < 2 ^ 63
      → (((write fs w xs).1 ≡ ok (at 1 (suc (length ds))))
          × Holds (write fs w xs).0 (ds ++ (xs ∷ [])))
        ⊎ (((write fs w xs).1 ≡ err (write_error 1))
            × ((write fs w xs).0.current_position ≡ w.current_position)
            × ((write fs w xs).0.open_file ≡ w.open_file)
            × ((write fs w xs).0.disk
                ≡ (fs.append first_log
                    (put_position (next_pos fs w) (prepare_write_entry xs))
                    w.disk).0))
  write_outcome w ds xs k h room = elim (Result-cases (appended w xs).1) [
    | inl (u, e) ↦ inl (write_ok w ds xs k h room e)
    | inr (e, f) ↦ inr (rw (write_err_lem w xs e h.is_open f) (refl, refl, refl, refl))
  ]

  -- Writes one after the other, with their answers.
  unfoldable pub write_all :
      Wal fs → List (List ℕ) → Wal fs × List (Result (WalError fs.Error) Position)
  write_all w [] = (w, [])
  write_all w (xs ∷ xss) =
      let (w', r) = write fs w xs in let (w'', rs) = write_all w' xss in (w'', r ∷ rs)

  pub write_all-Holds :
      (w : Wal fs) (ds xss : List (List ℕ))
      → Keeps fs first_log
      → Holds w ds
      → length ds + length xss < 2 ^ 63
      → AllOk (write_all w xss).1
      → Holds (write_all w xss).0 (ds ++ xss)
  unfolding write_all
  write_all-Holds w ds [] k h room oks = rw (append-nil ds) h
  write_all-Holds w ds (xs ∷ xss) k h room oks = elim (write_outcome w ds xs k h (omega arith)) [
    | inl (e, h') ↦ rw (← append_assoc ds (xs ∷ []) xss) (
        write_all-Holds (write fs w xs).0 (ds ++ (xs ∷ [])) xss k h'
          (omega (arith, room, length-append ds (xs ∷ []))) (rw e at oks))
    | inr (e, kept, same, left) ↦ absurd (rw e at oks)
  ]

  -- Whether it fails or not, a write leaves what `append` left, and the same open file.
  write_disk :
      (w : Wal fs) (xs : List ℕ)
      → w.open_file ≡ some first_log
      → ((write fs w xs).0.disk ≡ (appended w xs).0) × ((write fs w xs).0.open_file ≡ w.open_file)
  write_disk w xs o = elim (Result-cases (appended w xs).1) [
    | inl (u, e) ↦ rw (write_lem w xs o e) (refl, refl)
    | inr (e, f) ↦ rw (write_err_lem w xs e o f) (refl, refl)
  ]

  pub dir-write_all :
      (w : Wal fs) (xss : List (List ℕ))
      → Keeps fs first_log
      → w.open_file ≡ some first_log
      → fs.read_dir (write_all w xss).0.disk ≡ fs.read_dir w.disk
  unfolding write_all
  dir-write_all w [] k o = refl
  dir-write_all w (xs ∷ xss) k o =
      let (d, same) = write_disk w xs o in
      dir-write_all (write fs w xs).0 xss k (same ∙ o)
      ∙ ap fs.read_dir d
      ∙ k.append_dir w.disk (put_position (next_pos fs w) (prepare_write_entry xs))
