-- ===== src/Wal/Reader.antt =====
-- `walFileReader` of wal.go: the position of the last record of a log file. The reader is the list of
-- bytes that are left to read; a read never fails for another reason than the end of the file.
use nekoq_component.Base.{
  ℕ, zero, suc, ◌^◌, ◌≤◌, ◌<◌, ◌≡◌, refl, ap, ◌∙◌, List, [], ◌∷◌, ◌++◌, append-nil, arith, ◌==◌,
  ==_iff, ◌≢◌, if◌then◌else◌, length, take, drop, take-append, drop-append, take_short, drop_all,
  length-drop, sym, replicate,
}
use mathlib.Core.Path.{◌≡⟨◌⟩◌, ◌∎}
use nekoq_component.Wal.Position.{Position, IsPosition}
use nekoq_component.Wal.Entry.{
  header_size, header, size_field, offset_field, length-header, size_field-header,
  offset_field-header,
}

-- `io.ReadFull`: `io.EOF` if nothing could be read, `io.ErrUnexpectedEOF` if not everything.
pub data ReadStatus : Type 0 where
  complete end_of_file unexpected_end : ReadStatus

pub record ReadFull : Type 0 where
  pub got : List ℕ
  pub rest : List ℕ
  pub status : ReadStatus

unfoldable pub read_full : ℕ → List ℕ → ReadFull
read_full n r =
    let got = take n r in
    record {
      got = got;
      rest = drop n r;
      status =
          if length got == n
          then complete
          else if length got == 0
          then end_of_file
          else unexpected_end;
    }

-- How the loop of `readLastPos` ends; `unfinished` is a loop that has not ended yet.
pub data ReadResult : Type 0 where
  found : Position → ReadResult
  failed : ReadStatus → ReadResult
  unfinished : ReadResult

-- What was read overwrites the front of the buffer.
abbrev pub overwrite : List ℕ → List ℕ → List ℕ
overwrite buffer got = got ++ drop (length got) buffer

-- One round, from the read of the header on; `loop` is the rounds that follow. Only `io.EOF` ends
-- the loop well, and the header buffer is the same one in each round.
unfoldable pub after_data :
    (List ℕ → Position → List ℕ → ReadResult) → ℕ → List ℕ → ReadFull → ReadResult
after_data loop idx buffer d = elim d.status [
  | complete ↦ loop buffer (record { file = idx; offset = offset_field buffer }) d.rest
  | end_of_file ↦ failed end_of_file
  | unexpected_end ↦ failed unexpected_end
]

unfoldable pub after_header :
    (List ℕ → Position → List ℕ → ReadResult) → ℕ → List ℕ → Position → ReadFull → ReadResult
unfolding after_data read_full
after_header loop idx buffer pos h =
    let buffer' = overwrite buffer h.got in
    let more = after_data loop idx buffer' (read_full (size_field buffer') h.rest) in
    elim h.status [
      | end_of_file ↦ found (record { file = idx; offset = pos.offset })
      | complete ↦ more
      | unexpected_end ↦ more
    ]

unfoldable pub read_loop : ℕ → ℕ → List ℕ → Position → List ℕ → ReadResult
unfolding after_header
read_loop zero idx buffer pos r = unfinished
read_loop (suc fuel) idx buffer pos r =
    after_header (read_loop fuel idx) idx buffer pos (read_full header_size r)

-- Each round but the last takes a byte at least, so that this fuel is enough.
unfoldable pub read_last_pos : ℕ → List ℕ → ReadResult
read_last_pos idx r =
    read_loop (suc (length r)) idx (replicate header_size 0) (record { file = idx; offset = 0 }) r

-- A whole read, and a read at the end.
pub read_full_append :
    (n : ℕ) (xs r : List ℕ)
    → length xs ≡ n
    → read_full n (xs ++ r) ≡ record { got = xs; rest = r; status = complete }
unfolding read_full
read_full_append n xs r h =
    rw (take-append xs r n h, drop-append xs r n h, (==_iff (length xs) n).1 h) refl

after_header_finishes :
    (loop : List ℕ → Position → List ℕ → ReadResult) (idx : ℕ) (buffer : List ℕ) (pos : Position)
    (h : ReadFull)
    → ((b : List ℕ) (p : Position) (s : List ℕ)
        → length s ≤ length h.rest
        → loop b p s ≢ unfinished)
    → after_header loop idx buffer pos h ≢ unfinished
unfolding after_header
after_header_finishes loop idx buffer pos h ends e =
    let buffer' : List ℕ = overwrite buffer h.got in
    let rest : List ℕ = drop (size_field buffer') h.rest in
    ground (
      arith,
      ends buffer' (record { file = idx; offset = offset_field buffer' }) rest
          (omega (arith, length-drop (size_field buffer') h.rest)),
    )

-- Whatever the bytes, the loop ends.
read_loop_finishes :
    (fuel idx : ℕ) (buffer : List ℕ) (pos : Position) (r : List ℕ)
    → length r < fuel
    → read_loop fuel idx buffer pos r ≢ unfinished
unfolding read_loop read_full
read_loop_finishes zero idx buffer pos r h = absurd (omega arith)
read_loop_finishes (suc fuel) idx buffer pos [] h = cc
read_loop_finishes (suc fuel) idx buffer pos (x ∷ xs) h =
    after_header_finishes (read_loop fuel idx) idx buffer pos (read_full header_size (x ∷ xs))
      (λ b p s k. read_loop_finishes fuel idx b p s (omega (arith, k, length-drop 31 xs)))

-- Whatever the bytes of a log file, the loop of readLastPos comes to an end.
pub read_last_pos_finishes : (idx : ℕ) (r : List ℕ) → read_last_pos idx r ≢ unfinished
unfolding read_last_pos
read_last_pos_finishes idx r = read_loop_finishes _ idx _ _ r (omega arith)

overwritten : (buffer h : List ℕ) → length buffer ≡ length h → overwrite buffer h ≡ h
overwritten buffer h e = rw (drop_all buffer (length h) e) (append-nil h)

after_header_complete :
    (loop : List ℕ → Position → List ℕ → ReadResult) (idx : ℕ) (buffer : List ℕ) (pos : Position)
    (h r : List ℕ)
    → length buffer ≡ length h
    → after_header loop idx buffer pos (record { got = h; rest = r; status = complete })
      ≡ after_data loop idx h (read_full (size_field h) r)
unfolding after_header
after_header_complete loop idx buffer pos h r e = rw (overwritten buffer h e) refl

after_data_complete :
    (loop : List ℕ → Position → List ℕ → ReadResult) (idx : ℕ) (h : List ℕ) (xs r : List ℕ)
    → after_data loop idx h (record { got = xs; rest = r; status = complete })
      ≡ loop h (record { file = idx; offset = offset_field h }) r
unfolding after_data
after_data_complete loop idx h xs r = refl

pub read_loop_lem :
    (fuel idx : ℕ) (buffer : List ℕ) (pos : Position) (r : List ℕ)
    → read_loop (suc fuel) idx buffer pos r
      ≡ after_header (read_loop fuel idx) idx buffer pos (read_full header_size r)
unfolding read_loop
read_loop_lem fuel idx buffer pos r = refl

-- A whole header at the front, whatever follows it.
pub read_loop-header :
    (fuel idx : ℕ) (buffer : List ℕ) (pos p : Position) (xs r : List ℕ)
    → length buffer ≡ 32
    → read_loop (suc fuel) idx buffer pos (header p xs ++ r)
      ≡ after_data (read_loop fuel idx) idx (header p xs) (read_full (size_field (header p xs)) r)
read_loop-header fuel idx buffer pos p xs r b =
    read_loop (suc fuel) idx buffer pos (header p xs ++ r)
    ≡⟨ read_loop_lem fuel idx buffer pos (header p xs ++ r) ⟩
      after_header (read_loop fuel idx) idx buffer pos (read_full header_size (header p xs ++ r))
    ≡⟨ ap (after_header (read_loop fuel idx) idx buffer pos)
        (read_full_append 32 (header p xs) r (length-header p xs)) ⟩
      after_header (read_loop fuel idx) idx buffer pos
        (record { got = header p xs; rest = r; status = complete })
    ≡⟨ after_header_complete (read_loop fuel idx) idx buffer pos (header p xs) r
        (omega (arith, b, length-header p xs)) ⟩
      after_data (read_loop fuel idx) idx (header p xs) (read_full (size_field (header p xs)) r) ∎

-- A record at the front of the file takes one round.
pub read_loop_record :
    (fuel idx : ℕ) (buffer : List ℕ) (pos p : Position) (xs r : List ℕ)
    → length buffer ≡ 32
    → IsPosition p
    → length xs < 2 ^ 32
    → read_loop (suc fuel) idx buffer pos (header p xs ++ (xs ++ r))
      ≡ read_loop fuel idx (header p xs) (record { file = idx; offset = p.offset }) r
read_loop_record fuel idx buffer pos p xs r b v h =
    read_loop (suc fuel) idx buffer pos (header p xs ++ (xs ++ r))
    ≡⟨ read_loop-header fuel idx buffer pos p xs (xs ++ r) b ⟩
      after_data (read_loop fuel idx) idx (header p xs)
        (read_full (size_field (header p xs)) (xs ++ r))
    ≡⟨ ap (after_data (read_loop fuel idx) idx (header p xs))
        (read_full_append (size_field (header p xs)) xs r (sym (size_field-header p xs h))) ⟩
      after_data (read_loop fuel idx) idx (header p xs)
        (record { got = xs; rest = r; status = complete })
    ≡⟨ after_data_complete (read_loop fuel idx) idx (header p xs) xs r ⟩
      read_loop fuel idx (header p xs) (record { file = idx; offset = offset_field (header p xs) })
        r
    ≡⟨ ap (λ o. read_loop fuel idx (header p xs) (record { file = idx; offset = o }) r)
        (offset_field-header p xs v) ⟩
      read_loop fuel idx (header p xs) (record { file = idx; offset = p.offset }) r ∎

-- How `ReadFull` ends on too few bytes.
abbrev pub cut_status : List ℕ → ReadStatus
cut_status part = if length part == 0 then end_of_file else unexpected_end

-- A record whose data are cut short ends the loop with a read error.
pub read_loop_cut :
    (fuel idx : ℕ) (buffer : List ℕ) (pos p : Position) (xs part : List ℕ)
    → length buffer ≡ 32
    → length xs < 2 ^ 32
    → length part < length xs
    → read_loop (suc fuel) idx buffer pos (header p xs ++ part) ≡ failed (cut_status part)
unfolding after_data read_full
read_loop_cut fuel idx buffer pos p xs part b h l =
    read_loop-header fuel idx buffer pos p xs part b
    ∙ rw (size_field-header p xs h, take_short part (length xs) (omega arith)) (ground (arith, l))
