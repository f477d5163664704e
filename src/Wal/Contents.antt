-- ===== src/Wal/Contents.antt =====
-- What a log file holds after some writes, and what `readLastPos` makes of it.
use nekoq_component.Base.{
  ℕ, zero, suc, ◌+◌, ◌-◌, ◌^◌, ◌≤◌, ◌<◌, ◌≡◌, refl, ap, ◌∙◌, List, [], ◌∷◌, ◌++◌, append_assoc,
  append-nil, arith, length, length-append, replicate, All,
}
use nekoq_component.Wal.Position.{Position, IsPosition}
use nekoq_component.Wal.Entry.{header_size, header, length-header}
use nekoq_component.Wal.Reader.{
  found, failed, read_full, read_loop, read_loop_record, read_last_pos, read_loop_cut, cut_status,
}

abbrev pub at : ℕ → ℕ → Position
at idx k = record { file = idx; offset = k }

-- The records of file `idx` after number `k`.
unfoldable pub entries : ℕ → ℕ → List (List ℕ) → List ℕ
entries idx k [] = []
entries idx k (d ∷ ds) = header (at idx (suc k)) d ++ (d ++ entries idx (suc k) ds)

pub entries_last :
    (idx k : ℕ) (ds : List (List ℕ)) (d : List ℕ)
    → entries idx k (ds ++ (d ∷ []))
      ≡ entries idx k ds ++ (header (at idx (suc (k + length ds))) d ++ d)
unfolding entries
entries_last idx k [] d = let same : k + 0 ≡ k = omega arith in rw (append-nil d, same) refl
entries_last idx k (x ∷ ds) d =
    let same : suc k + length ds ≡ k + suc (length ds) = omega arith in
    rw
      (
        entries_last idx (suc k) ds d,
        same,
        append_assoc (header (at idx (suc k)) x),
        append_assoc x,
      )
      refl

pub length-entries-le : (idx k : ℕ) (ds : List (List ℕ)) → length ds ≤ length (entries idx k ds)
unfolding entries
length-entries-le idx k [] = omega arith
length-entries-le idx k (d ∷ ds) = omega (
  arith,
  length-append (header (at idx (suc k)) d) (d ++ entries idx (suc k) ds),
  length-append d (entries idx (suc k) ds),
  length-header (at idx (suc k)) d,
  length-entries-le idx (suc k) ds,
)

-- Every record fits its size field.
abbrev pub AllFit : List (List ℕ) → Type 0
AllFit ds = All (λ d. length d < 2 ^ 32) ds

-- Whole records are read one by one, whatever follows them.
pub read_loop-entries :
    (ds : List (List ℕ)) (fuel f idx k : ℕ) (buffer tail : List ℕ)
    → length buffer ≡ 32
    → fuel ≡ length ds + f
    → idx < 2 ^ 63
    → k + length ds < 2 ^ 63
    → AllFit ds
    → (buffer' : List ℕ) × (length buffer' ≡ 32)
      × (read_loop fuel idx buffer (at idx k) (entries idx k ds ++ tail)
          ≡ read_loop f idx buffer' (at idx (k + length ds)) tail)
unfolding entries
read_loop-entries [] fuel f idx k buffer tail b e i o h =
    let same : k + 0 ≡ k = omega arith in
    let fuels : fuel ≡ f = omega arith in (buffer, b, rw (same, fuels) refl)
read_loop-entries (d ∷ ds) zero f idx k buffer tail b e i o h = absurd (omega arith)
read_loop-entries (d ∷ ds) (suc fuel) f idx k buffer tail b e i o h =
    let (buffer', b', later) =
      read_loop-entries ds fuel f idx (suc k) (header (at idx (suc k)) d) tail
        (length-header (at idx (suc k)) d) (omega arith) i (omega arith) h.1 in
    let same : suc k + length ds ≡ k + suc (length ds) = omega arith in
    let next : IsPosition (at idx (suc k)) = record {
      file_nonneg = i;
      offset_nonneg = omega arith;
    } in
    (
      buffer',
      b',
      rw (append_assoc (header (at idx (suc k)) d), append_assoc d)
          (read_loop_record fuel idx buffer (at idx k) (at idx (suc k)) d
              (entries idx (suc k) ds ++ tail) b next h.0
            ∙ later
            ∙ ap (λ o. read_loop f idx buffer' (at idx o) tail) same),
    )

pub read_loop_end :
    (f idx : ℕ) (buffer : List ℕ) (p : Position)
    → read_loop (suc f) idx buffer p [] ≡ found (at idx p.offset)
unfolding read_loop read_full
read_loop_end f idx buffer p = refl

-- A log file that consists of whole records, numbered from 1, is read to the number of its last
-- record, for any file number below 2^63, fewer than 2^63 records, and data that fit the size
-- field.
pub read_last_pos-entries :
    (idx : ℕ) (ds : List (List ℕ))
    → idx < 2 ^ 63
    → length ds < 2 ^ 63
    → AllFit ds
    → read_last_pos idx (entries idx 0 ds) ≡ found (at idx (length ds))
unfolding read_last_pos
read_last_pos-entries idx ds i o h =
    let f : ℕ = length (entries idx 0 ds) - length ds in
    let (buffer, b, e) =
      read_loop-entries ds (suc (length (entries idx 0 ds))) (suc f) idx 0 (replicate header_size 0)
        [] (omega arith) (omega (arith, length-entries-le idx 0 ds)) i (omega arith) h in
    let same : 0 + length ds ≡ length ds = omega arith in
    rw (append-nil (entries idx 0 ds), same) at e ∙ read_loop_end f idx buffer (at idx (length ds))

-- A log file of whole records followed by a record whose header is whole and whose data are cut
-- short makes readLastPos fail with the read's end-of-file error, or with the unexpected one if
-- some of the data are there.
pub read_last_pos_cut :
    (idx : ℕ) (ds : List (List ℕ)) (p : Position) (d part : List ℕ)
    → idx < 2 ^ 63
    → length ds < 2 ^ 63
    → AllFit ds
    → length d < 2 ^ 32
    → length part < length d
    → read_last_pos idx (entries idx 0 ds ++ (header p d ++ part)) ≡ failed (cut_status part)
unfolding read_last_pos
read_last_pos_cut idx ds p d part i o h fits cut =
    let whole : List ℕ = entries idx 0 ds ++ (header p d ++ part) in
    let f : ℕ = length whole - length ds in
    let enough : length ds ≤ length whole =
      omega (
        arith,
        length-entries-le idx 0 ds,
        length-append (entries idx 0 ds) (header p d ++ part),
      ) in
    let (buffer, b, e) =
      read_loop-entries ds (suc (length whole)) (suc f) idx 0 (replicate header_size 0)
        (header p d ++ part) (omega arith) (omega (arith, enough)) i (omega arith) h in
    e ∙ read_loop_cut f idx buffer (at idx (0 + length ds)) p d part b fits cut
