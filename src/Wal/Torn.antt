-- ===== src/Wal/Torn.antt =====
-- `readLastPos` on a header that was cut: only `io.EOF` is looked at, so that the round goes on with
-- the bytes that the header before it left in the buffer.
use nekoq_component.Base.{
  ℕ, suc, ◌+◌, ◌-◌, ◌^◌, ◌≤◌, ◌<◌, ◌≡◌, refl, ap, ◌∙◌, List, [], ◌++◌, arith, length, length-append,
  drop-append, take_short, drop_short, replicate,
}
use nekoq_component.Wal.Position.{Position, IsPosition, to_bytes, length-to_bytes}
use nekoq_component.Wal.Entry.{
  header_size, header, size_and_sum, size_field, length-header, size_field-header,
  offset_field-header,
}
use nekoq_component.Wal.Reader.{
  ReadResult, unexpected_end, found, read_full, after_data, after_header, read_loop, read_loop_lem,
  read_loop_record, read_last_pos, overwrite,
}
use nekoq_component.Wal.Contents.{
  at, entries, AllFit, read_loop-entries, read_loop_end, length-entries-le,
}

half_header : (p q : Position) → overwrite (header p []) (to_bytes q) ≡ header q []
unfolding header
half_header p q =
    rw (length-to_bytes q, drop-append (to_bytes p) (size_and_sum []) 16 (length-to_bytes p)) refl

short_status :
    (q : Position)
    → read_full header_size (to_bytes q)
      ≡ record { got = to_bytes q; rest = []; status = unexpected_end }
unfolding read_full
short_status q =
    rw
      (
        take_short (to_bytes q) 32 (omega (arith, length-to_bytes q)),
        drop_short (to_bytes q) 32 (omega (arith, length-to_bytes q)),
        length-to_bytes q,
      )
      refl

after_short_header :
    (loop : List ℕ → Position → List ℕ → ReadResult) (idx : ℕ) (p q pos : Position)
    → after_header loop idx
        (header p [])
        pos
        (record { got = to_bytes q; rest = []; status = unexpected_end })
      ≡ after_data loop idx (header q []) (read_full (size_field (header q [])) [])
unfolding after_header
after_short_header loop idx p q pos = rw (half_header p q) refl

after_no_data :
    (loop : List ℕ → Position → List ℕ → ReadResult) (idx : ℕ) (q : Position)
    → IsPosition q
    → after_data loop idx (header q []) (read_full (size_field (header q [])) [])
      ≡ loop (header q []) (at idx q.offset) []
unfolding after_data read_full
after_no_data loop idx q v =
    rw (size_field-header q [] (omega arith))
      (ap (λ o. loop (header q []) (at idx o) []) (offset_field-header q [] v))

torn_round :
    (fuel idx : ℕ) (p q pos : Position)
    → IsPosition q
    → read_loop (suc fuel) idx (header p []) pos (to_bytes q)
      ≡ read_loop fuel idx (header q []) (at idx q.offset) []
torn_round fuel idx p q pos v =
    read_loop_lem fuel idx (header p []) pos (to_bytes q)
    ∙ ap (after_header (read_loop fuel idx) idx (header p []) pos) (short_status q)
    ∙ after_short_header (read_loop fuel idx) idx p q pos
    ∙ after_no_data (read_loop fuel idx) idx q v

-- Where the last whole record of a log file has no data and only the 16 bytes of position of a
-- further record were written, readLastPos takes that record's number for the last one written.
pub torn_header_counts :
    (idx : ℕ) (ds : List (List ℕ)) (p q : Position)
    → idx < 2 ^ 63
    → length ds < 2 ^ 63
    → AllFit ds
    → IsPosition p
    → IsPosition q
    → read_last_pos idx (entries idx 0 ds ++ (header p [] ++ to_bytes q)) ≡ found (at idx q.offset)
unfolding read_last_pos
torn_header_counts idx ds p q i o h v v' =
    let whole : List ℕ = entries idx 0 ds ++ (header p [] ++ to_bytes q) in
    let f : ℕ = length whole - length ds - 2 in
    let enough : length ds + 48 ≤ length whole = omega (
      arith,
      length-entries-le idx 0 ds,
      length-append (entries idx 0 ds) (header p [] ++ to_bytes q),
      length-append (header p []) (to_bytes q),
      length-header p [],
      length-to_bytes q,
    ) in
    let (buffer, b, e) =
      read_loop-entries ds (suc (length whole)) (suc (suc (suc f))) idx 0 (replicate header_size 0)
        (header p [] ++ to_bytes q) (omega arith) (omega (arith, enough)) i (omega arith) h in
    e
    ∙ read_loop_record (suc (suc f)) idx buffer (at idx (0 + length ds)) p [] (to_bytes q) b v
        (omega arith)
    ∙ torn_round (suc f) idx p q (at idx p.offset) v'
    ∙ read_loop_end f idx (header q []) (at idx q.offset)
