-- ===== src/Wal/Entry.antt =====
-- `prepareWriteEntry` of wal.go: a header of 32 bytes (position, size, checksum, zeros) and the data.
use nekoq_component.Base.{
  ℕ, ◌+◌, ◌*◌, ◌%◌, ◌^◌, ◌<◌, ◌≡◌, refl, ◌∙◌, List, [], ◌∷◌, ◌++◌, append_assoc, arith, length,
  length-append, take, drop, take-append, drop-append, replicate, bit_or, bit_and,
}
use nekoq_component.Base.Words.{max_int64}
use nekoq_component.Base.Endian.{put_uint, get_uint, length-put_uint, get_uint-put_uint}
use nekoq_component.Wal.Position.{Position, IsPosition, to_bytes, length-to_bytes, masked}

abbrev pub header_size : ℕ
header_size = 16 + 4 + 4 + 8

-- `hash/adler32`: the two sums modulo 65521.
abbrev adler_sums : ℕ → ℕ → List ℕ → ℕ
adler_sums a b [] = bit_or (b * 2 ^ 16) a
adler_sums a b (x ∷ xs) = let a' = (a + x) % 65521 in adler_sums a' ((b + a') % 65521) xs

unfoldable pub adler32 : List ℕ → ℕ
adler32 xs = adler_sums 1 0 xs

-- The bytes 16 to 31: `uint32(len(data))`, the checksum, and eight zeros that nothing writes.
unfoldable pub size_and_sum : List ℕ → List ℕ
size_and_sum xs = put_uint 4 (length xs % 2 ^ 32) ++ (put_uint 4 (adler32 xs) ++ replicate 8 0)

unfoldable pub prepare_write_entry : List ℕ → List ℕ
prepare_write_entry xs = replicate 16 0 ++ (size_and_sum xs ++ xs)

-- `copy(data[0:16], pos.ToBytes())`
unfoldable pub put_position : Position → List ℕ → List ℕ
put_position p entry = to_bytes p ++ drop 16 entry

unfoldable pub header : Position → List ℕ → List ℕ
header p xs = to_bytes p ++ size_and_sum xs

-- What the log file gets for a record.
pub put_position-prepare :
    (p : Position) (xs : List ℕ) → put_position p (prepare_write_entry xs) ≡ header p xs ++ xs
unfolding put_position prepare_write_entry header
put_position-prepare p xs = rw append_assoc refl

pub length-size_and_sum : (xs : List ℕ) → length (size_and_sum xs) ≡ 16
unfolding size_and_sum
length-size_and_sum xs = omega (
  arith,
  length-append (put_uint 4 (length xs % 2 ^ 32)) (put_uint 4 (adler32 xs) ++ replicate 8 0),
  length-append (put_uint 4 (adler32 xs)) (replicate 8 0),
  length-put_uint 4 (length xs % 2 ^ 32),
  length-put_uint 4 (adler32 xs),
)

pub length-header : (p : Position) (xs : List ℕ) → length (header p xs) ≡ 32
unfolding header
length-header p xs =
    omega (
      arith,
      length-append (to_bytes p) (size_and_sum xs),
      length-to_bytes p,
      length-size_and_sum xs,
    )

-- The fields that the reader takes out of a header.
abbrev pub size_field : List ℕ → ℕ
size_field h = get_uint (take 4 (drop 16 h))

abbrev pub offset_field : List ℕ → ℕ
offset_field h = bit_and (get_uint (take 8 (drop 8 h))) max_int64

pub size_field-header :
    (p : Position) (xs : List ℕ) → length xs < 2 ^ 32 → size_field (header p xs) ≡ length xs
unfolding header size_and_sum
size_field-header p xs h =
    rw
      (
        drop-append (to_bytes p) (size_and_sum xs) 16 (length-to_bytes p),
        take-append (put_uint 4 (length xs % 2 ^ 32)) (put_uint 4 (adler32 xs) ++ replicate 8 0) 4
            (length-put_uint 4 (length xs % 2 ^ 32)),
      )
      (get_uint-put_uint 4 (length xs % 2 ^ 32) (omega arith) ∙ omega (arith, h))

pub offset_field-header :
    (p : Position) (xs : List ℕ) → IsPosition p → offset_field (header p xs) ≡ p.offset
unfolding header to_bytes
offset_field-header p xs v =
    rw
      (
        append_assoc (put_uint 8 (bit_and p.file max_int64))
            (put_uint 8 (bit_and p.offset max_int64)) (size_and_sum xs),
        drop-append (put_uint 8 (bit_and p.file max_int64)) _ 8
            (length-put_uint 8 (bit_and p.file max_int64)),
        take-append (put_uint 8 (bit_and p.offset max_int64)) (size_and_sum xs) 8
            (length-put_uint 8 (bit_and p.offset max_int64)),
        masked p.offset v.offset_nonneg,
        get_uint-put_uint 8 p.offset (omega (arith, v.offset_nonneg)),
        masked p.offset v.offset_nonneg,
      )
      refl
