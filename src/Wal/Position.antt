-- ===== src/Wal/Position.antt =====
-- `Position` of db/alpha/replication/model.go: the number of a file and of a record in it.
use nekoq_component.Base.{
  ℕ, ◌^◌, ◌<◌, bit_and, ◌≡◌, refl, List, ◌++◌, arith, ◌==◌, if◌then◌else◌, length, length-append,
  take, drop, take-append, drop-append, take_all, bit_and_low,
}
use nekoq_component.Base.Result.{Result, ok, err}
use nekoq_component.Base.Str.{Str}
use nekoq_component.Base.Words.{max_int64}
use nekoq_component.Base.Endian.{
  put_uint, get_uint, length-put_uint, put_uint_bytes, get_uint-put_uint,
}
use nekoq_component.Hex.{hex_encode, hex_decode, hex_decode-hex_encode}

pub record Position : Type 0 where
  pub file : ℕ
  pub offset : ℕ

unfoldable pub to_bytes : Position → List ℕ
to_bytes p = put_uint 8 (bit_and p.file max_int64) ++ put_uint 8 (bit_and p.offset max_int64)

pub data PositionError : Type 0 where
  invalid_data_length : PositionError

pub from_bytes : List ℕ → Result PositionError Position
from_bytes b =
    if length b == 16
    then ok (record {
      file = bit_and (get_uint (take 8 b)) max_int64;
      offset = bit_and (get_uint (take 8 (drop 8 b))) max_int64;
    })
    else err invalid_data_length

pub first_to_hex_string : Position → Str
first_to_hex_string p = hex_encode (take 8 (to_bytes p))

pub last_to_hex_string : Position → Str
last_to_hex_string p = hex_encode (drop 8 (to_bytes p))

-- Both numbers are nonnegative int64s.
pub record IsPosition (p : Position) : Type 0 where
  pub file_nonneg : p.file < 2 ^ 63
  pub offset_nonneg : p.offset < 2 ^ 63

pub masked : (x : ℕ) → x < 2 ^ 63 → bit_and x max_int64 ≡ x
masked x h = omega (arith, bit_and_low 63 x)

pub length-to_bytes : (p : Position) → length (to_bytes p) ≡ 16
unfolding to_bytes
length-to_bytes p = omega (
  arith,
  length-append (put_uint 8 (bit_and p.file max_int64)) (put_uint 8 (bit_and p.offset max_int64)),
  length-put_uint 8 (bit_and p.file max_int64),
  length-put_uint 8 (bit_and p.offset max_int64),
)

pub first_half : (p : Position) → take 8 (to_bytes p) ≡ put_uint 8 (bit_and p.file max_int64)
unfolding to_bytes
first_half p = take-append _ _ 8 (length-put_uint 8 (bit_and p.file max_int64))

pub last_half : (p : Position) → drop 8 (to_bytes p) ≡ put_uint 8 (bit_and p.offset max_int64)
unfolding to_bytes
last_half p =
    drop-append (put_uint 8 (bit_and p.file max_int64)) _ 8
      (length-put_uint 8 (bit_and p.file max_int64))

-- FromBytes reads back the position that ToBytes wrote, if both its numbers are nonnegative.
pub from_bytes-to_bytes : (p : Position) → IsPosition p → from_bytes (to_bytes p) ≡ ok p
unfolding from_bytes
from_bytes-to_bytes p v =
    rw
      (
        length-to_bytes p,
        first_half p,
        last_half p,
        take_all (put_uint 8 (bit_and p.offset max_int64)) 8
            (length-put_uint 8 (bit_and p.offset max_int64)),
        masked p.file v.file_nonneg,
        masked p.offset v.offset_nonneg,
        get_uint-put_uint 8 p.file (omega (arith, v.file_nonneg)),
        get_uint-put_uint 8 p.offset (omega (arith, v.offset_nonneg)),
        masked p.file v.file_nonneg,
        masked p.offset v.offset_nonneg,
      )
      refl

-- The strings of FirstToHexString and LastToHexString decode to the first and the last eight bytes
-- of the position.
pub hex_halves :
    (p : Position)
    → (hex_decode (first_to_hex_string p) ≡ ok (take 8 (to_bytes p)))
      × (hex_decode (last_to_hex_string p) ≡ ok (drop 8 (to_bytes p)))
unfolding first_to_hex_string last_to_hex_string
hex_halves p = (
  hex_decode-hex_encode _ (rw (first_half p) (put_uint_bytes 8 _)),
  hex_decode-hex_encode _ (rw (last_half p) (put_uint_bytes 8 _)),
)
