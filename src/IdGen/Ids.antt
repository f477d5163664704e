-- ===== src/IdGen/Ids.antt =====
-- `IdType`, its order and hex form, and `makeId` of id.go.
use nekoq_component.Base.{
  ℕ, ◌+◌, ◌-◌, ◌*◌, ◌/◌, ◌%◌, ◌^◌, ◌<◌, bit_and, bit_or, ◌≡◌, refl, ap, ◌∙◌, arith, length,
  length-append, take, drop, take-append, take_all, drop-append, All, All-append, bit_or_shift,
  bit_and_low,
}
use nekoq_component.Base.Result.{ok}
use nekoq_component.Base.Words.{int64_of_int32}
use nekoq_component.Base.Endian.{put_uint, length-put_uint, put_uint_bytes, get_uint-put_uint}
use nekoq_component.Hex.{hex_decode-hex_encode}
use nekoq_component.IdGen.{
  IdType, Comparison, after, before, same, compare_to, id_bytes, hex_string, from_hex_string,
  id_of_bytes, make_id, Instant, get_time_millis,
}

length-id_bytes : (i : IdType) → length (id_bytes i) ≡ 16
unfolding id_bytes
length-id_bytes i = omega (
  arith,
  length-append (put_uint 8 i.high) (put_uint 8 i.low),
  length-put_uint 8 i.high,
  length-put_uint 8 i.low,
)

id_bytes_high : (i : IdType) → take 8 (id_bytes i) ≡ put_uint 8 i.high
unfolding id_bytes
id_bytes_high i = take-append (put_uint 8 i.high) (put_uint 8 i.low) 8 (length-put_uint 8 i.high)

id_bytes_low : (i : IdType) → take 8 (drop 8 (id_bytes i)) ≡ put_uint 8 i.low
unfolding id_bytes
id_bytes_low i =
    rw (drop-append (put_uint 8 i.high) (put_uint 8 i.low) 8 (length-put_uint 8 i.high))
      (take_all (put_uint 8 i.low) 8 (length-put_uint 8 i.low))

id_bytes_are_bytes : (i : IdType) → All (λ b. b < 256) (id_bytes i)
unfolding id_bytes
id_bytes_are_bytes i =
    All-append (λ b. b < 256) (put_uint 8 i.high) (put_uint 8 i.low) (put_uint_bytes 8 i.high)
      (put_uint_bytes 8 i.low)

id_of_bytes-id_bytes :
    (i : IdType) → i.high < 2 ^ 64 → i.low < 2 ^ 64 → id_of_bytes (id_bytes i) ≡ ok i
id_of_bytes-id_bytes i h l =
    rw
      (
        length-id_bytes i,
        id_bytes_high i,
        id_bytes_low i,
        get_uint-put_uint 8 i.high h,
        get_uint-put_uint 8 i.low l,
      )
      refl

-- FromHexString gives back the id that HexString wrote, for every pair of 64-bit words.
pub from_hex_string-hex_string :
    (i : IdType) → i.high < 2 ^ 64 → i.low < 2 ^ 64 → from_hex_string (hex_string i) ≡ ok i
unfolding from_hex_string hex_string
from_hex_string-hex_string i h l =
    rw (hex_decode-hex_encode (id_bytes i) (id_bytes_are_bytes i), from_hex_string)
      (id_of_bytes-id_bytes i h l)

-- Two comparisons of a pair, seen from either side.
abbrev flip : Comparison → Comparison
flip after = before
flip before = after
flip same = same

pub compare_to-flip : (i j : IdType) → compare_to j i ≡ flip (compare_to i j)
unfolding compare_to
compare_to-flip i j = ground arith

pub compare_to-same :
    (i j : IdType)
    → i.high < 2 ^ 64
    → i.low < 2 ^ 64
    → j.high < 2 ^ 64
    → j.low < 2 ^ 64
    → compare_to i j ≡ same
    → i ≡ j
unfolding compare_to
compare_to-same i j a b c d e = ground arith

pub compare_to_trans :
    (i j k : IdType) → compare_to i j ≡ before → compare_to j k ≡ before → compare_to i k ≡ before
unfolding compare_to
compare_to_trans i j k p q = ground arith

-- A clock reading is a nonnegative int64.
pub get_time_millis-lt : (n : Instant) → get_time_millis n < 2 ^ 63
unfolding get_time_millis
get_time_millis-lt n = omega (
  arith,
  bit_and_low 63 ((n.unix * 1000 % 2 ^ 64 + n.nanosecond % 1000000000 / 1000000) % 2 ^ 64),
)

shifted : (x : ℕ) → x * 2 ^ 16 % 2 ^ 64 ≡ x % 2 ^ 48 * 2 ^ 16
shifted x = omega arith

low_half : (s : ℕ) → s < 2 ^ 32 → bit_and (int64_of_int32 s) (2 ^ 32 - 1) ≡ s
unfolding int64_of_int32
low_half s h = bit_and_low 32 _ ∙ ground arith

-- The two words of an id: time since the start and node, element and sequence.
pub high-make_id :
    (time node element seq start : ℕ)
    → node < 2 ^ 16
    → (make_id time node element seq start).high
      ≡ (time + 2 ^ 64 - start) % 2 ^ 64 % 2 ^ 48 * 2 ^ 16 + node
unfolding make_id
high-make_id time node element seq start h =
    let since : ℕ = (time + 2 ^ 64 - start) % 2 ^ 64 in
    ap (λ (t : ℕ). bit_or t node) (shifted since) ∙ bit_or_shift 16 (since % 2 ^ 48) node h

pub low-make_id :
    (time node element seq start : ℕ)
    → seq < 2 ^ 32
    → (make_id time node (element * 2 ^ 32) seq start).low ≡ element * 2 ^ 32 + seq
unfolding make_id
low-make_id time node element seq start h =
    ap (λ (t : ℕ). bit_or (element * 2 ^ 32) t) (low_half seq h) ∙ bit_or_shift 32 element seq h

-- Two ids made from times below 2^63 with one start time are equal only if their nodes, their
-- elements, their sequence numbers and their milliseconds since the start (modulo 48 bits) are
-- equal.
pub make_id_injective :
    (t n e s t' n' e' s' start : ℕ)
    → t < 2 ^ 63
    → n < 2 ^ 16
    → s < 2 ^ 32
    → t' < 2 ^ 63
    → n' < 2 ^ 16
    → s' < 2 ^ 32
    → make_id t n (e * 2 ^ 32) s start ≡ make_id t' n' (e' * 2 ^ 32) s' start
    → (n ≡ n')
      × (e ≡ e')
      × (s ≡ s')
      × ((t + 2 ^ 64 - start) % 2 ^ 48 ≡ (t' + 2 ^ 64 - start) % 2 ^ 48)
make_id_injective t n e s t' n' e' s' start a b c a' b' c' eq = omega (
  arith,
  high-make_id t n (e * 2 ^ 32) s start b,
  high-make_id t' n' (e' * 2 ^ 32) s' start b',
  low-make_id t n e s start c,
  low-make_id t' n' e' s' start c',
  ap (λ (i : IdType). i.high) eq,
  ap (λ (i : IdType). i.low) eq,
)
