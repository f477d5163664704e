-- ===== src/Wal/Names.antt =====
-- The names of log files: `fmt.Sprintf("wal_%016x.log", n)` and `fmt.Sscanf(name, "wal_%016x.log", &idx)`
-- of wal.go, for names of ASCII characters.
use mathlib.Core.List.{foldl}
use nekoq_component.Base.{
  ℕ, zero, suc, ◌+◌, ◌-◌, ◌*◌, ◌/◌, ◌%◌, ◌^◌, ◌<◌, ◌≡◌, refl, ap, ◌∙◌, Bool, false, ◌||◌, Option,
  none, some, List, [], ◌∷◌, ◌++◌, arith, ◌==◌, leb, ltb, lt→ltb, if◌then◌else◌, length,
  length-append, All,
}
use nekoq_component.Base.Str.{Str, bytes}
use nekoq_component.Base.Endian.{
  put_uint, get_uint, push_byte, length-put_uint, put_uint_bytes, get_uint-put_uint,
}
use nekoq_component.Hex.{hex_digit, hex_encode, hex_value, hex_value-hex_digit, hex_digit_range}

abbrev prefix : Str
prefix = bytes "wal_"

abbrev suffix : Str
suffix = bytes ".log"

-- `%016x` of an int64: the width counts the sign.
abbrev drop_zero : Str → Str
drop_zero [] = []
drop_zero (c ∷ cs) = if c == b'0' then cs else c ∷ cs

unfoldable pub hex16 : ℕ → Str
hex16 n =
    if ltb n (2 ^ 63)
    then hex_encode (put_uint 8 n)
    else b'-' ∷ drop_zero (hex_encode (put_uint 8 (2 ^ 64 - n)))

unfoldable pub wal_name : ℕ → Str
wal_name n = prefix ++ (hex16 n ++ suffix)

-- A literal of the format.
unfoldable pub scan_literal : Str → Str → Option Str
scan_literal [] s = some s
scan_literal (f ∷ fs) [] = none
scan_literal (f ∷ fs) (c ∷ cs) = if f == c then scan_literal fs cs else none

-- Blanks are skipped before a number, and a newline is an error.
abbrev is_blank : ℕ → Bool
is_blank c = (c == 9) || ((c == 11) || ((c == 12) || ((c == 13) || (c == 32))))

unfoldable pub skip_space : Str → Option Str
skip_space [] = some []
skip_space (c ∷ cs) = if is_blank c then skip_space cs else if c == 10 then none else some (c ∷ cs)

-- Hexadecimal digits, at most `width`: their value and what is left.
unfoldable pub scan_digits : ℕ → ℕ → Str → ℕ × Str
scan_digits zero acc s = (acc, s)
scan_digits (suc width) acc [] = (acc, [])
scan_digits (suc width) acc (c ∷ cs) = elim (hex_value c) [
  | none ↦ (acc, c ∷ cs)
  | some d ↦ scan_digits width (acc * 16 + d) cs
]

-- A number needs a digit, and `ParseInt` fails outside of int64.
abbrev scan_unsigned : ℕ → Str → Option (ℕ × Str)
scan_unsigned zero s = none
scan_unsigned (suc width) [] = none
scan_unsigned (suc width) (c ∷ cs) = elim (hex_value c) [
  | none ↦ none
  | some d ↦ some (scan_digits width d cs)
]

abbrev nonnegative : Option (ℕ × Str) → Option (ℕ × Str)
nonnegative none = none
nonnegative (some (n, rest)) = if ltb n (2 ^ 63) then some (n, rest) else none

abbrev negative : Option (ℕ × Str) → Option (ℕ × Str)
negative none = none
negative (some (n, rest)) = if leb n (2 ^ 63) then some ((2 ^ 64 - n) % 2 ^ 64, rest) else none

unfoldable pub scan_number : Str → Option (ℕ × Str)
scan_number [] = none
scan_number (c ∷ cs) =
    if c == b'-'
    then negative (scan_unsigned 15 cs)
    else if c == b'+'
    then nonnegative (scan_unsigned 15 cs)
    else nonnegative (scan_unsigned 16 (c ∷ cs))

abbrev with_suffix : Option (ℕ × Str) → Option ℕ
with_suffix none = none
with_suffix (some (n, rest)) = elim (scan_literal suffix rest) [ none ↦ none | some _ ↦ some n ]

abbrev after_prefix : Option Str → Option ℕ
after_prefix none = none
after_prefix (some s) = with_suffix (scan_number s)

-- What follows the literal `.log` is not looked at.
unfoldable pub scan_index : Str → Option ℕ
scan_index s = elim (scan_literal prefix s) [ none ↦ none | some r ↦ after_prefix (skip_space r) ]

scan_digit :
    (w acc d : ℕ) (cs : Str)
    → d < 16
    → scan_digits (suc w) acc (hex_digit d ∷ cs) ≡ scan_digits w (acc * 16 + d) cs
unfolding scan_digits
scan_digit w acc d cs h = rw (hex_value-hex_digit d h, scan_digits) refl

-- The digits of some bytes are read to the number that the bytes are.
scan_digits-hex_encode :
    (bs : List ℕ) (w acc : ℕ) (rest : Str)
    → All (λ b. b < 256) bs
    → w ≡ 2 * length bs
    → scan_digits w acc (hex_encode bs ++ rest) ≡ (foldl push_byte acc bs, rest)
unfolding hex_encode
scan_digits-hex_encode [] zero acc rest h e = unfold scan_digits in refl
scan_digits-hex_encode [] (suc w) acc rest h e = absurd (omega arith)
scan_digits-hex_encode (b ∷ bs) zero acc rest h e = absurd (omega arith)
scan_digits-hex_encode (b ∷ bs) (suc zero) acc rest h e = absurd (omega arith)
scan_digits-hex_encode (b ∷ bs) (suc (suc w)) acc rest h e =
    let byte : (acc * 16 + b / 16) * 16 + b % 16 ≡ acc * 256 + b = omega arith in
    scan_digit (suc w) acc (b / 16) _ (omega (arith, h.0))
    ∙ scan_digit w (acc * 16 + b / 16) (b % 16) _ (omega arith)
    ∙ rw byte (scan_digits-hex_encode bs w (acc * 256 + b) rest h.1 (omega arith))

scan_unsigned_digit :
    (w d : ℕ) (cs : Str)
    → d < 16
    → scan_unsigned (suc w) (hex_digit d ∷ cs) ≡ some (scan_digits (suc w) 0 (hex_digit d ∷ cs))
scan_unsigned_digit w d cs h =
    let sum : 0 * 16 + d ≡ d = omega arith in
    rw (hex_value-hex_digit d h, scan_unsigned, scan_digit w 0 d cs h, sum) refl

no_blank : (d : ℕ) (cs : Str) → d < 16 → skip_space (hex_digit d ∷ cs) ≡ some (hex_digit d ∷ cs)
unfolding skip_space
no_blank d cs h = ground (arith, hex_digit_range d h)

no_sign :
    (d : ℕ) (cs : Str)
    → d < 16
    → scan_number (hex_digit d ∷ cs) ≡ nonnegative (scan_unsigned 16 (hex_digit d ∷ cs))
unfolding scan_number
no_sign d cs h = rw (ne-minus, ne-plus) refl
  where
    ne-minus : (hex_digit d == b'-') ≡ false
    ne-minus = ground (arith, hex_digit_range d h)

    ne-plus : (hex_digit d == b'+') ≡ false
    ne-plus = ground (arith, hex_digit_range d h)

-- The scanner finds the number of eight bytes behind the prefix.
scan_bytes :
    (b : ℕ) (bs : List ℕ)
    → b < 256
    → All (λ b. b < 256) bs
    → length bs ≡ 7
    → foldl push_byte 0 (b ∷ bs) < 2 ^ 63
    → after_prefix (skip_space (hex_encode (b ∷ bs) ++ suffix)) ≡ some (foldl push_byte 0 (b ∷ bs))
unfolding hex_encode
scan_bytes b bs h hs l small =
    rw
      (
        no_blank (b / 16) rest (omega (arith, h)),
        no_sign (b / 16) rest (omega (arith, h)),
        scan_unsigned_digit 15 (b / 16) rest (omega (arith, h)),
        digits,
        lt→ltb _ _ small,
      )
      (unfold scan_literal in refl)
  where
    rest : Str
    rest = hex_digit (b % 16) ∷ (hex_encode bs ++ suffix)

    digits : scan_digits 16 0 (hex_digit (b / 16) ∷ rest) ≡ (foldl push_byte 0 (b ∷ bs), suffix)
    digits = scan_digits-hex_encode (b ∷ bs) 16 0 suffix (h, hs) (omega (arith, l))

scan_eight_bytes :
    (bs : List ℕ)
    → All (λ b. b < 256) bs
    → length bs ≡ 8
    → get_uint bs < 2 ^ 63
    → after_prefix (skip_space (hex_encode bs ++ suffix)) ≡ some (get_uint bs)
unfolding get_uint
scan_eight_bytes [] hs l small = absurd (omega arith)
scan_eight_bytes (b ∷ bs) hs l small = scan_bytes b bs hs.0 hs.1 (omega arith) small

hex16_nonneg : (n : ℕ) → n < 2 ^ 63 → hex16 n ≡ hex_encode (put_uint 8 n)
unfolding hex16
hex16_nonneg n h = rw (lt→ltb n (2 ^ 63) h) refl

length-hex_encode : (bs : List ℕ) → length (hex_encode bs) ≡ 2 * length bs
unfolding hex_encode
length-hex_encode [] = omega arith
length-hex_encode (b ∷ bs) = omega (arith, length-hex_encode bs)

-- The number that is printed into a log file's name is scanned back from it, and the name has the
-- 24 bytes by which log files are recognised, for every nonnegative int64.
pub scan_index-wal_name :
    (n : ℕ) → n < 2 ^ 63 → (scan_index (wal_name n) ≡ some n) × (length (wal_name n) ≡ 24)
unfolding scan_index wal_name scan_literal
scan_index-wal_name n h = (scanned, measured)
  where
    value : get_uint (put_uint 8 n) ≡ n
    value = get_uint-put_uint 8 n (omega (arith, h))

    scanned : scan_index (wal_name n) ≡ some n
    scanned = rw (hex16_nonneg n h) (
        scan_eight_bytes (put_uint 8 n) (put_uint_bytes 8 n) (length-put_uint 8 n)
          (omega (arith, h, value))
        ∙ ap some value)

    measured : length (wal_name n) ≡ 24
    measured = rw (hex16_nonneg n h) (
        omega (
          arith,
          length-append (hex_encode (put_uint 8 n)) suffix,
          length-hex_encode (put_uint 8 n),
          length-put_uint 8 n,
        ))
