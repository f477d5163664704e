-- ===== src/Base/Bits.antt =====
-- `x << k | y` of a `y` that fits `k` bits is a sum, and `x & (2^k - 1)` a remainder.
use Prim.Native.Nat.{
  ℕ, zero, suc, ◌+◌, ◌-◌, ◌*◌, ◌/◌, ◌%◌, ◌^◌, ◌≤◌, ◌<◌, min, max, bit_and, bit_or, digits,
  bit_and-bitwise, bit_or-bitwise,
}
use mathlib.Core.Path.{◌≡◌, refl, ap}
use native.Mathlib.Omega.{arith}
use native.Mathlib.Nat.{pow-suc}

-- The count of digits does not matter once it covers the first number.
or_count : (n m a b : ℕ) → a ≤ n → a ≤ m → digits (λ b. b) max n a b ≡ digits (λ b. b) max m a b
or_count zero zero a b p q = refl
or_count zero (suc m) zero b p q = refl
or_count zero (suc m) (suc a) b p q = absurd (omega arith)
or_count (suc n) zero zero b p q = refl
or_count (suc n) zero (suc a) b p q = absurd (omega arith)
or_count (suc n) (suc m) zero b p q = refl
or_count (suc n) (suc m) (suc a) b p q =
    omega (arith, or_count n m (suc a / 2) (b / 2) (omega arith) (omega arith))

and_count :
    (n m a b : ℕ) → a ≤ n → a ≤ m → digits (λ b. zero) min n a b ≡ digits (λ b. zero) min m a b
and_count zero zero a b p q = refl
and_count zero (suc m) zero b p q = refl
and_count zero (suc m) (suc a) b p q = absurd (omega arith)
and_count (suc n) zero zero b p q = refl
and_count (suc n) zero (suc a) b p q = absurd (omega arith)
and_count (suc n) (suc m) zero b p q = refl
and_count (suc n) (suc m) (suc a) b p q =
    omega (arith, and_count n m (suc a / 2) (b / 2) (omega arith) (omega arith))

zero-bit_or : (b : ℕ) → bit_or 0 b ≡ b
zero-bit_or b = bit_or-bitwise 0 b

zero-bit_and : (b : ℕ) → bit_and 0 b ≡ 0
zero-bit_and b = bit_and-bitwise 0 b

or_lowest : (a b : ℕ) → bit_or a b ≡ bit_or (a / 2) (b / 2) * 2 + max (a % 2) (b % 2)
or_lowest zero b = omega (arith, zero-bit_or b, zero-bit_or (b / 2))
or_lowest (suc a) b = omega (
  arith,
  bit_or-bitwise (suc a) b,
  bit_or-bitwise (suc a / 2) (b / 2),
  or_count a (suc a / 2) (suc a / 2) (b / 2) (omega arith) (omega arith),
)

and_lowest : (a b : ℕ) → bit_and a b ≡ bit_and (a / 2) (b / 2) * 2 + min (a % 2) (b % 2)
and_lowest zero b = omega (arith, zero-bit_and b, zero-bit_and (b / 2))
and_lowest (suc a) b = omega (
  arith,
  bit_and-bitwise (suc a) b,
  bit_and-bitwise (suc a / 2) (b / 2),
  and_count a (suc a / 2) (suc a / 2) (b / 2) (omega arith) (omega arith),
)

or_zero : (n a : ℕ) → a ≤ n → bit_or a 0 ≡ a
or_zero n zero h = refl
or_zero zero (suc a) h = absurd (omega arith)
or_zero (suc n) (suc a) h = omega (arith, or_lowest (suc a) 0, or_zero n (suc a / 2) (omega arith))

and_zero : (n a : ℕ) → a ≤ n → bit_and a 0 ≡ 0
and_zero n zero h = refl
and_zero zero (suc a) h = absurd (omega arith)
and_zero (suc n) (suc a) h =
    omega (arith, and_lowest (suc a) 0, and_zero n (suc a / 2) (omega arith))

double_shift : (x k : ℕ) → x * 2 ^ suc k ≡ 2 * (x * 2 ^ k)
double_shift x k = omega (arith, ap (λ (t : ℕ). x * t) (pow-suc 2 k))

pub bit_or_shift : (k x y : ℕ) → y < 2 ^ k → bit_or (x * 2 ^ k) y ≡ x * 2 ^ k + y
bit_or_shift zero x zero h = omega (arith, or_zero (x * 1) (x * 1) (omega arith))
bit_or_shift zero x (suc y) h = absurd (omega arith)
bit_or_shift (suc k) x y h = omega (
  arith,
  or_lowest (x * 2 ^ suc k) y,
  double_shift x k,
  pow-suc 2 k,
  ap (λ (t : ℕ). bit_or t (y / 2)) halved,
  bit_or_shift k x (y / 2) (omega (arith, pow-suc 2 k)),
)
  where
    halved : (x * 2 ^ suc k) / 2 ≡ x * 2 ^ k
    halved = omega (arith, double_shift x k)

pos_pow : (k : ℕ) → 0 < 2 ^ k
pos_pow zero = omega arith
pos_pow (suc k) = omega (arith, pow-suc 2 k, pos_pow k)

and_low_sum : (k x y : ℕ) → y < 2 ^ k → bit_and (x * 2 ^ k + y) (2 ^ k - 1) ≡ y
and_low_sum zero x zero h = and_zero (x * 1 + 0) (x * 1 + 0) (omega arith)
and_low_sum zero x (suc y) h = absurd (omega arith)
and_low_sum (suc k) x y h = omega (
  arith,
  and_lowest (x * 2 ^ suc k + y) (2 ^ suc k - 1),
  double_shift x k,
  pow-suc 2 k,
  pos_pow k,
  ap (λ (t : ℕ). bit_and t ((2 ^ suc k - 1) / 2)) halved,
  ap (λ (t : ℕ). bit_and (x * 2 ^ k + y / 2) t) mask,
  and_low_sum k x (y / 2) (omega (arith, pow-suc 2 k)),
)
  where
    halved : (x * 2 ^ suc k + y) / 2 ≡ x * 2 ^ k + y / 2
    halved = omega (arith, double_shift x k)

    mask : (2 ^ suc k - 1) / 2 ≡ 2 ^ k - 1
    mask = omega (arith, pow-suc 2 k, pos_pow k)

pub bit_and_low : (k a : ℕ) → bit_and a (2 ^ k - 1) ≡ a % 2 ^ k
bit_and_low k a = omega (
  arith,
  pos_pow k,
  ap (λ (t : ℕ). bit_and t (2 ^ k - 1)) split,
  and_low_sum k (a / 2 ^ k) (a % 2 ^ k) (grind (arith, pos_pow k)),
)
  where
    split : a ≡ (a / 2 ^ k) * 2 ^ k + a % 2 ^ k
    split = grind (arith, pos_pow k)
