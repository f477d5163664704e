-- ===== src/Base/Words.antt =====
-- Go's fixed-width integers as bit patterns. A signed test compares after adding half the range.
use Prim.Native.Nat.{ℕ, ◌+◌, ◌-◌, ◌%◌, ◌^◌, ◌<◌}
use mathlib.Core.Path.{◌≡◌}
use mathlib.Core.Bool.{Bool}
use native.Mathlib.Omega.{arith}
use nekoq_component.Base.Tests.{ltb, leb, if◌then◌else◌}

abbrev pub max_int32 : ℕ
max_int32 = 2 ^ 31 - 1

abbrev pub max_int64 : ℕ
max_int64 = 2 ^ 63 - 1

unfoldable pub lt32 : ℕ → ℕ → Bool
lt32 a b = ltb ((a + 2 ^ 31) % 2 ^ 32) ((b + 2 ^ 31) % 2 ^ 32)

unfoldable pub le32 : ℕ → ℕ → Bool
le32 a b = leb ((a + 2 ^ 31) % 2 ^ 32) ((b + 2 ^ 31) % 2 ^ 32)

unfoldable pub lt64 : ℕ → ℕ → Bool
lt64 a b = ltb ((a + 2 ^ 63) % 2 ^ 64) ((b + 2 ^ 63) % 2 ^ 64)

unfoldable pub add32 : ℕ → ℕ → ℕ
add32 a b = (a + b) % 2 ^ 32

unfoldable pub add64 : ℕ → ℕ → ℕ
add64 a b = (a + b) % 2 ^ 64

unfoldable pub sub64 : ℕ → ℕ → ℕ
sub64 a b = (a + 2 ^ 64 - b) % 2 ^ 64

-- `int64(x)` of an int32, and `int32(x)` of an int64.
unfoldable pub int64_of_int32 : ℕ → ℕ
int64_of_int32 a = if ltb a (2 ^ 31) then a else a + (2 ^ 64 - 2 ^ 32)

unfoldable pub int32_of_int64 : ℕ → ℕ
int32_of_int64 a = a % 2 ^ 32

-- On what is not negative the signed tests are those of the numbers.
pub lt32_nonneg : (a b : ℕ) → a < 2 ^ 31 → b < 2 ^ 31 → lt32 a b ≡ ltb a b
unfolding lt32
lt32_nonneg a b h k = ground arith

pub le32_nonneg : (a b : ℕ) → a < 2 ^ 31 → b < 2 ^ 31 → le32 a b ≡ leb a b
unfolding le32
le32_nonneg a b h k = ground arith

pub lt64_nonneg : (a b : ℕ) → a < 2 ^ 63 → b < 2 ^ 63 → lt64 a b ≡ ltb a b
unfolding lt64
lt64_nonneg a b h k = ground arith
