-- ===== src/Base/Endian.antt =====
-- `binary.BigEndian`: an unsigned integer as its bytes, highest first.
use Prim.Native.Nat.{ℕ, zero, suc, ◌+◌, ◌*◌, ◌/◌, ◌%◌, ◌^◌, ◌<◌}
use mathlib.Core.Path.{◌≡◌, refl}
use mathlib.Core.List.{List, [], ◌∷◌, ◌++◌, foldl, foldl-append}
use native.Mathlib.Omega.{arith}
use native.Mathlib.Nat.{pow-suc}
use nekoq_component.Base.Lists.{length, length-append, All, All-append}

unfoldable pub put_uint : ℕ → ℕ → List ℕ
put_uint zero v = []
put_uint (suc k) v = put_uint k (v / 256) ++ (v % 256 ∷ [])

abbrev pub push_byte : ℕ → ℕ → ℕ
push_byte acc b = acc * 256 + b

unfoldable pub get_uint : List ℕ → ℕ
get_uint = foldl push_byte 0

pub length-put_uint : (k v : ℕ) → length (put_uint k v) ≡ k
unfolding put_uint
length-put_uint zero v = refl
length-put_uint (suc k) v =
    omega (arith, length-append (put_uint k (v / 256)) (v % 256 ∷ []), length-put_uint k (v / 256))

pub put_uint_bytes : (k v : ℕ) → All (λ b. b < 256) (put_uint k v)
unfolding put_uint
put_uint_bytes zero v = tt
put_uint_bytes (suc k) v =
    All-append (λ b. b < 256) (put_uint k (v / 256)) (v % 256 ∷ []) (put_uint_bytes k (v / 256))
      (omega arith, tt)

-- What fits `k` bytes is read back.
pub get_uint-put_uint : (k v : ℕ) → v < 256 ^ k → get_uint (put_uint k v) ≡ v
unfolding put_uint get_uint
get_uint-put_uint zero v h = omega arith
get_uint-put_uint (suc k) v h =
    rw foldl-append
      (omega (arith, pow-suc 256 k, get_uint-put_uint k (v / 256) (omega (arith, pow-suc 256 k))))
