-- ===== src/Base/Weight.antt =====
-- The sum of a measure over a map's values.
use mathlib.Core.Path.{◌≡◌}
use mathlib.Core.Option.{Option, none, some}
use mathlib.Core.List.{[], ◌∷◌}
use Prim.Native.Nat.{ℕ, ◌+◌, ◌≤◌}
use native.Mathlib.Omega.{arith}
use nekoq_component.Base.Map.{Eq, Map, lookup, insert, delete}

unfoldable pub weight_of {κ} : {V : Type κ} → (V → ℕ) → Option V → ℕ
weight_of f none = 0
weight_of f (some v) = f v

module _ {ℓ κ} {K : Type ℓ} {V : Type κ} ⦃e : Eq K⦄ (f : V → ℕ) where
  unfoldable pub weight : Map K V → ℕ
  weight [] = 0
  weight ((k, v) ∷ m) = f v + weight m

  pub weight-insert :
      (k : K) (v : V) (m : Map K V)
      → weight (insert k v m) + weight_of f (lookup k m) ≡ weight m + f v
  unfolding weight weight_of insert lookup
  weight-insert k v [] = omega arith
  weight-insert k v ((j, w) ∷ m) = ground (arith, weight-insert k v m)

  pub weight-delete_le :
      (k : K) (m : Map K V) → weight (delete k m) + weight_of f (lookup k m) ≤ weight m
  unfolding weight weight_of delete lookup
  weight-delete_le k [] = omega arith
  weight-delete_le k ((j, w) ∷ m) = ground (arith, weight-delete_le k m)

  pub weight_of_le : (k : K) (m : Map K V) → weight_of f (lookup k m) ≤ weight m
  unfolding weight weight_of lookup
  weight_of_le k [] = omega arith
  weight_of_le k ((j, w) ∷ m) = ground (arith, weight_of_le k m)
