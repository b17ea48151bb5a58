-- ===== src/Common/Map.antt =====
-- A `std::unordered_map` with `uint32_t` keys, as its entries in order of insertion.
use Prim.Native.Nat.{ℕ}
use mathlib.Core.Path.{◌≡◌, refl}
use mathlib.Core.Option.{Option, none, some}
use mathlib.Core.List.{List, [], ◌∷◌}
use native.Mathlib.Omega.{arith}
use fit_fred.Common.Tests.{◌==◌, if◌then◌else◌}

module _ {ℓ} {V : Type ℓ} where
  unfoldable pub lookup : ℕ → List (ℕ × V) → Option V
  lookup key [] = none
  lookup key ((k, v) ∷ m) = if k == key then some v else lookup key m

  -- `m[key] = value`, or a change of the value through a reference.
  unfoldable pub assign : ℕ → V → List (ℕ × V) → List (ℕ × V)
  assign key value [] = (key, value) ∷ []
  assign key value ((k, v) ∷ m) = if k == key then (k, value) ∷ m else (k, v) ∷ assign key value m

  pub lookup-assign :
      (key other : ℕ) (value : V) (m : List (ℕ × V))
      → lookup other (assign key value m) ≡ (if key == other then some value else lookup other m)
  unfolding lookup assign
  lookup-assign key other value [] = refl
  lookup-assign key other value ((k, v) ∷ m) = ground (arith, lookup-assign key other value m)
