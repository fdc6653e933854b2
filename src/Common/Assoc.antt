-- ===== src/Common/Assoc.antt =====
-- A PHP array with text keys only, as the list of its entries in the order of iteration.
use zpp_cpp.Common.Tests.{if◌then◌else◌, Bool-cases}
use zpp_cpp.Common.ByteText.{Bytes, equal, equal_iff}
use mathlib.Core.Path.{◌≡◌}
use mathlib.Core.Logic.{inl, inr}
use mathlib.Core.Bool.{false}
use mathlib.Core.List.{List, [], ◌∷◌}
use mathlib.Core.Option.{Option, none, some}
use native.Mathlib.Omega.{arith}

module _ {ℓ} {A : Type ℓ} where
  unfoldable pub lookup : Bytes → List (Bytes × A) → Option A
  lookup k [] = none
  lookup k ((j, v) ∷ m) = let rest = lookup k m in if equal j k then some v else rest

  -- The entry keeps its place, and a new one goes to the end.
  unfoldable pub store : Bytes → A → List (Bytes × A) → List (Bytes × A)
  store k v [] = (k, v) ∷ []
  store k v ((j, w) ∷ m) = let rest = store k v m in if equal j k then (j, v) ∷ m else (j, w) ∷ rest

  pub lookup-store_same :
      (k : Bytes) (v : A) (m : List (Bytes × A)) → lookup k (store k v m) ≡ some v
  unfolding lookup store
  lookup-store_same k v [] = ground (arith, equal_iff k k)
  lookup-store_same k v ((j, w) ∷ m) = ground (arith, lookup-store_same k v m)

  pub lookup-store_other :
      (k j : Bytes) (v : A) (m : List (Bytes × A))
      → equal k j ≡ false
      → lookup j (store k v m) ≡ lookup j m
  unfolding lookup store
  lookup-store_other k j v [] other = ground (arith, other)
  lookup-store_other k j v ((i, w) ∷ m) other =
      ground (
        arith,
        other,
        equal_iff i k,
        equal_iff i j,
        equal_iff k j,
        lookup-store_other k j v m other,
      )

  pub lookup-store :
      (k j : Bytes) (v : A) (m : List (Bytes × A))
      → lookup j (store k v m) ≡ (if equal k j then some v else lookup j m)
  lookup-store k j v m = elim (Bool-cases (equal k j)) [
    | inl same ↦ ground (arith, same, equal_iff k j, lookup-store_same k v m)
    | inr other ↦ ground (arith, other, lookup-store_other k j v m other)
  ]
