-- ===== src/Common/Tests.antt =====
-- Boolean tests on the native numbers, the conditional, and case splits that keep an equation.
use Prim.Native.Nat.{ℕ, zero, suc, ◌<◌, compare, Ordering}
use mathlib.Core.Path.{◌≡◌, refl}
use mathlib.Core.Logic.{◌↔◌, ◌⊎◌, inl, inr}
use mathlib.Core.Bool.{Bool, true, false, ◌&&◌}
use mathlib.Core.Option.{Option, none, some}
use native.Mathlib.Omega.{arith}

abbrev pub ltb : ℕ → ℕ → Bool
ltb a b = elim (compare a b) [ Ordering.lt ↦ true | _ ↦ false ]

abbrev pub leb : ℕ → ℕ → Bool
leb a b = elim (compare a b) [ Ordering.gt ↦ false | _ ↦ true ]

infix 50 ◌==◌
abbrev pub ◌==◌ : ℕ → ℕ → Bool
a == b = elim (compare a b) [ Ordering.eq ↦ true | _ ↦ false ]

infix 1 if◌then◌else◌
abbrev pub if◌then◌else◌ {ℓ} : {A : Type ℓ} → Bool → A → A → A
if true then x else y = x
if false then x else y = y

pub ==_iff : (a b : ℕ) → ((a == b) ≡ true) ↔ (a ≡ b)
==_iff a b = ground arith

pub ==_refl : (a : ℕ) → (a == a) ≡ true
==_refl a = ground arith

pub Bool-cases : (b : Bool) → (b ≡ true) ⊎ (b ≡ false)
Bool-cases true = inl refl
Bool-cases false = inr refl

pub Option-cases {ℓ} : {A : Type ℓ} (o : Option A) → (o ≡ none) ⊎ ((a : A) × (o ≡ some a))
Option-cases none = inl refl
Option-cases (some a) = inr (a, refl)

-- Two tests that pass together are equal.
pub Bool-eq_of_iff : (a b : Bool) → (a ≡ true → b ≡ true) → (b ≡ true → a ≡ true) → a ≡ b
Bool-eq_of_iff true true f g = refl
Bool-eq_of_iff true false f g = ground (arith, f refl)
Bool-eq_of_iff false true f g = ground (arith, g refl)
Bool-eq_of_iff false false f g = refl

-- Over a small range a test is checked at every value.
unfoldable pub checks_below : ℕ → (ℕ → Bool) → Bool
checks_below zero test = true
checks_below (suc bound) test = checks_below bound test && test bound

pub checks_below_sound :
    (bound : ℕ) (test : ℕ → Bool) (i : ℕ)
    → checks_below bound test ≡ true
    → i < bound
    → test i ≡ true
unfolding checks_below
checks_below_sound zero test i all small = absurd (omega arith)
checks_below_sound (suc bound) test i all small = elim (Bool-cases (i == bound)) [
  | inl last ↦ ground (arith, all, last)
  | inr before ↦ checks_below_sound bound test i (ground (arith, all)) (ground (arith, before))
]
