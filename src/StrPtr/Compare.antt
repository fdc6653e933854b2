-- ===== src/StrPtr/Compare.antt =====
-- Comparison of C strings: what the two loops call equal.
use zpp_cpp.Common.{
  refl, ℕ, ◌<◌, ◌≡◌, ◌↔◌, [], ◌∷◌, Option, none, some, map, ◌==◌, if◌then◌else◌, Bytes, All, arith,
}
use zpp_cpp.StrPtr.{
  Sign, equal_to, char_sign, int_sign, tolower, cmp_loop, cmp_with, zs_cmp, zs_cmp_ci,
}

abbrev pub IsByte : ℕ → Type 0
IsByte b = b < 256

-- The part of a text before its first zero byte.
abbrev pub cstr : Bytes → Bytes
cstr [] = []
cstr (x ∷ s) = if x == 0 then [] else x ∷ cstr s

module _ (sign : ℕ → ℕ → Sign) (key : ℕ → ℕ)
    (sign_iff : (x y : ℕ) → IsByte x → IsByte y → (sign x y ≡ equal_to) ↔ (key x ≡ key y))
    (key_zero : (x : ℕ) → IsByte x → key x ≡ key 0 → x ≡ 0) where
  cmp_loop_iff :
      (a b : Bytes)
      → All IsByte a
      → All IsByte b
      → (cmp_loop sign a b ≡ equal_to) ↔ (map key (cstr a) ≡ map key (cstr b))
  unfolding cmp_loop
  cmp_loop_iff [] [] ha hb = ground (arith, sign_iff 0 0)
  cmp_loop_iff [] (y ∷ b) ha hb = ground (arith, sign_iff 0 y, key_zero y)
  cmp_loop_iff (x ∷ a) [] ha hb = ground (arith, sign_iff x 0, key_zero x, cmp_loop_iff a [])
  cmp_loop_iff (x ∷ a) (y ∷ b) ha hb =
      ground (arith, sign_iff x y, key_zero x, key_zero y, cmp_loop_iff a b)

-- Two strings are both null, or have the same image up to their first zero byte.
abbrev pub SameText : (ℕ → ℕ) → Option Bytes → Option Bytes → Type 0
SameText key none none = Unit
SameText key (some a) (some b) = map key (cstr a) ≡ map key (cstr b)
SameText key _ _ = ⊥

abbrev pub AreBytes : Option Bytes → Type 0
AreBytes none = Unit
AreBytes (some a) = All IsByte a

char_sign_iff : (x y : ℕ) → IsByte x → IsByte y → (char_sign x y ≡ equal_to) ↔ (x ≡ y)
char_sign_iff x y h k = ground arith

int_sign_iff : (x y : ℕ) → (int_sign x y ≡ equal_to) ↔ (x ≡ y)
int_sign_iff x y = ground arith

tolower_zero : (x : ℕ) → tolower x ≡ tolower 0 → x ≡ 0
tolower_zero x h = ground arith

-- `zs_cmp` returns 0 exactly for two null pointers and for two strings with the same bytes up to
-- the first zero byte of each.
pub zs_cmp_iff :
    (a b : Option Bytes) → AreBytes a → AreBytes b → (zs_cmp a b ≡ equal_to) ↔ SameText (λ x. x) a b
unfolding zs_cmp
zs_cmp_iff none none ha hb = ground arith
zs_cmp_iff none (some b) ha hb = ground arith
zs_cmp_iff (some a) none ha hb = ground arith
zs_cmp_iff (some a) (some b) ha hb =
    cmp_loop_iff char_sign (λ x. x) char_sign_iff (λ x h e. e) a b ha hb

-- `zs_cmp_ci` returns 0 exactly for two null pointers and for two strings whose bytes up to the
-- first zero byte agree when the letters A to Z are made lower case.
pub zs_cmp_ci_iff :
    (a b : Option Bytes)
    → AreBytes a
    → AreBytes b
    → (zs_cmp_ci a b ≡ equal_to) ↔ SameText tolower a b
unfolding zs_cmp_ci
zs_cmp_ci_iff none none ha hb = ground arith
zs_cmp_ci_iff none (some b) ha hb = ground arith
zs_cmp_ci_iff (some a) none ha hb = ground arith
zs_cmp_ci_iff (some a) (some b) ha hb =
    cmp_loop_iff (λ x y. int_sign (tolower x) (tolower y)) tolower
      (λ x y h k. int_sign_iff (tolower x) (tolower y)) (λ x h e. tolower_zero x e) a b ha hb

cmp_loop_refl : (s : Bytes) → cmp_loop char_sign s s ≡ equal_to
unfolding cmp_loop
cmp_loop_refl [] = refl
cmp_loop_refl (x ∷ s) = ground (arith, cmp_loop_refl s)

pub zs_cmp_refl : (s : Bytes) → zs_cmp (some s) (some s) ≡ equal_to
unfolding zs_cmp cmp_with
zs_cmp_refl s = cmp_loop_refl s
