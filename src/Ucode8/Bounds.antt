-- ===== src/Ucode8/Bounds.antt =====
-- What the decoder does on any bytes, well formed or not.
use zpp_cpp.Common.{
  ℕ, ◌+◌, ◌<◌, ◌≤◌, ◌≡◌, ◌↔◌, ◌⊎◌, ◌≢◌, [], ◌∷◌, length, arith, Bytes, All, ltb, if◌then◌else◌,
}
use zpp_cpp.Ucode8.{invalid_char, ucode8_fwd}

abbrev pub IsByte : ℕ → Type 0
IsByte b = b < 256

-- The decoder never claims more bytes than there are, nor more than four.
pub ucode8_fwd_units : (s : Bytes) → ((ucode8_fwd s).units ≤ length s) × ((ucode8_fwd s).units ≤ 4)
unfolding ucode8_fwd
ucode8_fwd_units [] = omega arith
ucode8_fwd_units (b ∷ rest) = ground arith

-- No byte is consumed exactly when the code is INVALID_CHAR, and every other code is at most 0x10FFFF.
pub ucode8_fwd_code :
    (s : Bytes)
    → All IsByte s
    → (((ucode8_fwd s).units ≡ 0) ↔ ((ucode8_fwd s).code ≡ invalid_char))
      × ((ucode8_fwd s).code ≢ invalid_char → (ucode8_fwd s).code ≤ 0x10FFFF)
unfolding ucode8_fwd
ucode8_fwd_code [] h = ground arith
ucode8_fwd_code (b ∷ rest) h = ground arith

-- The bytes that a lead byte announces, and 1 for a byte that is no lead byte.
abbrev pub announced : ℕ → ℕ
announced b =
    if ltb b 0xC2
    then 1
    else if ltb b 0xE0
    then 2
    else if ltb b 0xF0
    then 3
    else if ltb b 0xF5
    then 4
    else 1

-- A sequence that is cut short, and a byte from 0xF5 up, is not reported as invalid: one byte is
-- consumed, and the lead byte itself is returned as the code.
pub ucode8_fwd_truncated :
    (b : ℕ) (rest : Bytes)
    → 0xC2 ≤ b
    → (length rest + 1 < announced b) ⊎ (0xF5 ≤ b)
    → ucode8_fwd (b ∷ rest) ≡ record { units = 1; code = b }
unfolding ucode8_fwd
ucode8_fwd_truncated b rest h k = ground arith
