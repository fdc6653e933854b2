-- ===== src/Ucode8.antt =====
-- src/zpp/ucode8.cpp: the UTF-8 codec. A `char const*` with its length is the list of its bytes;
-- `char32_t` arithmetic stays below 2 ^ 32 here, so no wrap-around is written. `& (2 ^ k - 1)`
-- is `% 2 ^ k`, `<< k` is `* 2 ^ k`, `>> k` is `/ 2 ^ k`, and `|` is `bit_or`.
mod Bits
pub mod Bounds
pub mod RoundTrip
use zpp_cpp.Common.{
  ℕ, ◌+◌, ◌*◌, ◌/◌, ◌%◌, bit_or, ◌&&◌, List, [], ◌∷◌, length, get_or, ltb, if◌then◌else◌, Bytes,
  Option, none, some,
}

-- `(char32_t) -1`
abbrev pub invalid_char : ℕ
invalid_char = 0xFFFFFFFF

-- What a call of `ucode8Fwd` gives: the bytes consumed, and the code in `uc`.
pub record Decoded : Type 0 where
  pub units : ℕ
  pub code : ℕ

-- Byte `i` behind the first one; each read stands under a guard that it exists.
abbrev pub byte : Bytes → ℕ → ℕ
byte rest i = get_or rest i 0

-- `((test & mask) << 6) + (*pa++ & 0x3F)`
abbrev pub shift_in : ℕ → ℕ → ℕ
shift_in test b = test * 64 + b % 64

abbrev pub code_two : ℕ → Bytes → ℕ
code_two test rest = shift_in (test % 32) (byte rest 0)

abbrev pub code_three : ℕ → Bytes → ℕ
code_three test rest = shift_in (shift_in (test % 16) (byte rest 0)) (byte rest 1)

abbrev pub code_four : ℕ → Bytes → ℕ
code_four test rest =
    shift_in (shift_in (shift_in (test % 8) (byte rest 0)) (byte rest 1)) (byte rest 2)

-- A null pointer behaves as the empty text.
unfoldable pub ucode8_fwd : Bytes → Decoded
ucode8_fwd [] = record { units = 0; code = invalid_char }
ucode8_fwd (test ∷ rest) =
    let slen = length rest + 1 in
    if ltb test 0x80
    then record { units = 1; code = test }
    else if ltb test 0xC2
    then record { units = 0; code = invalid_char }
    else if ltb test 0xE0 && ltb 1 slen
    then record { units = 2; code = code_two test rest }
    else if ltb test 0xF0 && ltb 2 slen
    then record { units = 3; code = code_three test rest }
    else if ltb test 0xF5 && ltb 3 slen
    then (if ltb 0x10FFFF (code_four test rest)
        then record { units = 0; code = invalid_char }
        else record { units = 4; code = code_four test rest })
    else record { units = 1; code = test }

unfoldable pub u8bytes : ℕ → ℕ
u8bytes d =
    if ltb d 0x80
    then 1
    else if ltb d 0x800
    then 2
    else if ltb d 0x10000
    then 3
    else if ltb d 0x110000
    then 4
    else 0

-- A continuation byte, `(d & 0x3F) | 0x80`.
abbrev pub tail_byte : ℕ → ℕ
tail_byte d = bit_or (d % 64) 0x80

-- `(char) x`, as an unsigned byte.
abbrev pub to_char : ℕ → ℕ
to_char x = x % 256

-- The bytes written to `*result`; the returned count is their number.
unfoldable pub utf32_str8 : ℕ → Bytes
utf32_str8 d =
    if ltb d 0x80
    then to_char d ∷ []
    else if ltb d 0x800
    then to_char (bit_or (d / 64) 0xC0) ∷ tail_byte d ∷ []
    else if ltb d 0x10000
    then to_char (bit_or (d / 4096) 0xE0) ∷ tail_byte (d / 64) ∷ tail_byte d ∷ []
    else if ltb 0x10FFFF d
    then []
    else to_char (bit_or (d / 262144) 0xF0)
      ∷ tail_byte (d / 4096)
      ∷ tail_byte (d / 64)
      ∷ tail_byte d
      ∷ []

-- `buf[24]` of `hex_str8` holds the text and its terminator; a longer one overruns it (`none`).
-- `strtol` of base 16 is the C library's, and its result is cast to `char32_t`.
module _ (strtol : Bytes → ℕ) where
  unfoldable pub hex_str8 : Bytes → Option Bytes
  hex_str8 text =
      if ltb (length text) 24 then some (utf32_str8 (strtol text % 0x100000000)) else none
