-- ===== src/Ucode8/RoundTrip.antt =====
-- Decoding what `utf32_str8` wrote.
use zpp_cpp.Common.{ℕ, ◌+◌, ◌*◌, ◌/◌, ◌%◌, ◌<◌, ◌≤◌, ◌≡◌, [], ◌∷◌, ◌++◌, length, ◌↔◌, arith, Bytes}
use native.Mathlib.Decide.{dec_lt}
use zpp_cpp.Ucode8.{ucode8_fwd, utf32_str8, u8bytes}
use zpp_cpp.Ucode8.Bits.{tail_byte_lem, lead_two, lead_three, lead_four}

-- The decoder on a well-formed sequence of two, three or four bytes.
fwd_two :
    (a b : ℕ) (rest : Bytes)
    → 0xC2 ≤ a
    → a < 0xE0
    → ucode8_fwd (a ∷ b ∷ rest) ≡ record { units = 2; code = a % 32 * 64 + b % 64 }
unfolding ucode8_fwd
fwd_two a b rest h k = ground arith

fwd_three :
    (a b c : ℕ) (rest : Bytes)
    → 0xE0 ≤ a
    → a < 0xF0
    → ucode8_fwd (a ∷ b ∷ c ∷ rest)
      ≡ record { units = 3; code = (a % 16 * 64 + b % 64) * 64 + c % 64 }
unfolding ucode8_fwd
fwd_three a b c rest h k = ground arith

fwd_four :
    (a b c d : ℕ) (rest : Bytes)
    → 0xF0 ≤ a
    → a < 0xF5
    → ((a % 8 * 64 + b % 64) * 64 + c % 64) * 64 + d % 64 < 0x110000
    → ucode8_fwd (a ∷ b ∷ c ∷ d ∷ rest)
      ≡ record { units = 4; code = ((a % 8 * 64 + b % 64) * 64 + c % 64) * 64 + d % 64 }
unfolding ucode8_fwd
fwd_four a b c d rest h k l = ground arith

-- What the encoder writes in each range.
encode_one : (d : ℕ) → d < 0x80 → utf32_str8 d ≡ d ∷ []
unfolding utf32_str8
encode_one d h = ground arith

encode_two : (d : ℕ) → 0x80 ≤ d → d < 0x800 → utf32_str8 d ≡ (d / 64 + 192) ∷ (d % 64 + 128) ∷ []
unfolding utf32_str8
encode_two d l h = ground (arith, lead_two d h, tail_byte_lem d)

encode_three :
    (d : ℕ)
    → 0x800 ≤ d
    → d < 0x10000
    → utf32_str8 d ≡ (d / 4096 + 224) ∷ (d / 64 % 64 + 128) ∷ (d % 64 + 128) ∷ []
unfolding utf32_str8
encode_three d l h = ground (arith, lead_three d h, tail_byte_lem d, tail_byte_lem (d / 64))

encode_four :
    (d : ℕ)
    → 0x10000 ≤ d
    → d < 0x110000
    → utf32_str8 d
      ≡ (d / 262144 + 240) ∷ (d / 4096 % 64 + 128) ∷ (d / 64 % 64 + 128) ∷ (d % 64 + 128) ∷ []
unfolding utf32_str8
encode_four d l h =
    ground (arith, lead_four d h, tail_byte_lem d, tail_byte_lem (d / 64), tail_byte_lem (d / 4096))

abbrev Decodes : ℕ → Bytes → Type 0
Decodes d rest =
    (ucode8_fwd (utf32_str8 d ++ rest) ≡ record { units = u8bytes d; code = d })
    × (length (utf32_str8 d) ≡ u8bytes d)

Decodes-one : (d : ℕ) (rest : Bytes) → d < 0x80 → Decodes d rest
unfolding u8bytes ucode8_fwd
Decodes-one d rest h = rw (encode_one d h) (ground arith)

Decodes-two : (d : ℕ) (rest : Bytes) → 0x80 ≤ d → d < 0x800 → Decodes d rest
unfolding u8bytes
Decodes-two d rest l h =
    rw (encode_two d l h)
      (ground (arith, fwd_two (d / 64 + 192) (d % 64 + 128) rest (omega arith) (omega arith)))

Decodes-three : (d : ℕ) (rest : Bytes) → 0x800 ≤ d → d < 0x10000 → Decodes d rest
unfolding u8bytes
Decodes-three d rest l h = rw (encode_three d l h) (
    ground (
      arith,
      fwd_three (d / 4096 + 224) (d / 64 % 64 + 128) (d % 64 + 128) rest (omega arith)
          (omega arith),
    ))

Decodes-four : (d : ℕ) (rest : Bytes) → 0x10000 ≤ d → d < 0x110000 → Decodes d rest
unfolding u8bytes
Decodes-four d rest l h = rw (encode_four d l h) (
    ground (
      arith,
      fwd_four (d / 262144 + 240) (d / 4096 % 64 + 128) (d / 64 % 64 + 128) (d % 64 + 128) rest
          (omega arith) (omega arith) (omega arith),
    ))

-- Encoding any code up to 0x10FFFF and decoding the result, with any bytes behind it, gives the code
-- back and consumes exactly the bytes written, whose number is `u8bytes`.
pub ucode8_fwd-utf32_str8 :
    (d : ℕ) (rest : Bytes)
    → d < 0x110000
    → (ucode8_fwd (utf32_str8 d ++ rest) ≡ record { units = u8bytes d; code = d })
      × (length (utf32_str8 d) ≡ u8bytes d)
ucode8_fwd-utf32_str8 d rest h = elim (dec_lt d 0x80) [
  | yes a ↦ Decodes-one d rest a
  | no a ↦ elim (dec_lt d 0x800) [
    | yes b ↦ Decodes-two d rest (omega arith) b
    | no b ↦ elim (dec_lt d 0x10000) [
      | yes c ↦ Decodes-three d rest (omega arith) c
      | no c ↦ Decodes-four d rest (omega arith) h
    ]
  ]
]

-- A code beyond 0x10FFFF is written as no byte at all, and `u8bytes` is 0 for it alone.
pub utf32_str8-none_iff :
    (d : ℕ) → ((utf32_str8 d ≡ []) ↔ (0x10FFFF < d)) × ((u8bytes d ≡ 0) ↔ (0x10FFFF < d))
unfolding utf32_str8 u8bytes
utf32_str8-none_iff d = ground arith
