-- ===== src/Ucode8/Bits.antt =====
-- The `|` of the encoder, where the two operands have no bit in common, is a sum: checked at every
-- value that the shifted code can have.
use zpp_cpp.Common.{
  ℕ, ◌+◌, ◌%◌, ◌/◌, ◌<◌, ◌≡◌, refl, true, bit_or, ◌==◌, ==_iff, checks_below, checks_below_sound,
  arith,
}
use zpp_cpp.Ucode8.{tail_byte, to_char}

table_80 : checks_below 64 (λ x. bit_or x 0x80 == x + 0x80) ≡ true
unfolding checks_below
table_80 = refl

pub or_80 : (x : ℕ) → x < 64 → bit_or x 0x80 ≡ x + 0x80
or_80 x h = (==_iff _ _).0 (checks_below_sound 64 _ x table_80 h)

table_c0 : checks_below 32 (λ x. bit_or x 0xC0 == x + 0xC0) ≡ true
unfolding checks_below
table_c0 = refl

pub or_c0 : (x : ℕ) → x < 32 → bit_or x 0xC0 ≡ x + 0xC0
or_c0 x h = (==_iff _ _).0 (checks_below_sound 32 _ x table_c0 h)

table_e0 : checks_below 16 (λ x. bit_or x 0xE0 == x + 0xE0) ≡ true
unfolding checks_below
table_e0 = refl

pub or_e0 : (x : ℕ) → x < 16 → bit_or x 0xE0 ≡ x + 0xE0
or_e0 x h = (==_iff _ _).0 (checks_below_sound 16 _ x table_e0 h)

table_f0 : checks_below 8 (λ x. bit_or x 0xF0 == x + 0xF0) ≡ true
unfolding checks_below
table_f0 = refl

pub or_f0 : (x : ℕ) → x < 8 → bit_or x 0xF0 ≡ x + 0xF0
or_f0 x h = (==_iff _ _).0 (checks_below_sound 8 _ x table_f0 h)

pub tail_byte_lem : (d : ℕ) → tail_byte d ≡ d % 64 + 128
tail_byte_lem d = or_80 (d % 64) (omega arith)

-- The lead bytes of two, three and four.
pub lead_two : (d : ℕ) → d < 0x800 → to_char (bit_or (d / 64) 0xC0) ≡ d / 64 + 192
lead_two d h = rw (or_c0 (d / 64) (omega arith)) (omega arith)

pub lead_three : (d : ℕ) → d < 0x10000 → to_char (bit_or (d / 4096) 0xE0) ≡ d / 4096 + 224
lead_three d h = rw (or_e0 (d / 4096) (omega arith)) (omega arith)

pub lead_four : (d : ℕ) → d < 0x110000 → to_char (bit_or (d / 262144) 0xF0) ≡ d / 262144 + 240
lead_four d h = rw (or_f0 (d / 262144) (omega arith)) (omega arith)
