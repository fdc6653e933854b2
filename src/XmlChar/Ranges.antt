-- ===== src/XmlChar/Ranges.antt =====
-- The tables of xmlchar.cpp ascend, so that each membership test answers as a search from end to
-- end; and what follows from that for the tables of names.
use zpp_cpp.Common.{
  ℕ, ◌≤◌, ◌≡◌, refl, Bool, true, false, not, ◌&&◌, ◌||◌, List, [], ◌∷◌, leb, ◌==◌, arith,
  checks_below, checks_below_sound,
}
use native.Mathlib.Decide.{dec_lt}
use zpp_cpp.XmlChar.Search.{in_ranges, in_table-in_ranges}
use zpp_cpp.XmlChar.{
  in_table, base_table, extra_name_start_table, extra_name_table, extra_digit_table,
  combining_table, extender_table, is_base,
}

pub base_table_lem : (c : ℕ) → in_table base_table c ≡ in_ranges base_table c
unfolding base_table
base_table_lem c = in_table-in_ranges base_table c refl refl

pub extra_name_start_table_lem :
    (c : ℕ) → in_table extra_name_start_table c ≡ in_ranges extra_name_start_table c
unfolding extra_name_start_table
extra_name_start_table_lem c = in_table-in_ranges extra_name_start_table c refl refl

pub extra_name_table_lem : (c : ℕ) → in_table extra_name_table c ≡ in_ranges extra_name_table c
unfolding extra_name_table
extra_name_table_lem c = in_table-in_ranges extra_name_table c refl refl

pub extra_digit_table_lem : (c : ℕ) → in_table extra_digit_table c ≡ in_ranges extra_digit_table c
unfolding extra_digit_table
extra_digit_table_lem c = in_table-in_ranges extra_digit_table c refl refl

pub combining_table_lem : (c : ℕ) → in_table combining_table c ≡ in_ranges combining_table c
unfolding combining_table
combining_table_lem c = in_table-in_ranges combining_table c refl refl

pub extender_table_lem : (c : ℕ) → in_table extender_table c ≡ in_ranges extender_table c
unfolding extender_table
extender_table_lem c = in_table-in_ranges extender_table c refl refl

-- One pair lies inside a pair of the table.
abbrev covered : ℕ → ℕ → List ℕ → Bool
covered lo hi (l ∷ h ∷ rest) = leb l lo && leb hi h || covered lo hi rest
covered lo hi _ = false

abbrev all_covered : List ℕ → List ℕ → Bool
all_covered (lo ∷ hi ∷ rest) t = covered lo hi t && all_covered rest t
all_covered _ t = true

covered-in_ranges :
    (lo hi c : ℕ) (t : List ℕ) → covered lo hi t ≡ true → lo ≤ c → c ≤ hi → in_ranges t c ≡ true
covered-in_ranges lo hi c [] h p q = cc
covered-in_ranges lo hi c (x ∷ []) h p q = cc
covered-in_ranges lo hi c (x ∷ y ∷ t) h p q = ground (arith, covered-in_ranges lo hi c t)

pub in_ranges_of_covered :
    (s t : List ℕ) (c : ℕ) → all_covered s t ≡ true → in_ranges s c ≡ true → in_ranges t c ≡ true
in_ranges_of_covered [] t c a h = cc
in_ranges_of_covered (x ∷ []) t c a h = cc
in_ranges_of_covered (lo ∷ hi ∷ s) t c a h =
    ground (arith, covered-in_ranges lo hi c t, in_ranges_of_covered s t c)

-- Every pair of the table of start characters lies in the table of name characters.
pub name_start-name_table :
    (c : ℕ) → in_table extra_name_start_table c ≡ true → in_table extra_name_table c ≡ true
unfolding extra_name_start_table extra_name_table
name_start-name_table c h = rw extra_name_table_lem (
    in_ranges_of_covered extra_name_start_table extra_name_table c refl
      (rw extra_name_start_table_lem at h))

-- Below 0x100, where `isBase` does not look into its table.
abbrev base_ascii : ℕ → Bool
base_ascii c = in_ranges base_table c && not (c == 0xF6) || c == 0xF7

base_small :
    checks_below 0x100 (λ c. is_base c && base_ascii c || not (is_base c) && not (base_ascii c))
    ≡ true
unfolding checks_below is_base base_table
base_small = refl

-- `isBase` answers as its table, but for two values: 0xF6, which the table holds, is refused, and
-- 0xF7, which it does not hold, is accepted.
pub is_base-in_ranges :
    (c : ℕ) → is_base c ≡ (in_ranges base_table c && not (c == 0xF6) || c == 0xF7)
is_base-in_ranges c = elim (dec_lt c 0x100) [
  | yes small ↦ both_of _ _ (checks_below_sound 0x100 _ c base_small small)
  | no big ↦ unfold is_base in ground (arith, base_table_lem c)
]
  where
    both_of : (a b : Bool) → a && b || not a && not b ≡ true → a ≡ b
    both_of true b h = ground arith
    both_of false b h = ground arith
