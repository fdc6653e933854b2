-- ===== src/XmlChar/Classes.antt =====
-- How the character classes relate to one another and to the productions of the XML
-- recommendations that the source quotes.
use zpp_cpp.Common.{
  ℕ, ◌≤◌, ◌<◌, ◌≡◌, refl, Bool, true, false, not, ◌&&◌, ◌||◌, [], ◌∷◌, leb, ◌==◌, arith, All, Bytes,
  checks_below, checks_below_sound,
}
use zpp_cpp.XmlChar.Ranges.{extra_name_start_table_lem, extra_name_table_lem, name_start-name_table}
use zpp_cpp.XmlChar.{
  within, in_pairs_table, extra_digit_table, combining_table, extender_table, base_table,
  extra_name_start_table, extra_name_table, is_base, is_digit, is_combining, is_extender, is_letter,
  is_ideographic, is_ascii_name, is_name_start10, is_name10, is_name_start11, is_name11, is_char10,
  is_char11, is_space, is_control11,
}

alphabet-is_base : (c : ℕ) → within b'a' b'z' c || within b'A' b'Z' c ≡ true → is_base c ≡ true
unfolding is_base
alphabet-is_base c h = ground arith

digit-is_digit : (c : ℕ) → within b'0' b'9' c ≡ true → is_digit c ≡ true
unfolding is_digit
digit-is_digit c h = ground arith

-- The tests that come first for speed change nothing: a start character of XML 1.0 is a letter, '_'
-- or ':' (production 5), and a name character a letter, a digit, '.', '-', '_', ':', a combining
-- character or an extender (production 4).
pub is_name10-productions :
    (c : ℕ)
    → (is_name_start10 c ≡ (is_letter c || c == b'_' || c == b':'))
      × (is_name10 c ≡ (
          is_letter c
          || is_digit c
          || c == b'.'
          || c == b'-'
          || c == b'_'
          || c == b':'
          || is_combining c
          || is_extender c))
unfolding is_name_start10 is_name10 is_letter
is_name10-productions c =
    (ground (arith, alphabet-is_base c), ground (arith, alphabet-is_base c, digit-is_digit c))

-- Every character that may start a name may stand in a name, in XML 1.0 and in XML 1.1.
pub is_name_start-is_name :
    (c : ℕ)
    → (is_name_start10 c ≡ true → is_name10 c ≡ true)
      × (is_name_start11 c ≡ true → is_name11 c ≡ true)
unfolding is_name_start10 is_name10 is_name_start11 is_name11
is_name_start-is_name c = (λ h. ground arith, λ h. ground (arith, name_start-name_table c))

-- A character of XML 1.0 is one of XML 1.1 or a control character of XML 1.1 from 0x7F up, and never
-- both; the control characters below 0x20 belong to neither class.
pub is_char10-split :
    (c : ℕ)
    → (is_char10 c ≡ (is_char11 c || is_control11 c && leb 0x7F c))
      × (is_char11 c && is_control11 c ≡ false)
unfolding is_char10 is_char11 is_control11
is_char10-split c = (ground arith, ground arith)

abbrev space_class : ℕ → Bool
space_class c =
    is_char10 c && is_char11 c && not (is_control11 c) && not (is_name11 c) && not (is_name10 c)

space_table : checks_below 0x21 (λ c. not (is_space c) || space_class c) ≡ true
unfolding checks_below is_space is_char10 is_char11 is_control11 is_name11 is_name10 is_ideographic
    is_base is_digit is_combining is_extender in_pairs_table base_table extra_digit_table
    combining_table extender_table extra_name_table
space_table = refl

space_small : (c : ℕ) → is_space c ≡ true → c < 0x21
unfolding is_space
space_small c h = ground arith

-- White space is a character of both versions, no control character, and never part of a name.
pub is_space_class :
    (c : ℕ)
    → is_space c ≡ true
    → (is_char10 c ≡ true)
      × (is_char11 c ≡ true)
      × (is_control11 c ≡ false)
      × (is_name11 c ≡ false)
      × (is_name10 c ≡ false)
is_space_class c h = ground (arith, checks_below_sound 0x21 _ c space_table (space_small c h))

-- An ASCII name has only name characters of both versions.
pub is_ascii_name-is_name :
    (s : Bytes) → is_ascii_name s ≡ true → All (λ c. (is_name10 c ≡ true) × (is_name11 c ≡ true)) s
unfolding is_ascii_name
is_ascii_name-is_name [] h = tt
is_ascii_name-is_name (c ∷ s) h =
    (unfold is_name10 is_name11 in ground arith, is_ascii_name-is_name s (ground arith))

-- The name classes of XML 1.1 refuse [0xFDF0-0xFFFD], which the recommendation quoted above them
-- lists.
pub is_name11_gap :
    (c : ℕ) → 0xFDF0 ≤ c → c ≤ 0xFFFD → (is_name_start11 c ≡ false) × (is_name11 c ≡ false)
unfolding is_name_start11 is_name11 extra_name_start_table extra_name_table
is_name11_gap c l h =
    (ground (arith, extra_name_start_table_lem c), ground (arith, extra_name_table_lem c))
