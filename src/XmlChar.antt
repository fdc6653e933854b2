-- ===== src/XmlChar.antt =====
-- src/wcx/xmlchar.cpp: the character classes of XML 1.0 and 1.1, and the binary search through the
-- tables of XmlChar/Tables. A `char32_t` is a number; nothing is computed with it but comparisons.
mod Tables
pub mod Search
pub mod Ranges
pub mod Classes
unfoldable pub use Tables.*
use zpp_cpp.Common.{
  ℕ, zero, suc, ◌+◌, ◌-◌, ◌*◌, ◌/◌, Bool, true, false, not, ◌&&◌, ◌||◌, List, [], ◌∷◌, length,
  get_or, ltb, leb, ◌==◌, if◌then◌else◌, Bytes,
}

-- lo <= c && c <= hi
abbrev pub within : ℕ → ℕ → ℕ → Bool
within lo hi c = leb lo c && leb c hi

unfoldable pub is_ideographic : ℕ → Bool
is_ideographic c =
    if ltb c 0x3007 || ltb 0x9FA5 c
    then false
    else if leb 0x4E00 c || c == 0x3007 || within 0x3021 0x3029 c
    then true
    else false

unfoldable pub is_alphabet : ℕ → Bool
is_alphabet c = within b'a' b'z' c || within b'A' b'Z' c

unfoldable pub is_ascii_name : Bytes → Bool
is_ascii_name [] = true
is_ascii_name (d ∷ s) =
    let rest = is_ascii_name s in
    if within b'a' b'z' d
      || within b'A' b'Z' d
      || within b'0' b'9' d
      || d == b'_'
      || d == b'.'
      || d == b'-'
    then rest
    else false

-- The loop of `in_pairs_table`; `(x / 2) & ~1` rounds down to an even number. A round makes
-- `hi - low` smaller, so with fuel for `hi - low` rounds the loop ends by its own test.
search_pairs : ℕ → List ℕ → ℕ → ℕ → ℕ → Bool
search_pairs zero table c low hi = false
search_pairs (suc fuel) table c low hi =
    let m2 : ℕ = low + (hi - low) / 2 / 2 * 2 in
    let below = search_pairs fuel table c low m2 in
    let above = search_pairs fuel table c (m2 + 2) hi in
    if ltb low hi
    then (if ltb c (get_or table m2 0)
        then below
        else if ltb (get_or table (m2 + 1) 0) c
        then above
        else true)
    else false

unfoldable pub in_pairs_table : List ℕ → ℕ → ℕ → Bool
unfolding search_pairs
in_pairs_table table tlen c = search_pairs tlen table c 0 tlen

-- `in_pairs_table(table, std::size(table), c)`
abbrev pub in_table : List ℕ → ℕ → Bool
in_table table c = in_pairs_table table (length table) c

unfoldable pub is_base : ℕ → Bool
is_base c =
    if ltb c 0x100
    then (if leb c 0x007A
        then leb 0x0061 c || within 0x0041 0x005A c
        else if leb 0x00C0 c && not (c == 0x00D7) && not (c == 0x00F6)
        then true
        else false)
    else in_table base_table c

unfoldable pub is_digit : ℕ → Bool
is_digit c = if within 0x0030 0x0039 c then true else in_table extra_digit_table c

unfoldable pub is_combining : ℕ → Bool
is_combining c = in_table combining_table c

unfoldable pub is_extender : ℕ → Bool
is_extender c = in_table extender_table c

-- Rule 84.
unfoldable pub is_letter : ℕ → Bool
is_letter c = is_ideographic c || is_base c

abbrev pub ascii_name_start : ℕ → Bool
ascii_name_start c = within b'a' b'z' c || within b'A' b'Z' c || c == b':' || c == b'_'

abbrev pub ascii_name : ℕ → Bool
ascii_name c =
    within b'a' b'z' c
    || within b'A' b'Z' c
    || within b'0' b'9' c
    || c == b'-'
    || c == b'.'
    || c == b':'
    || c == b'_'

unfoldable pub is_name_start10 : ℕ → Bool
is_name_start10 c = if ascii_name_start c then true else is_ideographic c || is_base c

unfoldable pub is_name10 : ℕ → Bool
is_name10 c =
    if ascii_name c
    then true
    else is_ideographic c || is_base c || is_digit c || is_combining c || is_extender c

unfoldable pub is_name_start11 : ℕ → Bool
is_name_start11 c = if ascii_name_start c then true else in_table extra_name_start_table c

unfoldable pub is_name11 : ℕ → Bool
is_name11 c = if ascii_name c then true else in_table extra_name_table c

unfoldable pub is_char10 : ℕ → Bool
is_char10 c =
    if within 0x20 0xD7FF c
    then true
    else if ltb c 0x20
    then c == 0xA || c == 0x9 || c == 0xD
    else within 0xE000 0xFFFD c || within 0x10000 0x10FFFF c

unfoldable pub is_char11 : ℕ → Bool
is_char11 c =
    if leb 0x20 c && ltb c 0x7F
    then true
    else if ltb c 0x20
    then c == 0xA || c == 0x9 || c == 0xD
    else if leb c 0xD7FF
    then ltb 0x9F c || c == 0x85
    else within 0xE000 0xFFFD c || within 0x10000 0x10FFFF c

unfoldable pub is_space : ℕ → Bool
is_space c = c == 0x20 || c == 0x09 || c == 0x0A || c == 0x0D

unfoldable pub is_control11 : ℕ → Bool
is_control11 c =
    if leb c 0x1F
    then (if c == 0x09 || c == 0x0A || c == 0x0 || c == 0x0D then false else true)
    else if leb c 0x9F
    then leb 0x7F c && not (c == 0x85)
    else false
