-- ===== src/Tests/XmlChar.antt =====
-- The results about src/wcx/xmlchar.cpp at concrete inputs.
use zpp_cpp.Common.{◌≡◌, length, not, ◌&&◌, ◌||◌, ◌==◌, refl}
use zpp_cpp.XmlChar.{in_pairs_table, is_base, base_table, extender_table}
use zpp_cpp.XmlChar.Search.{in_ranges, in_table-in_ranges}
use zpp_cpp.XmlChar.Ranges.{is_base-in_ranges}

in_table-in_ranges_example :
    in_pairs_table extender_table (length extender_table) 0xB7 ≡ in_ranges extender_table 0xB7
unfolding extender_table
in_table-in_ranges_example = in_table-in_ranges extender_table 0xB7 refl refl

is_base-in_ranges_example :
    is_base 0xF7 ≡ (in_ranges base_table 0xF7 && not (0xF7 == 0xF6) || 0xF7 == 0xF7)
is_base-in_ranges_example = is_base-in_ranges 0xF7
