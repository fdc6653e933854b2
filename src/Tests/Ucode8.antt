-- ===== src/Tests/Ucode8.antt =====
-- The results about src/zpp/ucode8.cpp at concrete inputs.
use zpp_cpp.Common.{Bytes, ◌≡◌, [], ◌∷◌, ◌++◌, length, arith}
use zpp_cpp.Ucode8.{ucode8_fwd, utf32_str8, u8bytes}
use zpp_cpp.Ucode8.RoundTrip.{ucode8_fwd-utf32_str8}

ucode8_fwd-utf32_str8_example :
    (ucode8_fwd (utf32_str8 0x20AC ++ 0x41 ∷ []) ≡ record { units = u8bytes 0x20AC; code = 0x20AC })
    × (length (utf32_str8 0x20AC) ≡ u8bytes 0x20AC)
ucode8_fwd-utf32_str8_example = ucode8_fwd-utf32_str8 0x20AC (0x41 ∷ []) (omega arith)

abbrev euro : Bytes
euro = 0xE2 ∷ 0x82 ∷ 0xAC ∷ []
