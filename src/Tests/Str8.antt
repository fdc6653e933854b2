-- ===== src/Tests/Str8.antt =====
-- The results about src/wcc/str8.cpp at concrete inputs.
use zpp_cpp.Common.{ℕ, ◌≡◌, List, [], ◌∷◌, some, take, length, true, refl, arith}
use zpp_cpp.Str8.{it_rewind, it_valid, it_get_data, it_get_key, create}
use zpp_cpp.Str8.Walk.{advance, encode, it_forward-encode}

abbrev two_codes : List ℕ
two_codes = 0x41 ∷ 0x20AC ∷ []

it_forward-encode_example :
    (it_get_data (advance (encode two_codes) 2 (it_rewind create)) ≡ some 0x20AC)
    × (it_get_key (advance (encode two_codes) 2 (it_rewind create))
        ≡ length (encode (take 1 two_codes)))
    × (it_valid (advance (encode two_codes) 2 (it_rewind create)) ≡ true)
it_forward-encode_example =
    it_forward-encode two_codes create 1 (omega arith, (omega arith, tt)) refl
