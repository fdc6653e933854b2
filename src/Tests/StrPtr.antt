-- ===== src/Tests/StrPtr.antt =====
-- The results about src/zpp/str_ptr.cxx at concrete inputs.
use zpp_cpp.Common.{
  ◌∷◌, All, ◌+◌, ◌%◌, ℕ, suc, ◌≡◌, [], length, drop, Bytes, codes, none, some, false, arith, pos,
  negsuc,
}
use zpp_cpp.StrPtr.{subview, is_prefix, strpos, str_replace}
use zpp_cpp.StrPtr.Bytewise.{IsDigit}
use zpp_cpp.StrPtr.Views.{subview_inner}
use zpp_cpp.StrPtr.Find.{IsFirst, strpos-IsFirst}
use zpp_cpp.StrPtr.Replace.{Replaced, str_replace-Replaced}

abbrev upper_a : Bytes
upper_a = codes "A"

abbrev lower_a : Bytes
lower_a = codes "a"

subview_inner_example : subview (codes "{id}") (pos 1) (negsuc 0) ≡ some (codes "id")
subview_inner_example = subview_inner b'{' b'}' (codes "id")

strpos-IsFirst_example :
    ((k : ℕ)
      → strpos (some (codes "aab")) (codes "ab") ≡ some k
      → IsFirst (codes "ab") (codes "aab") k)
    × (strpos (some (codes "aab")) (codes "ab") ≡ none
        → (j : ℕ) → is_prefix (codes "ab") (drop j (codes "aab")) ≡ false)
strpos-IsFirst_example = strpos-IsFirst (codes "aab") (codes "ab")

str_replace-Replaced_example :
    (out : Bytes) × (str_replace (suc (length (codes "aab"))) (codes "a") (codes "xy") (codes "aab")
      ≡ some out)
    × Replaced (codes "a") (codes "xy") (codes "aab") out
str_replace-Replaced_example =
    str_replace-Replaced (codes "a") (codes "xy") (codes "aab") (omega arith)

-- One digit for every number.
abbrev last_digit : ℕ → Bytes
last_digit n = (b'0' + n % 10) ∷ []

last_digit-All : (n : ℕ) → All IsDigit (last_digit n)
last_digit-All n = ((omega arith, omega arith), tt)
