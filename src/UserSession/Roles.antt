-- ===== src/UserSession/Roles.antt =====
-- The roles of src/wcc/userdata.cpp: `hasAnyRole` by `hasRole`.
use zpp_cpp.Common.{
  negsuc, ◌<◌, true, codes, ◌≡◌, refl, Bool, false, ◌||◌, Option, none, some, Bytes,
}
use zpp_cpp.Php.{name, index, str, Arr, empty, entry, size}
use zpp_cpp.Php.Lists.{value_index}
use zpp_cpp.StrPtr.{zs_cmp}
use zpp_cpp.UserSession.Data.{
  new_user_data, role_loop, has_role, any_role_loop, has_any_role, texts_of,
}

-- The test holds for one of the texts of an array.
abbrev or_test : (Bytes → Bool) → Option Bytes → Bool
or_test p none = false
or_test p (some s) = p s

abbrev pub any_text : (Bytes → Bool) → Arr → Bool
any_text p empty = false
any_text p (entry k v r) = or_test p (texts_of v) || any_text p r

-- The keys are numbers that an `int` holds.
abbrev pub KeysFit : Arr → Type 0
KeysFit empty = Unit
KeysFit (entry (name s) v r) = ⊥
KeysFit (entry (index i) v r) = (i < 2147483648) × KeysFit r

-- Under a text key, whose hash is negative, a role that `hasRole` finds is none for `hasAnyRole`.
text_key_role :
    (has_any_role
        (λ s. negsuc 7)
        (entry (index 0) (str (codes "Admin")) empty)
        (record new_user_data { roles = entry (name (codes "a")) (str (codes "Admin")) empty })
      ≡ false)
    × (has_role
          (codes "Admin")
          (record new_user_data { roles = entry (name (codes "a")) (str (codes "Admin")) empty })
        ≡ true)
unfolding has_any_role has_role any_role_loop role_loop value_index size zs_cmp
text_key_role = (refl, refl)
