-- ===== src/UserSession/Data.antt =====
-- `UserData` of src/wcc/userdata.cpp: the user, its keys, messages and roles.
use zpp_cpp.Common.{
  Bool, true, false, Option, none, some, ◌==◌, if◌then◌else◌, Bytes, ℤ, pos, negsuc,
}
use zpp_cpp.Php
use zpp_cpp.Php.{
  Key, name, index, Val, null, long, str, arr, object, Arr, empty, entry, text_of, is_string,
}
use zpp_cpp.Php.Lists.{value_index}
use zpp_cpp.StrPtr.{zs_cmp, is_zero}

-- The user is a `Config` object: its fields, and its id, which may be -1.
pub record User : Type 0 where
  pub fields : Arr
  pub id : Option ℤ

pub record UserData : Type 0 where
  pub user : Option User
  pub flash : Arr
  pub keys : Arr
  pub roles : Arr

abbrev pub new_user : User
new_user = record { fields = empty; id = none }

-- `UserData::newobj`, with `construct` and `init`
abbrev pub new_user_data : UserData
new_user_data = record { user = some new_user; flash = empty; keys = empty; roles = empty }

abbrev pub texts_of : Val → Option Bytes
texts_of (str s) = some s
texts_of _ = none

-- The loop of `UserData::hasRole`; a role that is no text is a null one.
unfoldable pub role_loop : Arr → Bytes → Bool
role_loop empty role = false
role_loop (entry k v r) role =
    let rest = role_loop r role in if is_zero (zs_cmp (texts_of v) (some role)) then true else rest

unfoldable pub has_role : Bytes → UserData → Bool
has_role role u = if Php.size u.roles == 0 then false else role_loop u.roles role

-- The test `>= 0`
abbrev pub is_found : ℤ → Bool
is_found (pos i) = true
is_found (negsuc i) = false

-- `UserData::hasAnyRole`; `hash` is the hash of a text key as an `int`.
unfoldable pub any_role_loop : (Bytes → ℤ) → Arr → Arr → Bool
any_role_loop hash empty mine = false
any_role_loop hash (entry k v r) mine =
    let rest = any_role_loop hash r mine in
    elim (texts_of v) [
      | none ↦ rest
      | some role ↦ if is_found (value_index hash role mine) then true else rest
    ]

unfoldable pub has_any_role : (Bytes → ℤ) → Arr → UserData → Bool
has_any_role hash list u =
    if Php.size list == 0
    then false
    else if Php.size u.roles == 0
    then false
    else any_role_loop hash list u.roles

-- `UserData::isLoggedIn`
unfoldable pub is_logged_in : (Bytes → ℤ) → Val → UserData → Bool
is_logged_in hash (str s) u = has_role s u
is_logged_in hash (arr a) u = has_any_role hash a u
is_logged_in hash _ u = false
