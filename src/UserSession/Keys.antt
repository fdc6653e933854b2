-- ===== src/UserSession/Keys.antt =====
-- The methods of `UserSession` of src/wcc/usersession.cpp that change the user data alone.
use zpp_cpp.Common.{
  Bool, true, false, [], ◌++◌, Option, none, some, ◌==◌, if◌then◌else◌, Bytes, codes, negsuc,
}
use zpp_cpp.Php
use zpp_cpp.Php.{
  Key, name, index, Val, null, long, str, arr, object, Arr, empty, entry, text_of, is_string,
}
use zpp_cpp.Php.Lists
use zpp_cpp.Php.Lists.{push_back, value_index}
use zpp_cpp.UserSession.Data.{User, UserData, new_user}
use zpp_cpp.UserSession.Store.{State, data_of, change, and_then, writing}

-- `addFlash`, and `flash` with its lines joined
unfoldable add_flash : Bytes → Bytes → State → Option State
add_flash text status s =
    change
      (λ u. record u {
        flash = push_back (arr (push_back (str status) (push_back (str text) empty))) u.flash;
      })
      s

unfoldable flash_text : Bytes → Arr → Bytes
flash_text buf empty = buf
flash_text buf (entry k v lines) = flash_text (buf ++ (codes "<br>\n" ++ text_of (some v))) lines

unfoldable flash : Bytes → Option Bytes → Arr → State → Option State
unfolding add_flash
flash msg status lines s =
    add_flash (flash_text msg lines) (elim status [ none ↦ codes "info" | some t ↦ t ]) s

unfoldable clear_flash : State → Option State
clear_flash s = change (λ u. record u { flash = empty }) s

-- `getKey`, `hasKey`, `setKey` and `unsetKey`
unfoldable pub get_key : Bytes → Val → State → Option Val
get_key key default s = elim (data_of s) [
  | none ↦ none
  | some u ↦ some (elim (Php.get (name key) u.keys) [ none ↦ default | some v ↦ v ])
]

unfoldable has_key : Bytes → State → Option Bool
has_key key s = elim (data_of s) [ none ↦ none | some u ↦ some (Php.has_key (name key) u.keys) ]

unfoldable pub set_key : Bytes → Val → State → Option State
set_key key v s = change (λ u. record u { keys = Php.set (name key) v u.keys }) (writing s)

unfoldable unset_key : Bytes → State → Option State
unset_key key s = elim (data_of s) [
  | none ↦ none
  | some u ↦
      if Php.has_key (name key) u.keys
      then change (λ u. record u { keys = Lists.unset (name key) u.keys }) (writing s)
      else some s
]

-- `isEmpty`; without user data the session is not empty.
unfoldable pub is_empty : State → Bool
is_empty s = elim (data_of s) [
  | none ↦ false
  | some u ↦ elim u.user [ none ↦ true | some w ↦ Php.size u.roles == 0 ]
]

-- The loop of `UserSession::roles`
unfoldable roles_text : Bool → Arr → Bytes
roles_text first empty = []
roles_text first (entry k v r) =
    let rest = text_of (some v) ++ roles_text false r in if first then rest else codes ", " ++ rest

abbrev user_fields : Bytes → Arr → Arr
user_fields uname fields = Php.set (name (codes "memberid")) (long 0) (
    Php.set (name (codes "email")) (str []) (
      Php.set (name (codes "status")) (str (codes "OK"))
        (Php.set (name (codes "userName")) (str uname) fields)))

abbrev user_of : Option User → User
user_of none = new_user
user_of (some u) = u

abbrev pub as_user : Bytes → Arr → UserData → UserData
as_user uname roles u = record u {
  user = some (record { fields = user_fields uname (user_of u.user).fields; id = some (negsuc 0) });
  keys = empty;
  roles = roles;
}

abbrev pub as_wiped : UserData → UserData
as_wiped u = record u { keys = empty; roles = empty; user = none }

-- `setValidUser` with `UserData::getUser`, `setGuest` and `setAdmin`
unfoldable pub set_valid_user : Bytes → Arr → State → Option State
set_valid_user uname roles s = change (as_user uname roles) s

abbrev pub guest_roles : Arr
guest_roles = entry (index 0) (str (codes "Guest")) empty

unfoldable pub set_guest : State → Option State
set_guest s = set_valid_user (codes "Guest") guest_roles s

unfoldable set_admin : State → Option State
set_admin s =
    set_valid_user (codes "admin")
      (entry (index 0) (str (codes "Admin"))
        (entry (index 1) (str (codes "User")) (entry (index 2) (str (codes "Editor")) empty)))
      s

-- `wipe`
unfoldable pub wipe : State → Option State
wipe s = and_then (change as_wiped s) (λ s'. and_then (set_guest s') (λ s2. some (writing s2)))
