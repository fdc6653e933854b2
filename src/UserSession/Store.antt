-- ===== src/UserSession/Store.antt =====
-- `ISession` of src/wcc/isession.cpp, and the state of `UserSession` of usersession.cpp.
use zpp_cpp.Common.{
  ℕ, zero, suc, Bool, true, false, ◌&&◌, List, [], ◌∷◌, ◌++◌, Option, none, some, ltb, length,
  get_elem?, if◌then◌else◌, Bytes,
}
use zpp_cpp.Php
use zpp_cpp.Php.{
  Key, name, index, Val, null, long, str, arr, object, Arr, empty, entry, text_of, is_string,
}
use zpp_cpp.Php.Lists
use zpp_cpp.Php.Lists.{push_back, value_index}
use zpp_cpp.UserSession.Data.{UserData, new_user_data}

-- The session of PHP with the prefix of `ISession`, and the user session on it.
pub record State : Type 0 where
  pub active : Bool
  pub store : Arr
  pub prefix : Bytes
  pub has_session : Bool
  pub do_write : Bool
  pub was_read : Bool
  pub ended : Bool
  pub user_data : Option ℕ
  pub heap : List UserData

-- `ISession::getUniqueKey`
unfoldable pub get_unique_key : Bytes → State → Bytes
get_unique_key key s = if ltb 0 (length s.prefix) then s.prefix ++ b'#' ∷ key else key

-- `ISession::get`, `has`, `set` and `remove`
unfoldable pub session_get : Bytes → Val → Bool → State → State × Val
session_get key default remove s =
    let k = name (get_unique_key key s) in
    if s.active
    then (elim (Php.get k s.store) [
      | none ↦ (s, default)
      | some v ↦ (if remove then record s { store = Lists.unset k s.store } else s, v)
    ])
    else (s, null)

unfoldable session_has : Bytes → State → Bool
session_has key s = s.active && Php.has_key (name (get_unique_key key s)) s.store

unfoldable pub session_set : Bytes → Val → State → State
session_set key v s =
    if s.active then record s { store = Php.set (name (get_unique_key key s)) v s.store } else s

unfoldable session_remove : Bytes → State → State
session_remove key s =
    if s.active then record s { store = Lists.unset (name (get_unique_key key s)) s.store } else s

-- `ISession::destroy`
unfoldable pub session_destroy : State → State
session_destroy s = if s.active then record s { active = false; store = empty } else s

-- The user data as an object of the heap
abbrev pub updated : (UserData → UserData) → ℕ → List UserData → List UserData
updated f n [] = []
updated f zero (u ∷ heap) = f u ∷ heap
updated f (suc n) (u ∷ heap) = u ∷ updated f n heap

abbrev pub data_of : State → Option UserData
data_of s = elim s.user_data [ none ↦ none | some n ↦ get_elem? s.heap n ]

abbrev pub change : (UserData → UserData) → State → Option State
change f s = elim s.user_data [
  | none ↦ none
  | some n ↦ some (record s { heap = updated f n s.heap })
]

abbrev pub and_then : Option State → (State → Option State) → Option State
and_then none f = none
and_then (some s) f = f s

abbrev pub writing : State → State
writing s = record s { do_write = true }

abbrev pub fresh_data : State → State
fresh_data s = record s { user_data = some (length s.heap); heap = s.heap ++ new_user_data ∷ [] }

-- `UserSession::construct`, in a session that has been set up
unfoldable construct : State → State
construct s = fresh_data (record s { do_write = false; was_read = false; ended = false })
