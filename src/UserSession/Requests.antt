-- ===== src/UserSession/Requests.antt =====
-- The methods of `UserSession` of src/wcc/usersession.cpp that read, write and end the session.
use zpp_cpp.Common.{
  Bool, true, false, ◌&&◌, ◌||◌, Option, none, some, ltb, length, if◌then◌else◌, Bytes, codes, ℤ,
  pos,
}
use zpp_cpp.Php
use zpp_cpp.Php.{
  Key, name, index, Val, null, long, str, arr, object, Arr, empty, entry, text_of, is_string,
}
use zpp_cpp.UserSession.Data.{UserData, new_user, is_logged_in}
use zpp_cpp.UserSession.Store.{
  State, session_get, session_set, session_destroy, data_of, change, and_then, writing, fresh_data,
}
use zpp_cpp.UserSession.Keys.{is_empty, set_guest, wipe}

-- `available` says whether the service of the session is there, `headers_gone` and `starts` are PHP's `headers_sent`
-- and the result of its start of a session, whose values are then `loaded`; `boosted` says whether
-- `adjustExpiry` has changed the time of the session.
module _ (available headers_gone starts : Bool) (loaded : Arr) (boosted : UserData → Bool) where
  -- `getSession`: whether there is no error.
  unfoldable pub get_session : State → State × Bool
  get_session s =
      if s.ended
      then (s, true)
      else if s.has_session
      then (s, true)
      else (record s { has_session = available }, available)

  -- `ISession::start`
  unfoldable pub start : State → State × Bool
  start s =
      if s.active || headers_gone
      then (s, false)
      else if starts
      then (record s { active = true; store = loaded }, true)
      else (s, false)

  abbrev pub user_data_key : Bytes
  user_data_key = codes "userData"

  abbrev pub boost : State → State
  boost s = elim (data_of s) [ none ↦ s | some u ↦ if boosted u then writing s else s ]

  -- `read` where the session has been started, by the value that stands in it
  abbrev pub found_data : Val → State → State
  found_data (object n) s = record (boost (record s { user_data = some n })) { was_read = true }
  found_data v s =
      let made = fresh_data s in
      record (session_set user_data_key (object (length s.heap)) made) {
        do_write = true;
        was_read = true;
      }

  -- `UserSession::read`
  unfoldable pub read : State → State
  read s =
      if s.was_read || s.ended
      then s
      else (let (s1, fine) = get_session (record s { do_write = false }) in
          if fine
          then (let (s2, exists) = start (record s1 { user_data = none }) in
              if exists
              then (let (s3, v) = session_get user_data_key null false s2 in found_data v s3)
              else s2)
          else s1)

  -- `write`, with `save`, `shutdown` and `activate`, which force it or ask for it. The result of `adjustExpiry` is
  -- not used.
  unfoldable pub write : Bool → State → State
  write force s =
      if force || s.do_write
      then (let (s1, fine) = get_session (record s { do_write = false }) in
          if fine && s1.has_session
          then session_set user_data_key (elim s1.user_data [ none ↦ null | some n ↦ object n ]) s1
          else s1)
      else s

  -- `auth`
  unfoldable pub auth : (Bytes → ℤ) → Val → State → State × Option Bool
  auth hash role s =
      let s1 = read s in
      (s1, elim (data_of s1) [ none ↦ none | some u ↦ some (is_logged_in hash role u) ])

  -- `guestSession`
  unfoldable pub guest_session : State → Option State
  guest_session s = and_then (set_guest s) (λ s'. some (write false (writing s')))

  -- `getUserData`
  unfoldable pub get_user_data : State → Option State
  get_user_data s =
      let s1 = read s in
      elim (data_of s1) [
        | none ↦ none
        | some u ↦ elim u.user [
          | none ↦ change (λ u. record u { user = some new_user }) (writing s1)
          | some w ↦ some s1
        ]
      ]

  -- `nullify`, with the end of PHP's session behind it
  unfoldable pub nullify : State → Option State
  nullify s =
      let s1 = read s in
      and_then (if is_empty s1 then some s1 else wipe s1) (λ s2.
        let s3 = if s2.has_session then session_destroy s2 else s2 in
        some (record s3 { has_session = false; active = false; ended = true }))

  -- `updated`
  unfoldable pub store_data : State → State
  store_data s =
      let (s1, fine) = get_session s in
      if fine && s1.has_session
      then session_set user_data_key (elim s1.user_data [ none ↦ null | some n ↦ object n ]) s1
      else s1

  -- `addUserRoles`; `merge` is `htab_cow::merge`.
  unfoldable pub add_user_roles : (Arr → Arr → Arr) → Arr → State → Option State
  add_user_roles merge roles s = and_then (get_user_data s) (λ s1. elim (data_of s1) [
    | none ↦ none
    | some u ↦
        change (λ w. record w { roles = merge w.roles roles })
          (if ltb (Php.size u.roles) (Php.size (merge u.roles roles)) then writing s1 else s1)
  ])

-- `getUserId`: 0 where the session has not been read, or the user has no id.
unfoldable get_user_id : State → ℤ
get_user_id s =
    if s.was_read
    then (elim (data_of s) [
      | none ↦ pos 0
      | some u ↦ elim u.user [ none ↦ pos 0 | some w ↦ elim w.id [ none ↦ pos 0 | some i ↦ i ] ]
    ])
    else pos 0

-- `ISession::setOptions`, for the prefix
unfoldable set_prefix : Arr → State → State
set_prefix options s = record s { prefix = text_of (Php.get (name (codes "prefix")) options) }
