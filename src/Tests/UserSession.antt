-- ===== src/Tests/UserSession.antt =====
-- The theorems on user sessions at concrete states.
use zpp_cpp.Common.{
  ℤ, pos, Bytes, if◌then◌else◌, ◌≡◌, refl, Bool, true, false, none, some, codes, [], ◌∷◌,
}
use zpp_cpp.Php.{index, str, empty, entry}
use zpp_cpp.UserSession.Store.{State, data_of}
use zpp_cpp.UserSession.Data.{UserData, new_user}
use zpp_cpp.UserSession.Requests.{read, write, auth, nullify}
use zpp_cpp.UserSession.Keys.{is_empty}
use zpp_cpp.UserSession.Kept.{reads, read-write, read_active, nullify_ends}

abbrev editor : UserData
editor = record {
  user = some new_user;
  flash = empty;
  keys = empty;
  roles = entry (index 0) (str (codes "Editor")) empty;
}

abbrev opened : State
opened = record {
  active = true;
  store = empty;
  prefix = codes "app";
  has_session = true;
  do_write = true;
  was_read = true;
  ended = false;
  user_data = some 0;
  heap = editor ∷ [];
}

abbrev later : State
later = record opened { active = false; was_read = false; user_data = none; has_session = false }

abbrev unread : State
unread = record opened { was_read = false }

abbrev never : UserData → Bool
never u = false

abbrev no_hash : Bytes → ℤ
no_hash s = pos 0

read-write_example :
    let w = write true false true empty never true opened in
    let r = read true false true w.store never later in
    (w.do_write ≡ false)
    × (data_of r ≡ some editor)
    × (r.was_read ≡ true)
    × (r.heap ≡ editor ∷ [])
    × (r.do_write ≡ false)
read-write_example =
    read-write true false true empty never 0 editor opened later refl refl refl refl refl refl refl
      refl refl

read_active_example :
    let r = reads true false true empty never 3 unread in
    (r.user_data ≡ none)
    × (r.was_read ≡ false)
    × ((auth true false true empty never no_hash (str (codes "Editor")) r).1 ≡ none)
read_active_example =
    read_active true false true empty never 2 no_hash (str (codes "Editor")) unread refl refl refl
      refl

nullify_ends_example :
    (s' : State) × (nullify true false true empty never opened ≡ some s')
    × (s'.ended ≡ true)
    × (s'.has_session ≡ false)
    × (s'.active ≡ false)
    × (s'.store ≡ empty)
    × (read true false true empty never s' ≡ s')
    × (u' : UserData) × (data_of s' ≡ some u')
    × (u'.flash ≡ empty)
    × (u'.keys ≡ (if is_empty opened then empty else empty))
    × (u'.roles
        ≡ (if is_empty opened then editor.roles else entry (index 0) (str (codes "Guest")) empty))
nullify_ends_example = nullify_ends true false true empty never 0 editor opened refl refl refl
