-- ===== src/UserSession/Found.antt =====
-- What `UserSession::read` of src/wcc/usersession.cpp leaves where the session has user data.
use zpp_cpp.Common.{
  ℕ, ◌≡◌, refl, Bool, true, false, none, some, get_elem?, codes, arith, if◌then◌else◌, Bool-cases,
  inl, inr,
}
use zpp_cpp.Php
use zpp_cpp.Php.{Key, name, index, str, entry, Val, null, object, Arr, empty, key_equal}
use zpp_cpp.UserSession.Store.{State, writing, data_of, session_get, get_unique_key}
use zpp_cpp.UserSession.Data.{UserData}
use zpp_cpp.UserSession.Requests.{found_data, read, get_session, start}

-- The state as it stands where `read` has found the object `n`.
abbrev found_at : ℕ → Arr → State → State
found_at n store t = record t {
  do_write = false;
  has_session = true;
  active = true;
  store = store;
  user_data = some n;
}

-- The two steps of `read` before it looks for the user data.
started :
    (boosted : UserData → Bool) (t : State) (store : Arr)
    → t.ended ≡ false
    → t.active ≡ false
    → (get_session true false true store boosted (record t { do_write = false })
        ≡ (record t { do_write = false; has_session = true }, true))
      × (start true false true store boosted
            (record t { do_write = false; has_session = true; user_data = none })
          ≡ (record (found_at 0 store t) { user_data = none }, true))
unfolding get_session start
started boosted t store going idle = elim (Bool-cases t.has_session) [
  | inl h ↦ (ground (arith, going, h), ground (arith, idle))
  | inr h ↦ (ground (arith, going, h), ground (arith, idle))
]

got :
    (n : ℕ) (t : State) (store : Arr)
    → Php.get (name (get_unique_key (codes "userData") t)) store ≡ some (object n)
    → let s = record (found_at 0 store t) { user_data = none } in
      session_get (codes "userData") null false s ≡ (s, object n)
unfolding session_get get_unique_key
got n t store stored = rw stored refl

found_data_lem :
    (boosted : UserData → Bool) (n : ℕ) (u : UserData) (t : State) (store : Arr)
    → get_elem? t.heap n ≡ some u
    → found_data true false true store boosted
        (object n)
        (record (found_at 0 store t) { user_data = none })
      ≡ record (if boosted u then writing (found_at n store t) else found_at n store t) {
        was_read = true;
      }
found_data_lem boosted n u t store there = elim (Bool-cases (boosted u)) [
  | inl b ↦ ground (arith, there, b)
  | inr b ↦ ground (arith, there, b)
]

pub read_found :
    (boosted : UserData → Bool) (n : ℕ) (u : UserData) (t : State) (store : Arr)
    → t.was_read ≡ false
    → t.ended ≡ false
    → t.active ≡ false
    → Php.get (name (get_unique_key (codes "userData") t)) store ≡ some (object n)
    → get_elem? t.heap n ≡ some u
    → read true false true store boosted t
      ≡ record (if boosted u then writing (found_at n store t) else found_at n store t) {
        was_read = true;
      }
unfolding read
read_found boosted n u t store unread going idle stored there =
    let (first, second) = started boosted t store going idle in
    rw first (
      rw second (
        rw (got n t store stored)
          (rw (found_data_lem boosted n u t store there) (rw (unread, going) refl))))

pub found_lem :
    (n : ℕ) (u : UserData) (t : State) (store : Arr) (boosted : UserData → Bool)
    → get_elem? t.heap n ≡ some u
    → let r = record (if boosted u then writing (found_at n store t) else found_at n store t) {
      was_read = true;
    } in
      (data_of r ≡ some u) × (r.was_read ≡ true) × (r.heap ≡ t.heap) × (r.do_write ≡ boosted u)
found_lem n u t store boosted there = elim (Bool-cases (boosted u)) [
  | inl b ↦ rw b (there, refl, refl, refl)
  | inr b ↦ rw b (there, refl, refl, refl)
]
