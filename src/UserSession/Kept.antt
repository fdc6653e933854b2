-- ===== src/UserSession/Kept.antt =====
-- What a user session of src/wcc/usersession.cpp keeps: its keys, and its data from one request to the next.
use zpp_cpp.Common.{
  ℕ, zero, suc, ◌≡◌, refl, Bool, true, false, List, [], ◌∷◌, none, some, get_elem?, Bytes, codes,
  arith, if◌then◌else◌, equal, Bool-cases, inl, inr, ◌&&◌, ◌||◌, ℤ,
}
use zpp_cpp.Php
use zpp_cpp.Php.{Key, name, index, str, entry, Val, null, object, Arr, empty, key_equal}
use zpp_cpp.Php.Arrays.{get-set, get-set_same}
use zpp_cpp.UserSession.Store.{
  State, updated, data_of, session_set, get_unique_key, session_destroy,
}
use zpp_cpp.UserSession.Data.{UserData}
use zpp_cpp.UserSession.Keys.{
  set_key, get_key, wipe, set_guest, set_valid_user, guest_roles, is_empty, as_user, as_wiped,
}
use zpp_cpp.UserSession.Requests.{read, write, get_session, start, auth, nullify}
use zpp_cpp.UserSession.Found.{read_found, found_lem}

get_elem?-updated :
    (f : UserData → UserData) (n : ℕ) (heap : List UserData) (u : UserData)
    → get_elem? heap n ≡ some u
    → get_elem? (updated f n heap) n ≡ some (f u)
get_elem?-updated f n [] u h = cc
get_elem?-updated f zero (w ∷ heap) u h = ground (arith, h)
get_elem?-updated f (suc n) (w ∷ heap) u h = get_elem?-updated f n heap u h

-- The user data at `n` is that of a guest.
abbrev guested : ℕ → List UserData → List UserData
guested n heap = updated (as_user (codes "Guest") guest_roles) n (updated as_wiped n heap)

-- In a session with user data, `setKey` asks for a write, and `getKey` then gives the value under that key, and
-- under any other what it gave before.
pub get_key-set_key :
    (k j : Bytes) (v default : Val) (n : ℕ) (u : UserData) (s : State)
    → s.user_data ≡ some n
    → get_elem? s.heap n ≡ some u
    → (s' : State) × (set_key k v s ≡ some s')
      × (s'.do_write ≡ true)
      × (get_key j default s' ≡ (if equal k j then some v else get_key j default s))
unfolding set_key get_key key_equal
get_key-set_key k j v default n u s at there = (
  record s {
    do_write = true;
    heap = updated (λ w. record w { keys = Php.set (name k) v w.keys }) n s.heap;
  },
  ground (arith, at),
  refl,
  ground (
    arith,
    at,
    there,
    get_elem?-updated (λ w. record w { keys = Php.set (name k) v w.keys }) n s.heap u there,
    get-set (name k) (name j) v u.keys,
  ),
)

wipe_lem :
    (n : ℕ) (s : State)
    → s.user_data ≡ some n
    → wipe s ≡ some (record s { do_write = true; heap = guested n s.heap })
unfolding wipe set_guest set_valid_user
wipe_lem n s at = ground (arith, at)

module _ (available headers_gone starts : Bool) (loaded : Arr) (boosted : UserData → Bool) where
  later :
      (n : ℕ) (u : UserData) (t : State) (store : Arr)
      → t.was_read ≡ false
      → t.ended ≡ false
      → t.active ≡ false
      → Php.get (name (get_unique_key (codes "userData") t)) store ≡ some (object n)
      → get_elem? t.heap n ≡ some u
      → let r = read true false true store boosted t in
        (data_of r ≡ some u) × (r.was_read ≡ true) × (r.heap ≡ t.heap) × (r.do_write ≡ boosted u)
  later n u t store unread going idle stored there =
      rw (read_found boosted n u t store unread going idle stored there)
        (found_lem n u t store boosted there)

  -- A forced write of an active session that has not ended and has user data `u`, and the read of a later
  -- request, with the same prefix, that has not read or started its session or ended it, to which PHP gives
  -- the stored values, and in whose heap the object that was stored is `u` again: the write leaves nothing to
  -- be written, and the later request has read the data `u`, its heap is as before, and it asks for a
  -- write exactly where the time of the session has been changed.
  pub read-write :
      (n : ℕ) (u : UserData) (s t : State)
      → s.user_data ≡ some n
      → s.has_session ≡ true
      → s.active ≡ true
      → s.ended ≡ false
      → t.was_read ≡ false
      → t.ended ≡ false
      → t.active ≡ false
      → t.prefix ≡ s.prefix
      → get_elem? t.heap n ≡ some u
      → let w = write available headers_gone starts loaded boosted true s in
        let r = read true false true w.store boosted t in
        (w.do_write ≡ false)
        × (data_of r ≡ some u)
        × (r.was_read ≡ true)
        × (r.heap ≡ t.heap)
        × (r.do_write ≡ boosted u)
  unfolding write get_session session_set get_unique_key
  read-write n u s t at has active running unread going idle same there =
      let stored = get-set_same (name (get_unique_key (codes "userData") s)) (object n) s.store in
      let k : get_unique_key (codes "userData") t ≡ get_unique_key (codes "userData") s =
        rw same refl in
      let (stored_data, was_read', heap', do_write') =
        later n u t (Php.set (name (get_unique_key (codes "userData") s)) (object n) s.store) unread
          going idle (rw k stored) there in
      rw (running, has, at, active) (refl, stored_data, was_read', heap', do_write')

  -- So many calls of `read`, one after the other.
  unfoldable pub reads : ℕ → State → State
  reads zero s = s
  reads (suc n) s = reads n (read available headers_gone starts loaded boosted s)

  read_once :
      (s : State)
      → s.active ≡ true
      → s.was_read ≡ false
      → s.ended ≡ false
      → (s.has_session || available) ≡ true
      → let r = read available headers_gone starts loaded boosted s in
        (r.user_data ≡ none)
        × (r.active ≡ true)
        × (r.was_read ≡ false)
        × (r.ended ≡ false)
        × ((r.has_session || available) ≡ true)
  unfolding read get_session start
  read_once s active unread going has = elim (Bool-cases s.has_session) [
    | inl b ↦ ground (arith, active, unread, going, has, b)
    | inr b ↦ ground (arith, active, unread, going, has, b)
  ]

  auth-none :
      (hash : Bytes → ℤ) (role : Val) (s : State)
      → (read available headers_gone starts loaded boosted s).user_data ≡ none
      → (auth available headers_gone starts loaded boosted hash role s).1 ≡ none
  unfolding auth
  auth-none hash role s gone = rw (auth, gone) refl

  -- In a session that PHP has started already, that has not been read or ended, and whose service is known or can
  -- be had: however often it is read, it counts as not read and has no user data, and a question for a role is
  -- then put to no object.
  pub read_active :
      (n : ℕ) (hash : Bytes → ℤ) (role : Val) (s : State)
      → s.active ≡ true
      → s.was_read ≡ false
      → s.ended ≡ false
      → (s.has_session || available) ≡ true
      → let r = reads (suc n) s in
        (r.user_data ≡ none)
        × (r.was_read ≡ false)
        × ((auth available headers_gone starts loaded boosted hash role r).1 ≡ none)
  unfolding reads
  read_active zero hash role s active unread going has =
      let (gone, active', unread', going', has') = read_once s active unread going has in
      let again =
        read_once (read available headers_gone starts loaded boosted s) active' unread' going'
          has' in
      (
        gone,
        unread',
        auth-none hash role (read available headers_gone starts loaded boosted s) again.0,
      )
  read_active (suc n) hash role s active unread going has =
      let (gone, active', unread', going', has') = read_once s active unread going has in
      read_active n hash role (read available headers_gone starts loaded boosted s) active' unread'
        going' has'

  -- `nullify` of a session whose data has been read and is `u` ends it: no session is left, PHP's is no longer
  -- active and, if there was one, its stored values are gone. The data keeps its messages; where the session
  -- was not empty, it has no keys and the role of a guest alone, else its keys and roles stay. Another
  -- `read` changes nothing.
  pub nullify_ends :
      (n : ℕ) (u : UserData) (s : State)
      → s.user_data ≡ some n
      → get_elem? s.heap n ≡ some u
      → s.was_read ≡ true
      → (s' : State) × (nullify available headers_gone starts loaded boosted s ≡ some s')
        × (s'.ended ≡ true)
        × (s'.has_session ≡ false)
        × (s'.active ≡ false)
        × (s'.store ≡ (if s.has_session && s.active then empty else s.store))
        × (read available headers_gone starts loaded boosted s' ≡ s')
        × (u' : UserData) × (data_of s' ≡ some u')
        × (u'.flash ≡ u.flash)
        × (u'.keys ≡ (if is_empty s then u.keys else empty))
        × (u'.roles ≡ (if is_empty s then u.roles else entry (index 0) (str (codes "Guest")) empty))
  unfolding nullify read session_destroy
  nullify_ends n u s at there was = elim (Bool-cases (is_empty s)) [
    | inl bare ↦
        let s1 = if s.has_session then session_destroy s else s in
        (
          record s1 { has_session = false; active = false; ended = true },
          ground (arith, was, bare),
          refl,
          refl,
          refl,
          ground arith,
          ground (arith, was),
          u,
          ground (arith, at, there),
          refl,
          ground (arith, bare),
          ground (arith, bare),
        )
    | inr full ↦
        let s0 = record s { do_write = true; heap = guested n s.heap } in
        let s1 = if s.has_session then session_destroy s0 else s0 in
        (
          record s1 { has_session = false; active = false; ended = true },
          ground (arith, at, full, was, wipe_lem n s at),
          refl,
          refl,
          refl,
          ground arith,
          ground (arith, was),
          as_user (codes "Guest") guest_roles (as_wiped u),
          ground (
            arith,
            at,
            get_elem?-updated (as_user (codes "Guest") guest_roles) n (updated as_wiped n s.heap)
                (as_wiped u) (get_elem?-updated as_wiped n s.heap u there),
          ),
          refl,
          ground (arith, full),
          ground (arith, full),
        )
  ]
