-- ===== src/Response/Status.antt =====
-- The status line of src/wcc/global_response.cpp: what `setStatusCode` leaves of the headers.
use zpp_cpp.Common.{
  ℕ, ◌≡◌, refl, ap, sym, Bool, true, false, ◌&&◌, ◌||◌, none, some, Bytes, codes, ◌++◌,
  if◌then◌else◌, arith,
}
use zpp_cpp.Php.{Key, name, index, Val, null, str, Arr, empty, entry, key_equal, get, has_key, set}
use zpp_cpp.Php.Arrays.{get-set, key_equal_iff}
use zpp_cpp.Php.Lists.{push_back, next_index, removal, get-push_back, key_of}
use zpp_cpp.Php.Removal.{IsMap, set-IsMap, lists_key, is_key, get-removal}
use zpp_cpp.StrPtr.{contains}
use zpp_cpp.Response.Headers.{Response, http_prefix, status_key}
use zpp_cpp.Response.StatusLine.{status_keys, set_status_code, status_of, message_for}

lists_key-set :
    (k j : Key) (v : Val) (a : Arr)
    → get k a ≡ none
    → lists_key (set k v a) j ≡ (lists_key a j || is_key (key_of v) j)
unfolding get set
lists_key-set k j v empty h = ground arith
lists_key-set k j v (entry i w r) h = ground (arith, h, lists_key-set k j v r)

lists_key-push_back :
    (j : Key) (v : Val) (a : Arr)
    → lists_key (push_back v a) j ≡ (lists_key a j || is_key (key_of v) j)
unfolding push_back
lists_key-push_back j v a = lists_key-set (index (next_index a)) j v a (get-push_back v a j).0

abbrev is_status : Key → Bool
is_status (name k) = contains (some k) http_prefix
is_status (index i) = false

same_status :
    (k : Bytes) (j : Key)
    → key_equal (name k) j ≡ true
    → is_status j ≡ contains (some k) http_prefix
same_status k j same = ap is_status (sym ((key_equal_iff (name k) j).0 same))

lists_key-status_keys :
    (j : Key) (a keys : Arr)
    → lists_key (status_keys a keys) j ≡ (lists_key keys j || (has_key j a && is_status j))
unfolding status_keys has_key get
lists_key-status_keys j empty keys = ground arith
lists_key-status_keys j (entry (index i) v r) keys =
    ground (arith, key_equal_iff (index i) j, lists_key-status_keys j r keys)
lists_key-status_keys j (entry (name k) v r) keys = ground (
  arith,
  same_status k j,
  lists_key-push_back j (str k) keys,
  lists_key-status_keys j r keys,
  lists_key-status_keys j r (push_back (str k) keys),
)

get-cleared :
    (j : Key) (a : Arr)
    → IsMap a
    → get j (removal (status_keys a empty) a) ≡ (if is_status j then none else get j a)
unfolding has_key
get-cleared j a h =
    ground (arith, (get-removal (status_keys a empty) a h).1 j, lists_key-status_keys j a empty)

-- Where no header stands twice, and a message is given or the code has one, `setStatusCode` does not throw;
-- afterwards the status line stands among the headers, with no value, "Status" is the code and
-- the message, every other header in whose name "HTTP/" stands is gone, and all others are as before.
pub get-set_status_code :
    (print_int : ℕ → Bytes) (code : ℕ) (message msg : Bytes) (r : Response) (j : Key)
    → IsMap r.headers
    → message_for print_int code message ≡ some msg
    → let (r', thrown) = set_status_code print_int code message r in
      (thrown ≡ false)
      × (get j r'.headers ≡ (
          if key_equal status_key j
          then some (str (status_of print_int code msg))
          else (if key_equal (name (codes "HTTP/1.1 " ++ status_of print_int code msg)) j
              then some null
              else (if is_status j then none else get j r.headers))))
      × (IsMap r'.headers)
unfolding set_status_code
get-set_status_code print_int code message msg r j map there =
    let cleared = removal (status_keys r.headers empty) r.headers in
    let line = name (codes "HTTP/1.1 " ++ status_of print_int code msg) in
    let status = str (status_of print_int code msg) in
    rw (there, set_status_code)
      (
        refl,
        ground (
          arith,
          get-set status_key j status (set line null cleared),
          get-set line j null cleared,
          get-cleared j r.headers map,
        ),
        set-IsMap status_key status (set line null cleared) (
            set-IsMap line null cleared
              (get-removal (status_keys r.headers empty) r.headers map).0),
      )
