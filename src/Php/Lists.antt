-- ===== src/Php/Lists.antt =====
-- Arrays as lists, and the removal of entries: `push_back`, `unset` and `removal` of
-- src/zpp/htab_cow.cxx, `is_list`, `slice` and `value_index` of htab_ptr.cxx.
use zpp_cpp.Common.{
  ℕ, ◌+◌, ◌-◌, ◌%◌, ltb, ℤ, pos, negsuc, ◌≤◌, ◌<◌, ◌≡◌, refl, Bool, true, false, ◌&&◌, Option, none,
  some, leb, ◌==◌, if◌then◌else◌, Bytes, arith,
}
use zpp_cpp.StrPtr.{zs_cmp, is_zero}
use zpp_cpp.Php.{
  Key, name, index, Val, long, str, Arr, empty, entry, key_equal, get, set, has_key, size,
}
use zpp_cpp.Php.Arrays.{get-set, size-set, key_equal_iff}

-- One more than the greatest index. The engine keeps this number, and keeps it where the entry of the
-- greatest index is removed.
unfoldable pub next_index : Arr → ℕ
next_index empty = 0
next_index (entry (name s) v r) = next_index r
next_index (entry (index i) v r) = let rest = next_index r in if leb rest i then i + 1 else rest

-- `htab_cow::push_back`
unfoldable pub push_back : Val → Arr → Arr
push_back v a = set (index (next_index a)) v a

-- `htab_cow::unset`
unfoldable pub unset : Key → Arr → Arr
unset k empty = empty
unset k (entry j v r) = let rest = unset k r in if key_equal j k then r else entry j v rest

-- The value as a key: `htab_ptr::get` and `htab_cow::unset` of another kind of value find nothing.
abbrev pub key_of : Val → Option Key
key_of (long n) = some (index n)
key_of (str s) = some (name s)
key_of _ = none

-- `htab_cow::removal`, which also passes over a key that is not there
unfoldable pub removal : Arr → Arr → Arr
removal empty a = a
removal (entry i v r) a = elim (key_of v) [
  | none ↦ removal r a
  | some k ↦ removal r (if has_key k a then unset k a else a)
]

-- The loop of `htab_ptr::is_list`
unfoldable pub is_list_from : ℕ → Arr → Bool
is_list_from n empty = true
is_list_from n (entry (name s) v r) = false
is_list_from n (entry (index i) v r) = n == i && is_list_from (n + 1) r

unfoldable pub is_list : Arr → Bool
is_list a = is_list_from 0 a

-- A number as an `int` of 32 bits
unfoldable pub as_int : ℕ → ℤ
as_int i =
    if ltb (i % 4294967296) 2147483648
    then pos (i % 4294967296)
    else negsuc (4294967295 - i % 4294967296)

-- `htab_ptr::value_index`: the number of the bucket, as an `int`, or -1. For a text key it is the hash of
-- the text, which `hash` gives as an `int`.
unfoldable pub value_index : (Bytes → ℤ) → Bytes → Arr → ℤ
unfolding as_int
value_index hash s empty = negsuc 0
value_index hash s (entry k (str t) r) =
    let later = value_index hash s r in
    if is_zero (zs_cmp (some t) (some s))
    then elim k [ name n ↦ hash n | index i ↦ as_int i ]
    else later
value_index hash s (entry k v r) = value_index hash s r

no_later_index : (a : Arr) (i : ℕ) → next_index a ≤ i → get (index i) a ≡ none
unfolding next_index get key_equal
no_later_index empty i h = refl
no_later_index (entry (name s) v r) i h = ground (arith, no_later_index r i, h)
no_later_index (entry (index j) v r) i h = ground (arith, no_later_index r i, h)

-- A pushed value stands under a new index, and all else is where it was.
pub get-push_back :
    (v : Val) (a : Arr) (j : Key)
    → (get (index (next_index a)) a ≡ none)
      × (get j (push_back v a) ≡ (if key_equal (index (next_index a)) j then some v else get j a))
unfolding push_back
get-push_back v a j =
    (no_later_index a (next_index a) (omega arith), get-set (index (next_index a)) j v a)

pub size-push_back : (v : Val) (a : Arr) → size (push_back v a) ≡ size a + 1
unfolding push_back has_key
size-push_back v a =
    ground
      (arith, size-set (index (next_index a)) v a, no_later_index a (next_index a) (omega arith))

list_next_index :
    (n : ℕ) (a : Arr) → is_list_from n a ≡ true → 0 < size a → next_index a ≡ n + size a
unfolding is_list_from next_index size
list_next_index n empty h some_there = absurd (omega (arith, some_there))
list_next_index n (entry (name s) v r) h some_there = ground (arith, h)
list_next_index n (entry (index i) v empty) h some_there = ground (arith, h)
list_next_index n (entry (index i) v (entry k w r)) h some_there =
    ground (arith, h, list_next_index (n + 1) (entry k w r))

is_list_from-set :
    (n m : ℕ) (v : Val) (a : Arr)
    → is_list_from n a ≡ true
    → m ≡ n + size a
    → is_list_from n (set (index m) v a) ≡ true
unfolding is_list_from set size key_equal
is_list_from-set n m v empty h e = ground (arith, e)
is_list_from-set n m v (entry (name s) w r) h e = ground (arith, h)
is_list_from-set n m v (entry (index i) w r) h e =
    ground (arith, h, e, is_list_from-set (n + 1) m v r)

list_next : (a : Arr) → is_list a ≡ true → next_index a ≡ size a
unfolding is_list next_index size
list_next empty h = refl
list_next (entry k v r) h = ground (arith, list_next_index 0 (entry k v r) h (omega arith))

-- A list that a value is pushed to is a list, one longer, with the value at its end.
pub push_back-is_list :
    (v : Val) (a : Arr)
    → is_list a ≡ true
    → (is_list (push_back v a) ≡ true)
      × (size (push_back v a) ≡ size a + 1)
      × (get (index (size a)) (push_back v a) ≡ some v)
unfolding is_list push_back
push_back-is_list v a h = (
  is_list_from-set 0 (next_index a) v a h (omega (arith, list_next a h)),
  size-push_back v a,
  rw (← list_next a h) (
      ground (
        arith,
        (get-push_back v a (index (next_index a))).1,
        key_equal_iff (index (next_index a)) (index (next_index a)),
      )),
)

pub push_back_before :
    (v : Val) (a : Arr) (i : ℕ)
    → is_list a ≡ true
    → i < size a
    → get (index i) (push_back v a) ≡ get (index i) a
push_back_before v a i h small =
    let next = list_next a h in
    ground (
      arith,
      next,
      small,
      (get-push_back v a (index i)).1,
      key_equal_iff (index (next_index a)) (index i),
    )
