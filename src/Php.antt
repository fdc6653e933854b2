-- ===== src/Php.antt =====
-- The PHP values that the router handles, and a PHP array as the list of its entries in the order of
-- iteration: `get`, `has_key` and `set` of src/zpp/htab_ptr.cxx and htab_cow.cxx. Reference counts
-- and copy on write are not modelled: an array is a value.
pub mod Arrays
pub mod Lists
pub mod Removal
pub mod Slice
use zpp_cpp.Common.{
  ℕ, suc, ◌+◌, Bool, true, false, ◌&&◌, List, [], ◌∷◌, Option, none, some, ◌==◌, if◌then◌else◌,
  Bytes, equal,
}

pub data Key : Type 0 where
  name : Bytes → Key
  index : ℕ → Key

-- `target_obj` is a `Target` object by its class, method and parameters, `callable` a closure or another
-- callable, `object` any other object.
mutual
  pub data Val : Type 0 where
    null : Val
    bool : Bool → Val
    long : ℕ → Val
    str : Bytes → Val
    arr : Arr → Val
    target_obj : Bytes → Bytes → Arr → Val
    callable : Val
    object : ℕ → Val

  pub data Arr : Type 0 where
    empty : Arr
    entry : Key → Val → Arr → Arr

unfoldable pub key_equal : Key → Key → Bool
unfolding equal
key_equal (name a) (name b) = equal a b
key_equal (index a) (index b) = a == b
key_equal (name a) (index b) = false
key_equal (index a) (name b) = false

-- `htab_ptr::get`
unfoldable pub get : Key → Arr → Option Val
unfolding key_equal
get k empty = none
get k (entry j v r) = if key_equal j k then some v else get k r

-- `htab_cow::set`: the entry keeps its place, and a new one goes to the end.
unfoldable pub set : Key → Val → Arr → Arr
unfolding key_equal
set k v empty = entry k v empty
set k v (entry j w r) = if key_equal j k then entry j v r else entry j w (set k v r)

unfoldable pub has_key : Key → Arr → Bool
has_key k a = elim (get k a) [ none ↦ false | some v ↦ true ]

-- `htab_ptr::size`
unfoldable pub size : Arr → ℕ
size empty = 0
size (entry k v r) = suc (size r)

-- `isString`, `isArray`, and `zstr`, which is null for what is no string (here the empty text).
abbrev pub text_of : Option Val → Bytes
text_of (some (str s)) = s
text_of _ = []

abbrev pub is_string : Option Val → Bool
is_string (some (str s)) = true
is_string _ = false
