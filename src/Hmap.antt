-- ===== src/Hmap.antt =====
-- src/wcc/hmap.cpp: the `Hmap` object, an array with the access of an object and of an array, and its
-- iterator. The array is null after `clear`; the handlers of the engine and the methods share it.
pub mod HtabWalk
pub mod Iterator
pub mod Walk
pub mod Spec
use zpp_cpp.Common.{
  ℕ, ◌+◌, Bool, true, false, List, [], ◌∷◌, Option, none, some, ltb, ◌==◌, if◌then◌else◌, Bytes,
}
use zpp_cpp.Php
use zpp_cpp.Php.{Key, name, index, Val, null, Arr, empty, entry}
use zpp_cpp.Php.Lists.{key_of}
use zpp_cpp.Php.Lists
use zpp_cpp.Marks.{Mark}
use zpp_cpp.Marks

pub record Hmap : Type 0 where
  pub values : Option Arr

-- `Hmap::Hmap` and `Hmap::new_hmap`
abbrev pub new_hmap : Hmap
new_hmap = record { values = some empty }

-- `Hmap::construct` and `Hmap::newFromArray`; a null array is none.
unfoldable pub construct : Option Arr → Hmap → Hmap
construct none h = record h { values = some empty }
construct (some a) h = record h { values = some (if ltb 0 (Php.size a) then a else empty) }

abbrev pub array_of : Option Arr → Arr
array_of none = empty
array_of (some a) = a

abbrev pub or_null : Option Val → Val
or_null none = null
or_null (some v) = v

-- `Hmap::get` for a text, and for a value as the key; what is not there is null. `read_property`,
-- `get_property_ptr_ptr` and `read_dimension` look in the same array.
unfoldable pub get : Bytes → Hmap → Val
get n h = or_null (Php.get (name n) (array_of h.values))

unfoldable pub read_dimension : Val → Hmap → Option Val
read_dimension offset h = elim (key_of offset) [
  | none ↦ none
  | some k ↦ Php.get k (array_of h.values)
]

unfoldable pub get_val : Val → Hmap → Val
unfolding read_dimension
get_val key h = or_null (read_dimension key h)

unfoldable pub read_property : Bytes → Hmap → Option Val
read_property n h = Php.get (name n) (array_of h.values)

-- `Hmap::getOrNot`: without an array the result is null, and not the default.
unfoldable pub get_or_not : Bytes → Val → Hmap → Val
get_or_not n ifnot h = elim h.values [
  | none ↦ null
  | some a ↦ elim (Php.get (name n) a) [ none ↦ ifnot | some v ↦ v ]
]

-- `Hmap::has` and `has_property`
unfoldable pub has : Bytes → Hmap → Bool
has n h = Php.has_key (name n) (array_of h.values)

-- `has_dimension`: the value is not asked whether it is empty, since both ways return 1.
unfoldable pub has_dimension : Val → Bool → Hmap → Bool
unfolding read_dimension
has_dimension offset check_empty h = elim (read_dimension offset h) [ none ↦ false | some v ↦ true ]

-- `Hmap::set` for a text and `write_property`
unfoldable pub set : Bytes → Val → Hmap → Hmap
set n v h = record h { values = some (Php.set (name n) v (array_of h.values)) }

-- `Hmap::set` for a value as the key, and `write_dimension`: another kind of key is passed over.
unfoldable pub write_dimension : Val → Val → Hmap → Hmap
write_dimension offset v h = elim (key_of offset) [
  | none ↦ record h { values = some (array_of h.values) }
  | some k ↦ record h { values = some (Php.set k v (array_of h.values)) }
]

-- `Hmap::unset` and `unset_property`
unfoldable pub unset : Bytes → Hmap → Hmap
unset n h = record h { values = some (Lists.unset (name n) (array_of h.values)) }

unfoldable pub unset_dimension : Val → Hmap → Hmap
unset_dimension offset h = elim (key_of offset) [
  | none ↦ record h { values = some (array_of h.values) }
  | some k ↦ record h { values = some (Lists.unset k (array_of h.values)) }
]

-- `Hmap::subsetkey`
unfoldable pub subsetkey : Bytes → Hmap → Arr
unfolding get
subsetkey n h = Php.set (name n) (get n h) empty

-- The loop of `Hmap::subset` over the list of keys.
unfoldable pub subset_loop : Arr → Hmap → Arr → Arr
unfolding get_val
subset_loop empty h result = result
subset_loop (entry i v r) h result = elim (key_of v) [
  | none ↦ subset_loop r h result
  | some k ↦ subset_loop r h (Php.set k (get_val v h) result)
]

unfoldable pub subset : Arr → Hmap → Arr
unfolding subset_loop
subset list h = subset_loop list h empty

-- The loop of `Hmap::addArray`; `none` is an entry with an index, whose text key is a null pointer.
unfoldable pub add_loop : Arr → Arr → Option Arr
add_loop empty a = some a
add_loop (entry (name n) v r) a = add_loop r (Php.set (name n) v a)
add_loop (entry (index i) v r) a = none

unfoldable pub add_array : Arr → Hmap → Option Hmap
unfolding add_loop
add_array list h = elim (add_loop list (array_of h.values)) [
  | none ↦ none
  | some a ↦ some (record h { values = some a })
]

-- `Hmap::assign` and `Hmap::unserialize`; `Hmap::toArray` and `Hmap::serialize`
unfoldable pub assign : Option Arr → Hmap → Hmap
assign a h = record h { values = a }

unfoldable pub to_array : Hmap → Option Arr
to_array h = h.values

-- `Hmap::count`
unfoldable pub count : Hmap → ℕ
count h = Php.size (array_of h.values)

-- `Hmap::clear`
unfoldable pub clear : Hmap → Hmap
clear h = record h { values = none }

-- `Hmap::unhive`
unfoldable pub unhive : (Bytes → List Mark) → Hmap → Bytes → Option Bytes
unhive matches h subj = Marks.unhive matches (array_of h.values) subj
