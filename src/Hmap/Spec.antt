-- ===== src/Hmap/Spec.antt =====
-- An `Hmap` as a finite map: the operations, one after the other, against a function from keys to values.
use zpp_cpp.Common.{◌≡◌, refl, List, [], ◌∷◌, Option, none, some, if◌then◌else◌, Bytes, arith}
use zpp_cpp.Php
use zpp_cpp.Php.{Key, name, index, Val, Arr, empty, entry, key_equal}
use zpp_cpp.Php.Arrays.{get-set}
use zpp_cpp.Php.Lists
use zpp_cpp.Php.Lists.{key_of}
use zpp_cpp.Php.Removal.{IsMap, set-IsMap}
use zpp_cpp.Hmap
use zpp_cpp.Hmap.{Hmap, array_of}

-- The value under a key.
abbrev pub view : Hmap → Key → Option Val
view h k = Php.get k (array_of h.values)

-- The operations that change an `Hmap`: by the property of an object, by the offset of an array, and as a
-- whole: `construct`, `assign` with `unserialize`, `addArray` and `clear`.
pub data Op : Type 0 where
  set_property : Bytes → Val → Op
  unset_property : Bytes → Op
  set_offset : Val → Val → Op
  unset_offset : Val → Op
  construct_from assign_all : Option Arr → Op
  add_entries : Arr → Op
  clear : Op

unfoldable pub run : Op → Hmap → Option Hmap
run (set_property n v) h = some (Hmap.set n v h)
run (unset_property n) h = some (Hmap.unset n h)
run (set_offset k v) h = some (Hmap.write_dimension k v h)
run (unset_offset k) h = some (Hmap.unset_dimension k h)
run (construct_from a) h = some (Hmap.construct a h)
run (assign_all a) h = some (Hmap.assign a h)
run (add_entries list) h = Hmap.add_array list h
run clear h = some (Hmap.clear h)

unfoldable pub run_all : List Op → Hmap → Option Hmap
unfolding run
run_all [] h = some h
run_all (op ∷ ops) h = elim (run op h) [ none ↦ none | some h' ↦ run_all ops h' ]

-- An array that is given has no key twice, as all of PHP's have, and one that is added has only text keys.
abbrev pub HasNames : Arr → Type 0
HasNames empty = Unit
HasNames (entry (name n) v r) = HasNames r
HasNames (entry (index i) v r) = ⊥

abbrev pub IsGood : Op → Type 0
IsGood (construct_from (some a)) = IsMap a
IsGood (assign_all (some a)) = IsMap a
IsGood (add_entries list) = HasNames list
IsGood _ = Unit

-- The same operations on functions.
abbrev put : Option Key → Option Val → (Key → Option Val) → Key → Option Val
put none v m j = m j
put (some k) v m j = if key_equal k j then v else m j

abbrev pub found_in : Option Arr → Key → Option Val
found_in none j = none
found_in (some a) j = Php.get j a

unfoldable put_all : Arr → (Key → Option Val) → Key → Option Val
put_all empty m = m
put_all (entry k v r) m = put_all r (put (some k) (some v) m)

unfoldable pub meant : Op → (Key → Option Val) → Key → Option Val
unfolding put_all
meant (set_property n v) m = put (some (name n)) (some v) m
meant (unset_property n) m = put (some (name n)) none m
meant (set_offset k v) m = put (key_of k) (some v) m
meant (unset_offset k) m = put (key_of k) none m
meant (construct_from a) m = found_in a
meant (assign_all a) m = found_in a
meant (add_entries list) m = put_all list m
meant clear m = λ j. none

unfoldable pub meant_all : List Op → (Key → Option Val) → Key → Option Val
unfolding meant
meant_all [] m = m
meant_all (op ∷ ops) m = meant_all ops (meant op m)

-- The map of an `Hmap` is a function, up to equal values at every key.
abbrev Refines : Hmap → (Key → Option Val) → Type 0
Refines h m = IsMap (array_of h.values) × ((j : Key) → view h j ≡ m j)

add_loop-Refines :
    (list a : Arr) (m : Key → Option Val)
    → HasNames list
    → IsMap a × ((j : Key) → Php.get j a ≡ m j)
    → (a' : Arr) × (Hmap.add_loop list a ≡ some a')
      × IsMap a'
      × ((j : Key) → Php.get j a' ≡ put_all list m j)
unfolding Hmap.add_loop put_all
add_loop-Refines empty a m good (map, same) = (a, refl, map, same)
add_loop-Refines (entry (index i) v r) a m good (map, same) = elim good [ ]
add_loop-Refines (entry (name n) v r) a m good (map, same) =
    add_loop-Refines r (Php.set (name n) v a) (put (some (name n)) (some v) m) good
      (set-IsMap (name n) v a map, λ j. ground (arith, get-set (name n) j v a, same j))
