-- ===== src/Php/Removal.antt =====
-- The removal of entries, on arrays whose keys are distinct, as those of the engine are.
use zpp_cpp.Common.{
  ◌≡◌, refl, Bool, false, ◌||◌, Option, none, some, if◌then◌else◌, arith, Bool-cases, Option-cases,
  inl, inr,
}
use zpp_cpp.Php.{Key, Val, Arr, empty, entry, key_equal, get, set, has_key}
use zpp_cpp.Php.Arrays.{get-set, key_equal_iff}
use zpp_cpp.Php.Lists.{unset, removal, key_of}

-- No key stands twice.
abbrev pub IsMap : Arr → Type 0
IsMap empty = Unit
IsMap (entry k v r) = (get k r ≡ none) × IsMap r

pub get-unset :
    (k j : Key) (a : Arr) → IsMap a → get j (unset k a) ≡ (if key_equal k j then none else get j a)
unfolding get unset
get-unset k j empty h = ground arith
get-unset k j (entry i w r) h =
    ground
      (arith, h.0, key_equal_iff k j, key_equal_iff i k, key_equal_iff i j, get-unset k j r h.1)

pub unset-IsMap : (k : Key) (a : Arr) → IsMap a → IsMap (unset k a)
unfolding unset
unset-IsMap k empty h = tt
unset-IsMap k (entry i w r) h = elim (Bool-cases (key_equal i k)) [
  | inl same ↦ rw same h.1
  | inr other ↦ rw other (ground (arith, h.0, get-unset k i r h.1), unset-IsMap k r h.1)
]

pub set-IsMap : (k : Key) (v : Val) (a : Arr) → IsMap a → IsMap (set k v a)
unfolding set get
set-IsMap k v empty h = (refl, tt)
set-IsMap k v (entry i w r) h = elim (Bool-cases (key_equal i k)) [
  | inl same ↦ rw same h
  | inr other ↦ rw other (
    ground (arith, h.0, get-set k i v r, key_equal_iff k i, key_equal_iff i k, other),
    set-IsMap k v r h.1,
  )
]

-- The list has the key as a value.
abbrev pub is_key : Option Key → Key → Bool
is_key none j = false
is_key (some k) j = key_equal k j

abbrev pub lists_key : Arr → Key → Bool
lists_key empty j = false
lists_key (entry i v r) j = is_key (key_of v) j || lists_key r j

removed : (k : Key) (a : Arr) → IsMap a → IsMap (if has_key k a then unset k a else a)
removed k a h = elim (Bool-cases (has_key k a)) [
  | inl there ↦ rw there (unset-IsMap k a h)
  | inr missing ↦ rw missing h
]

get_removed :
    (k j : Key) (a : Arr)
    → IsMap a
    → get j (if has_key k a then unset k a else a) ≡ (if key_equal k j then none else get j a)
unfolding has_key
get_removed k j a h = ground (arith, get-unset k j a h, key_equal_iff k j)

-- `removal` takes away the entries whose keys the list has as values, and no other, and leaves an array
-- without a key that stands twice.
pub get-removal :
    (list a : Arr)
    → IsMap a
    → IsMap (removal list a)
      × ((j : Key) → get j (removal list a) ≡ (if lists_key list j then none else get j a))
unfolding removal
get-removal empty a h = (h, λ j. refl)
get-removal (entry i v r) a h = elim (Option-cases (key_of v)) [
  | inl e ↦ rw (e, removal) (get-removal r a h)
  | inr (k, e) ↦
      let b : Arr = if has_key k a then unset k a else a in
      let (map, gets) = get-removal r b (removed k a h) in
      rw (e, removal) (map, λ j. ground (arith, gets j, get_removed k j a h))
]
