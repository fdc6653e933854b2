-- ===== src/Hmap/Walk.antt =====
-- The iterator of an `Hmap`, the keys that `subset` takes, and what `addArray` adds.
use zpp_cpp.Common.{
  ◌+◌, ltb, true, ℕ, zero, suc, ◌<◌, ◌≡◌, refl, false, List, [], ◌∷◌, Option, none, some,
  if◌then◌else◌, arith, Option-cases, inl, inr,
}
use zpp_cpp.Php
use zpp_cpp.Php.{Key, name, index, Val, null, Arr, empty, entry, key_equal, size}
use zpp_cpp.Php.Arrays.{get-set, key_equal_iff}
use zpp_cpp.Php.Lists.{key_of}
use zpp_cpp.Php.Removal.{lists_key}
use zpp_cpp.Hmap.{Hmap, array_of, or_null, get_val, read_dimension, subset, subset_loop}
use zpp_cpp.Hmap.Iterator.{
  HmapIterator, create, it_valid, it_get_data, it_get_key, it_forward, it_rewind,
}
use zpp_cpp.Hmap.HtabWalk.{HtabWalk, entry_at, new_walk, invalid, getdata, next, start, rewind}

abbrev pub entries : Arr → List (Key × Val)
entries empty = []
entries (entry k v r) = (k, v) ∷ entries r

abbrev seen : Option Key → Val → List (Key × Val) → List (Key × Val)
seen (some k) v l = (k, v) ∷ l
seen none v l = l

-- What a `foreach` sees in at most so many rounds: the key and the value while the iterator is valid; with it
-- the iterator where it stops.
unfoldable pub walked : ℕ → HmapIterator → List (Key × Val) × HmapIterator
walked zero it = ([], it)
walked (suc n) it =
    let (later, last) = walked n (it_forward it) in
    if it_valid it then (seen (it_get_key it) (it_get_data it) later, last) else ([], it)

-- The walk along `all` at the place `i`, from where on there is the given rest of it.
abbrev stand : Arr → ℕ → Arr → HtabWalk
stand all i empty = invalid (record new_walk { wrap = some all })
stand all i (entry k v r) = record {
  wrap = some all;
  iterate = i;
  ok = true;
  key = some k;
  value = v;
}

abbrev IsRest : Arr → ℕ → Arr → Type 0
IsRest all i r = (size all ≡ i + size r) × ((j : ℕ) → entry_at (i + j) all ≡ entry_at j r)

getdata-stand :
    (all : Arr) (i : ℕ) (r : Arr) (key : Option Key) (value : Val)
    → entry_at i all ≡ entry_at 0 r
    → (getdata all (record { wrap = some all; iterate = i; ok = true; key = key; value = value })).0
      ≡ stand all i r
unfolding getdata invalid
getdata-stand all i empty key value h = rw (getdata, h) refl
getdata-stand all i (entry k v r) key value h = rw (getdata, h) refl

next-stand :
    (all : Arr) (i : ℕ) (k : Key) (v : Val) (r : Arr)
    → IsRest all i (entry k v r)
    → ((next (stand all i (entry k v r))).0 ≡ stand all (i + 1) r) × IsRest all (i + 1) r
unfolding next size
next-stand all i k v r (long_enough, same) =
    let inside : ltb i (size all) ≡ true = ground (arith, long_enough) in
    let here : entry_at (i + 1) all ≡ entry_at 0 r = same 1 in
    (
      rw inside (getdata-stand all (i + 1) r (some k) v here),
      (omega (arith, long_enough), λ j. rw (← next_place i j) (same (suc j))),
    )
  where
    next_place : (n m : ℕ) → n + suc m ≡ n + 1 + m
    next_place n m = omega arith

walked-stand :
    (n : ℕ) (all : Arr) (i : ℕ) (a : Arr)
    → IsRest all i a
    → size a < n
    → walked n (record { htab = some all; walk = stand all i a })
      ≡ (entries a, record { htab = some all; walk = stand all 0 empty })
unfolding walked it_forward it_valid it_get_key it_get_data size invalid
walked-stand zero all i a rest h = absurd (ground (arith, h))
walked-stand (suc n) all i empty rest h = refl
walked-stand (suc n) all i (entry k v r) rest h =
    let (steps, rest') = next-stand all i k v r rest in
    rw steps (rw (walked-stand n all (i + 1) r rest' (omega (arith, h))) refl)

start-stand : (a : Arr) (w : HtabWalk) → (start (some a) w).0 ≡ stand a 0 a
unfolding start getdata next invalid
start-stand empty w = refl
start-stand (entry k v r) w = refl

-- A `foreach` sees every entry once, in the order of the array, ends after as many rounds as there are entries,
-- and sees the same again after a rewind.
pub walked-create :
    (h : Hmap)
    → let (first, last) = walked (suc (size (array_of h.values))) (create h) in
      (first ≡ entries (array_of h.values))
      × (it_valid last ≡ false)
      × ((walked (suc (size (array_of h.values))) (it_rewind last)).0 ≡ first)
unfolding create it_rewind it_valid rewind invalid start walked size
walked-create h = elim (Option-cases h.values) [
  | inl none_there ↦ rw none_there (refl, refl, refl)
  | inr (a, there) ↦
      let whole : IsRest a 0 a = (omega arith, λ j. rw (from_start j) refl) in
      let all = walked-stand (suc (size a)) a 0 a whole (omega arith) in
      rw (there, start-stand a new_walk, all)
        (refl, refl, rw (start-stand a (stand a 0 empty), all) refl)
]
  where
    from_start : (j : ℕ) → 0 + j ≡ j
    from_start j = omega arith

get_val_lem :
    (v : Val) (h : Hmap) (k : Key)
    → key_of v ≡ some k
    → get_val v h ≡ or_null (Php.get k (array_of h.values))
unfolding get_val read_dimension
get_val_lem v h k e = rw (e, get_val, read_dimension) refl

get-subset_loop :
    (list result : Arr) (h : Hmap) (j : Key)
    → Php.get j (subset_loop list h result) ≡ (
        if lists_key list j
        then some (or_null (Php.get j (array_of h.values)))
        else Php.get j result)
unfolding subset_loop
get-subset_loop empty result h j = refl
get-subset_loop (entry i v r) result h j = elim (Option-cases (key_of v)) [
  | inl e ↦ rw (e, subset_loop) (get-subset_loop r result h j)
  | inr (k, e) ↦
      let here : get_val v h ≡ or_null (Php.get k (array_of h.values)) = get_val_lem v h k e in
      rw (e, subset_loop)
        (ground (
          arith,
          get-subset_loop r (Php.set k (get_val v h) result) h j,
          get-set k j (get_val v h) result,
          here,
          key_equal_iff k j,
        ))
]

-- `subset` has the keys that the list has as values, and no other, each with its value or, where
-- the map has none, with null.
pub get-subset :
    (list : Arr) (h : Hmap) (j : Key)
    → Php.get j (subset list h)
      ≡ (if lists_key list j then some (or_null (Php.get j (array_of h.values))) else none)
unfolding subset Php.get
get-subset list h j = get-subset_loop list empty h j
