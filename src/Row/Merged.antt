-- ===== src/Row/Merged.antt =====
-- What `mergeData` of src/wcd/irow.cpp makes of a row.
use zpp_cpp.Common.{
  ◌≡◌, refl, ◌++◌, true, false, not, ◌&&◌, List, [], ◌∷◌, Option, none, some, ltb, ◌==◌, length,
  length-append, Bytes, lookup, equal, equal_iff, arith, Bool-cases, inl, inr,
}
use zpp_cpp.Php.{name, Val, Arr, get, set, size, has_key, key_equal}
use zpp_cpp.Php.Arrays.{get-set}
use zpp_cpp.Row.{Row, merge_loop, merge_data}

-- The columns have no name that stands twice, and the model has all of them, or no columns.
abbrev pub IsKnown : Arr → List (Bytes × Val) → Type 0
IsKnown defs [] = Unit
IsKnown defs ((k, v) ∷ attrs) =
    (lookup k attrs ≡ none)
    × ((ltb 0 (size defs) && not (has_key (name k) defs)) ≡ false)
    × IsKnown defs attrs

abbrev pub merged : Option Val → Option Val → Option Val
merged none w = w
merged (some v) w = some v

merge_loop-merged :
    (defs : Arr) (attrs : List (Bytes × Val)) (r : Row) (j : Bytes)
    → IsKnown defs attrs
    → ((merge_loop defs attrs r).1 ≡ false)
      × (get (name j) (merge_loop defs attrs r).0.values
          ≡ merged (lookup j attrs) (get (name j) r.values))
      × ((merge_loop defs attrs r).0.original ≡ r.original)
unfolding merge_loop lookup key_equal
merge_loop-merged defs [] r j h = (refl, refl, refl)
merge_loop-merged defs ((k, v) ∷ attrs) r j h =
    let r1 : Row = record r { values = set (name k) v r.values } in
    let (fine, gets, kept) = merge_loop-merged defs attrs r1 j h.2 in
    let here = get-set (name k) (name j) v r.values in
    rw h.1 (
      fine,
      elim (Bool-cases (equal k j)) [
        | inl same ↦
            let gone : lookup j attrs ≡ none = rw (← (equal_iff k j).0 same) h.0 in
            ground (arith, gets, same, gone, here)
        | inr other ↦ ground (arith, gets, other, here)
      ],
      kept,
    )

-- The columns are all known, or the model has none.
abbrev pub AllKnown : Arr → List (Bytes × Val) → Type 0
AllKnown defs [] = Unit
AllKnown defs ((k, v) ∷ attrs) =
    ((ltb 0 (size defs) && not (has_key (name k) defs)) ≡ false) × AllKnown defs attrs

merge_loop-append :
    (defs : Arr) (before : List (Bytes × Val)) (k : Bytes) (v : Val) (after : List (Bytes × Val))
    (r : Row)
    → AllKnown defs before
    → (ltb 0 (size defs) && not (has_key (name k) defs)) ≡ true
    → merge_loop defs (before ++ (k, v) ∷ after) r ≡ ((merge_loop defs before r).0, true)
unfolding merge_loop
merge_loop-append defs [] k v after r known bad = rw bad refl
merge_loop-append defs ((i, w) ∷ before) k v after r known bad = rw known.0 (
    merge_loop-append defs before k v after (record r { values = set (name i) w r.values }) known.1
      bad)

-- `mergeData` with columns of distinct names that the model has returns no error, gives each of them its value
-- and leaves every other column, and the values that the row was read with, as they were.
pub merge_data-merged :
    (defs : Arr) (k : Bytes) (v : Val) (attrs : List (Bytes × Val)) (r : Row) (j : Bytes)
    → IsKnown defs ((k, v) ∷ attrs)
    → let (r', error) = merge_data defs ((k, v) ∷ attrs) r in
      (error ≡ false)
      × (get (name j) r'.values ≡ merged (lookup j ((k, v) ∷ attrs)) (get (name j) r.values))
      × (r'.original ≡ r.original)
unfolding merge_data
merge_data-merged defs k v attrs r j known =
    let full : (length ((k, v) ∷ attrs) == 0) ≡ false = ground arith in
    rw (full, merge_data) (merge_loop-merged defs ((k, v) ∷ attrs) r j known)

-- At the first column that the model does not have, `mergeData` returns an error, and the columns before it
-- have been merged all the same.
pub merge_data-append :
    (defs : Arr) (before : List (Bytes × Val)) (k : Bytes) (v : Val) (after : List (Bytes × Val))
    (r : Row)
    → AllKnown defs before
    → (ltb 0 (size defs) && not (has_key (name k) defs)) ≡ true
    → merge_data defs (before ++ (k, v) ∷ after) r ≡ ((merge_loop defs before r).0, true)
unfolding merge_data
merge_data-append defs before k v after r known bad =
    let full : (length (before ++ (k, v) ∷ after) == 0) ≡ false =
      ground (arith, length-append before ((k, v) ∷ after)) in
    rw (full, merge_data) (merge_loop-append defs before k v after r known bad)
