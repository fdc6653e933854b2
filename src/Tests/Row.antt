-- ===== src/Tests/Row.antt =====
-- The theorems on rows at a concrete row.
use zpp_cpp.Common.{◌≡◌, refl, true, false, some, codes, [], ◌∷◌, ◌++◌, ltb, lookup}
use zpp_cpp.Php.{name, null, long, Arr, empty, entry, size, get, has_key, key_equal}
use zpp_cpp.Row.{Row, is_dirty, get_dirty, merge_data, merge_loop}
use zpp_cpp.Row.Dirty.{is_dirty-get_dirty}
use zpp_cpp.Row.Merged.{merge_data-merged, merge_data-append}

abbrev aged : Row
aged = record {
  values = entry (name (codes "age")) (long 31) empty;
  original = entry (name (codes "age")) (long 30) empty;
}

is_dirty-get_dirty_example :
    is_dirty (λ v w. true) (λ a b. false) [] aged
    ≡ ltb 0 (size (get_dirty (λ v w. true) (λ a b. false) aged))
is_dirty-get_dirty_example = is_dirty-get_dirty (λ v w. true) (λ a b. false) aged (λ a b h. cc)

abbrev defs : Arr
defs = entry (name (codes "age")) null empty

merge_data-merged_example :
    let (r', error) = merge_data defs ((codes "age", long 32) ∷ []) aged in
    (error ≡ false)
    × (get (name (codes "age")) r'.values ≡ some (long 32))
    × (r'.original ≡ entry (name (codes "age")) (long 30) empty)
unfolding has_key get key_equal lookup size
merge_data-merged_example =
    merge_data-merged defs (codes "age") (long 32) [] aged (codes "age") (refl, refl, tt)

merge_data-append_example :
    merge_data defs (((codes "age", long 32) ∷ []) ++ (codes "size", long 5) ∷ []) aged
    ≡ ((merge_loop defs ((codes "age", long 32) ∷ []) aged).0, true)
unfolding has_key get key_equal size
merge_data-append_example =
    merge_data-append defs ((codes "age", long 32) ∷ []) (codes "size") (long 5) [] aged (refl, tt)
      refl
