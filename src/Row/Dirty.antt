-- ===== src/Row/Dirty.antt =====
-- The two ways in which src/wcd/irow.cpp asks for changed columns agree.
use zpp_cpp.Common.{◌≡◌, refl, ap, Bool, true, false, ◌||◌, [], ltb, arith, Bool-cases, inl, inr}
use zpp_cpp.Php.{Key, Val, Arr, empty, entry, get, size, has_key}
use zpp_cpp.Php.Arrays.{key_equal_iff}
use zpp_cpp.Php.Lists.{push_back, size-push_back}
use zpp_cpp.Row.{Row, changed, dirty_loop, any_changed, get_dirty, is_dirty, set_exists, key_val}

module _ (same_other : Val → Val → Bool) where
  size-dirty_loop :
      (a original dirty : Arr)
      → ltb 0 (size (dirty_loop same_other false a original dirty))
        ≡ (ltb 0 (size dirty) || any_changed same_other false a original)
  unfolding dirty_loop any_changed
  size-dirty_loop empty original dirty = ground arith
  size-dirty_loop (entry k v r) original dirty = ground (
    arith,
    size-push_back (key_val k) dirty,
    size-dirty_loop r original dirty,
    size-dirty_loop r original (push_back (key_val k) dirty),
  )

  -- In one table nothing has changed.
  unchanged :
      (a b : Arr)
      → ((k : Key) → has_key k a ≡ true → has_key k b ≡ true)
      → any_changed same_other true a b ≡ false
  unfolding any_changed has_key get changed
  unchanged empty b h = refl
  unchanged (entry k v r) b h =
      ground (arith, h k, key_equal_iff k k, unchanged r b (λ j there. ground (arith, there, h j)))

  any_changed-empty : (a : Arr) → any_changed same_other false a empty ≡ ltb 0 (size a)
  unfolding any_changed get changed size
  any_changed-empty empty = refl
  any_changed-empty (entry k v r) = ground arith

  any_changed-nil : (b : Arr) → any_changed same_other false empty b ≡ false
  unfolding any_changed
  any_changed-nil b = refl

  module _ (same_table : Arr → Arr → Bool) where
    by_arrays :
        (values original : Arr)
        → same_table original values ≡ false
        → is_dirty same_other same_table [] (record { values = values; original = original })
          ≡ ltb 0 (
              size
                (get_dirty same_other same_table (record { values = values; original = original })))
    unfolding is_dirty get_dirty size
    by_arrays empty original other =
        ground (arith, other, size-dirty_loop empty original empty, any_changed-nil original)
    by_arrays (entry k v r) empty other =
        ground
          (arith, other, size-dirty_loop (entry k v r) empty empty, any_changed-empty (entry k v r))
    by_arrays (entry k v r) (entry j w s) other =
        ground (arith, other, size-dirty_loop (entry k v r) (entry j w s) empty)

    -- Where arrays that are one table are equal, `isDirty` without a column says yes exactly where the list
    -- of `getDirty` has an entry.
    pub is_dirty-get_dirty :
        (r : Row)
        → ((a b : Arr) → same_table a b ≡ true → a ≡ b)
        → is_dirty same_other same_table [] r ≡ ltb 0 (size (get_dirty same_other same_table r))
    unfolding is_dirty get_dirty size
    is_dirty-get_dirty r one = elim (Bool-cases (same_table r.original r.values)) [
      | inl same ↦
          let none_changed : any_changed same_other true r.values r.original ≡ false =
            rw (one r.original r.values same) (unchanged r.values r.values (λ k there. there)) in
          ground (arith, same, none_changed, ap size (one r.original r.values same))
      | inr other ↦ by_arrays r.values r.original other
    ]

    -- Where an array is one table with itself, a row has no changed column after `setExists`.
    pub get_dirty-set_exists :
        (r : Row)
        → ((a : Arr) → same_table a a ≡ true)
        → get_dirty same_other same_table (set_exists r) ≡ empty
    unfolding get_dirty set_exists
    get_dirty-set_exists r one = ground (arith, one r.values)
