-- ===== src/Row.antt =====
-- src/wcd/irow.cpp: a row of a table, its values and those that it was read with, and
-- `val_ptr::same` of src/zpp/val_ptr.cpp. The names of the columns are texts. `same_table` says whether
-- two arrays are one table of the engine, and `same_other` compares what is stored for two values of
-- one type that are neither texts nor numbers. What the model of the row does is a parameter.
pub mod Dirty
pub mod Merged
use zpp_cpp.Common.{
  ℕ, ◌+◌, Bool, true, false, not, ◌&&◌, ◌||◌, List, [], ◌∷◌, Option, none, some, ltb, ◌==◌, length,
  if◌then◌else◌, Bytes,
}
use zpp_cpp.Php
use zpp_cpp.Php.{
  Key, name, index, Val, null, bool, long, str, arr, target_obj, callable, object, Arr, empty,
  entry,
}
use zpp_cpp.Php.Lists.{push_back, key_of}
use zpp_cpp.StrPtr.{zs_cmp, is_zero}
use zpp_cpp.Sql.Clauses.Others.{ok_val}

pub record Row : Type 0 where
  pub values : Arr
  pub original : Arr

abbrev pub new_row : Row
new_row = record { values = empty; original = empty }

-- `IRow::setData` and `construct`
unfoldable pub set_data : Arr → Bool → Row → Row
set_data a exists r =
    if ltb 0 (Php.size a)
    then record r { values = a; original = if exists then a else r.original }
    else record r { values = empty; original = if exists then empty else r.original }

-- `IRow::exists`, `setExists` and `copy`
unfoldable pub exists : Row → Bool
exists r = ltb 0 (Php.size r.original)

unfoldable pub set_exists : Row → Row
set_exists r = record r { original = r.values }

unfoldable pub copy : Row → Row → Row
copy from r = record r { values = from.values; original = from.original }

-- `IRow::hasValue`
unfoldable pub has_value : Bytes → Row → Bool
has_value k r = elim (Php.get (name k) r.values) [ none ↦ false | some v ↦ ok_val v ]

-- The loop of `htab_rc::subset`, with what is missing as null; another kind of key is passed over.
unfoldable pub subset_loop : Arr → Arr → Arr → Arr
subset_loop empty from result = result
subset_loop (entry i k r) from result = elim (key_of k) [
  | none ↦ subset_loop r from result
  | some n ↦ subset_loop r from (
      Php.set n (elim (Php.get n from) [ none ↦ null | some v ↦ if ok_val v then v else null ])
        result)
]

-- `IRow::getDataValues`
unfoldable pub get_data_values : Arr → Row → Arr
get_data_values list r =
    if ltb 0 (Php.size r.values) then subset_loop list r.values empty else empty

abbrev pub key_val : Key → Val
key_val (name s) = str s
key_val (index i) = long i

abbrev pub is_obj : Val → Bool
is_obj (target_obj c m p) = true
is_obj callable = true
is_obj (object n) = true
is_obj _ = false

-- The types of values that `same` compares
abbrev pub same_type : Val → Val → Bool
same_type null null = true
same_type (bool true) (bool true) = true
same_type (bool false) (bool false) = true
same_type (arr a) (arr b) = true
same_type (target_obj c m p) w = is_obj w
same_type callable w = is_obj w
same_type (object n) w = is_obj w
same_type _ _ = false

module _ (same_other : Val → Val → Bool) where
  -- `val_ptr::same` for two values at different places
  unfoldable pub same_val : Val → Val → Bool
  same_val (str s) (str t) = is_zero (zs_cmp (some s) (some t))
  same_val (long m) (long n) = m == n
  same_val v w = same_type v w && same_other v w

  -- `orig != dvalue`: in one table, a value is compared with itself or a copy of it, which is the same; a value
  -- that is not there is a null pointer.
  unfoldable pub changed : Bool → Option Val → Option Val → Bool
  changed one none none = false
  changed one none (some v) = true
  changed one (some v) none = true
  changed one (some v) (some w) = if one then false else not (same_val v w)

  -- The loop of `IRow::getDirty`
  unfoldable pub dirty_loop : Bool → Arr → Arr → Arr → Arr
  dirty_loop one empty original dirty = dirty
  dirty_loop one (entry k v r) original dirty =
      dirty_loop one r original
        (if changed one (Php.get k original) (some v) then push_back (key_val k) dirty else dirty)

  -- The loop of `IRow::isDirty`
  unfoldable pub any_changed : Bool → Arr → Arr → Bool
  any_changed one empty original = false
  any_changed one (entry k v r) original =
      changed one (Php.get k original) (some v) || any_changed one r original

  module _ (same_table : Arr → Arr → Bool) where
    -- `IRow::getDirty`
    unfoldable pub get_dirty : Row → Arr
    get_dirty r =
        if same_table r.original r.values then empty else dirty_loop false r.values r.original empty

    -- `IRow::isDirty`; without the name of a column it asks for all.
    unfoldable pub is_dirty : Bytes → Row → Bool
    is_dirty col r =
        let one = same_table r.original r.values in
        if Php.size r.values == 0
        then false
        else if Php.size r.original == 0
        then true
        else if ltb 0 (length col)
        then changed one (Php.get (name col) r.original) (Php.get (name col) r.values)
        else any_changed one r.values r.original

-- `IRow::mergeData`: the row, and whether there is an error; the values before it are kept. `defs` are the
-- columns that the model of the row has.
unfoldable pub merge_loop : Arr → List (Bytes × Val) → Row → Row × Bool
merge_loop defs [] r = (r, false)
merge_loop defs ((k, v) ∷ attrs) r =
    let rest = merge_loop defs attrs (record r { values = Php.set (name k) v r.values }) in
    if ltb 0 (Php.size defs) && not (Php.has_key (name k) defs) then (r, true) else rest

unfoldable pub merge_data : Arr → List (Bytes × Val) → Row → Row × Bool
merge_data defs attrs r = if length attrs == 0 then (r, true) else merge_loop defs attrs r

-- `IRow::stampTime`: the time columns that the model gives are merged.
unfoldable pub stamp_time : Arr → List (Bytes × Val) → Row → Row
stamp_time defs columns r = if ltb 0 (length columns) then (merge_data defs columns r).0 else r
