-- ===== src/Sql/Clauses/Conditions.antt =====
-- The conditions of `Bindings` of src/wcd/bindings.cpp.
use zpp_cpp.Common.{
  ℕ, Bool, true, false, ◌&&◌, Option, none, some, ltb, ◌==◌, length, if◌then◌else◌, Bytes, codes,
}
use zpp_cpp.Php
use zpp_cpp.Php.{
  Key, name, index, Val, null, bool, long, str, arr, object, Arr, empty, entry, is_string, text_of,
}
use zpp_cpp.Sql.Clauses.Store.{sql_where, Clauses, add}

abbrev pub is_null : Val → Bool
is_null null = true
is_null _ = false

-- The entries of a condition, in the order in which `Bindings::where` sets them. A null value is replaced by
-- the text of the operator.
unfoldable pub condition : Val → Bytes → Val → Bytes → Arr
condition column op v logic = entry (name (codes "column")) column (
    entry (name (codes "value")) (if is_null v then str op else v) (
      entry (name (codes "operator")) (str (if is_null v then codes "=" else op)) (
        entry (name (codes "boolean")) (str (if length logic == 0 then codes "AND" else logic))
          (entry (name (codes "type")) (str (codes "basic")) empty))))

-- `Bindings::where`
unfoldable pub where_cond : Val → Bytes → Val → Bytes → Clauses → Option Clauses
where_cond column op v logic b = add sql_where (arr (condition column op v logic)) b

abbrev and_then : Option Clauses → (Clauses → Option Clauses) → Option Clauses
and_then none f = none
and_then (some b) f = f b

abbrev pub value_of : Key → Val
value_of (name s) = str s
value_of (index i) = long i

abbrev pub equals : Val → Val → Clauses → Option Clauses
equals column v b = where_cond column (codes "=") v (codes "AND") b

abbrev or_null : Option Val → Val
or_null none = null
or_null (some v) = v

-- The two loops of `Bindings::whereKeyValue`: over the values with their keys, and over the columns, whose
-- values are found by the number under which the column stands; a text key counts as 0.
unfoldable pub where_values : Arr → Clauses → Option Clauses
where_values empty b = some b
where_values (entry k v r) b = and_then (equals (value_of k) v b) (where_values r)

abbrev number_of : Key → ℕ
number_of (name s) = 0
number_of (index i) = i

unfoldable pub where_columns : Arr → Arr → Clauses → Option Clauses
where_columns empty values b = some b
where_columns (entry k column r) values b =
    and_then (equals column (or_null (Php.get (index (number_of k)) values)) b)
      (where_columns r values)

-- The result of `whereKeyValue`: the bindings, and whether there is an error.
abbrev unmatched : Clauses → Option (Clauses × Bool)
unmatched b = some (b, true)

abbrev matched : Option Clauses → Option (Clauses × Bool)
matched none = none
matched (some b) = some (b, false)

-- `Bindings::whereKeyValue`
unfoldable pub where_key_value : Val → Val → Clauses → Option (Clauses × Bool)
where_key_value (str s) (arr values) b = unmatched b
where_key_value (str s) v b = matched (equals (str s) v b)
where_key_value (arr keys) (arr values) b =
    if ltb 0 (Php.size keys) && Php.size keys == Php.size values
    then matched (
        if is_null (or_null (Php.get (index 0) values))
        then where_values values b
        else where_columns keys values b)
    else unmatched b
where_key_value k v b = unmatched b
