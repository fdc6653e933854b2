-- ===== src/Sql/Clauses/Others.antt =====
-- The other clauses of `Bindings` of src/wcd/bindings.cpp: orders, updates, limits, and names of columns.
use zpp_cpp.Common.{ℕ, Bool, true, false, [], ◌++◌, Option, none, some, if◌then◌else◌, Bytes, codes}
use zpp_cpp.Php
use zpp_cpp.Php.{
  Key, name, index, Val, null, bool, long, str, arr, object, Arr, empty, entry, is_string, text_of,
}
use zpp_cpp.Php.Lists
use zpp_cpp.Php.Lists.{push_back}
use zpp_cpp.Sql.Columns.{
  TableAttr, IColumns, TColumns, new_columns, Split, parts, whole, split_dot, int_max,
}
use zpp_cpp.Sql.Columns
use zpp_cpp.Sql.Clauses.Store.{sql_update, sql_order, sql_limit, Clauses, set, addarray, add}
use zpp_cpp.Sql.Clauses.Conditions.{value_of}

abbrev flagged : Bool → Bytes → Arr → Arr
flagged true n a = Php.set (name n) (bool true) a
flagged false n a = a

abbrev split_val : (TableAttr → Val) → Option Split → Option Val
split_val boxed none = none
split_val boxed (some (whole s)) = some (str s)
split_val boxed (some (parts ta)) = some (boxed ta)

-- The column of an order: a text with a dot is a column of a table, a new object, which `boxed` gives.
abbrev column_val : (TableAttr → Val) → Val → Option Val
column_val boxed (str s) = split_val boxed (split_dot s)
column_val boxed v = some v

-- `Bindings::orderBy`
unfoldable order_by : (TableAttr → Val) → Val → Bool → Bool → Clauses → Option Clauses
order_by boxed colspec descend nulls_last b = elim (column_val boxed colspec) [
  | none ↦ none
  | some column ↦
      add sql_order
        (arr (
          flagged nulls_last (codes "nulls_last")
            (flagged descend (codes "desc") (entry (name (codes "column")) column empty))))
        b
]

-- `Bindings::update`
unfoldable update : Bytes → Val → Clauses → Option Clauses
update column v b =
    addarray sql_update
      (entry (name (codes "column")) (str column) (entry (name (codes "value")) v empty)) b

-- `val_ptr::ok`
abbrev pub ok_val : Val → Bool
ok_val null = false
ok_val (bool false) = false
ok_val (str []) = false
ok_val (arr empty) = false
ok_val _ = true

-- `Bindings::limit`
unfoldable limit : Val → Val → Clauses → Clauses
limit count start b =
    let counted = entry (name (codes "limit")) count empty in
    set sql_limit
      (arr (if ok_val start then Php.set (name (codes "offset")) start counted else counted)) b

-- `Bindings::offset`; without an array of the limit, a null pointer is followed.
unfoldable offset : ℕ → Clauses → Option Clauses
offset n b = elim (Php.get (index sql_limit) b.entries) [
  | none ↦ none
  | some v ↦ elim v [
    | arr a ↦ some (set sql_limit (arr (Php.set (name (codes "offset")) (long n) a)) b)
    | _ ↦ none
  ]
]

-- `alias_str_key`, and the suffix of `columnAlias`
unfoldable alias_str_key : Option Bytes → Bytes
alias_str_key none = codes "__"
alias_str_key (some a) = codes "_" ++ (a ++ codes "_")

-- The loops of `Bindings::columnAlias`: the columns that it renames, by their new name, and the columns of the
-- table with the new names in them.
unfoldable rename_all : Bytes → Arr → Arr → IColumns → Arr × IColumns
rename_all sfx empty aliased c = (aliased, c)
rename_all sfx (entry k v r) aliased c =
    let n = text_of (some (value_of k)) in
    rename_all sfx r (Php.set (name (n ++ sfx)) (str n) aliased)
      (Columns.set_col_alias n (some (n ++ sfx)) c)

unfoldable rename_plain : Bytes → Arr → Arr → IColumns → Arr × IColumns
rename_plain sfx empty aliased c = (aliased, c)
rename_plain sfx (entry k v r) aliased c =
    let n = text_of (some (value_of k)) in
    if is_string (some v)
    then rename_plain sfx r aliased c
    else rename_plain sfx r (Php.set (name (n ++ sfx)) (str n) aliased)
        (Columns.set_col_alias n (some (n ++ sfx)) c)

-- `Bindings::columnAlias`; the columns of the model of a table are the parameter `col_defs`.
unfoldable column_alias : (Option Bytes → Arr) → TColumns → Arr × TColumns
column_alias col_defs tc =
    let sfx = alias_str_key tc.columns.alias in
    let star = name (codes "*") in
    let (aliased, c) =
      if Php.has_key star tc.columns.colnames
      then rename_all sfx (col_defs tc.table_name) empty
          (record tc.columns { colnames = Lists.unset star tc.columns.colnames })
      else rename_plain sfx tc.columns.colnames empty tc.columns in
    (aliased, record tc { columns = c })
