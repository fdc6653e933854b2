-- ===== src/Sql/Columns.antt =====
-- `TableAttr`, `IColumns` and `TColumns` of src/wcd/sql_ipart.cpp and sql_ipart.h: the name of a column
-- with its table, and the columns that a statement takes from a table. The owner of the columns,
-- a weak reference, is not modelled.
pub mod Attr
pub mod Names
use zpp_cpp.Common.{
  ℕ, ◌+◌, ◌-◌, Bool, true, false, List, [], ◌∷◌, ◌++◌, Option, none, some, ltb, if◌then◌else◌,
  Bytes, pos, lookup, store,
}
use zpp_cpp.Php
use zpp_cpp.Php.{Key, name, index, Val, bool, str, arr, Arr, empty, entry, text_of, has_key}
use zpp_cpp.StrPtr.{subview, find_char, Found, at, missing, overrun}

abbrev pub int_max : ℕ
int_max = 2147483647

abbrev pub dot : ℕ
dot = b'.'

pub record TableAttr : Type 0 where
  pub table : Bytes
  pub attr : Bytes

-- `TableAttr::makeTA` and `TableAttr::construct`
abbrev pub make_ta : Bytes → Bytes → TableAttr
make_ta t a = record { table = t; attr = a }

-- `TableAttr::toString`
unfoldable pub to_string : TableAttr → Bytes
to_string ta = ta.table ++ dot ∷ ta.attr

-- The value that `splitDot` returns: an object or the text itself.
pub data Split : Type 0 where
  parts : TableAttr → Split
  whole : Bytes → Split

abbrev parts_of : Option Bytes → Option Bytes → Option Split
parts_of (some t) (some a) = some (parts (make_ta t a))
parts_of _ _ = none

-- `TableAttr::splitDot`; `none` is an exception of `substr`, or a read behind the text.
unfoldable pub split_dot : Bytes → Option Split
split_dot s = elim (find_char (some s) dot 0) [
  | missing ↦ some (whole s)
  | overrun ↦ none
  | at k ↦
      if ltb 0 k
      then parts_of (subview s (pos 0) (pos k)) (subview s (pos (k + 1)) (pos int_max))
      else some (whole s)
]

pub record IColumns : Type 0 where
  pub alias : Option Bytes
  pub colnames : Arr
  pub expr : Arr

abbrev pub new_columns : IColumns
new_columns = record { alias = none; colnames = empty; expr = empty }

-- `IColumns::clear`
unfoldable pub clear : IColumns → IColumns
clear c = record c { alias = none; colnames = empty; expr = empty }

-- `IColumns::setAlias`
unfoldable pub set_alias : Option Bytes → IColumns → IColumns
set_alias a c = record c { alias = a }

-- `IColumns::addExpr`
unfoldable pub add_expr : Bytes → Bytes → IColumns → IColumns
add_expr alias e c = record c { expr = Php.set (name alias) (str e) c.expr }

-- One entry of the list that `add` walks: a name, or a name with its alias.
abbrev pub named : Key → Val → Bytes
named (index i) v = text_of (some v)
named (name n) v = n

abbrev renamed : Key → Val → Val
renamed (index i) v = bool false
renamed (name n) v = v

-- The loop of `IColumns::add` on the array of names.
unfoldable pub add_names : Arr → Arr → Arr
add_names empty names = names
add_names (entry k v r) names = add_names r (Php.set (name (named k v)) (renamed k v) names)

-- `IColumns::add`
unfoldable pub add : Arr → IColumns → IColumns
add columns c = record c { colnames = add_names columns c.colnames }

-- `IColumns::setColAlias`
unfoldable pub set_col_alias : Bytes → Option Bytes → IColumns → IColumns
set_col_alias n none c = record c { colnames = Php.set (name n) (bool false) c.colnames }
set_col_alias n (some a) c = record c { colnames = Php.set (name n) (str a) c.colnames }

-- `IColumns::has`
unfoldable pub has : Bytes → IColumns → Bool
has n c = has_key (name n) c.colnames

pub record TColumns : Type 0 where
  pub columns : IColumns
  pub table_name : Option Bytes
  pub attr_map : List (Bytes × TableAttr)

-- `TColumns::construct`; the columns are an array, one name, or something else, which adds none.
unfoldable pub construct : Option Bytes → Option Bytes → Val → TColumns → TColumns
construct tname talias tcol tc =
    let named : IColumns = elim talias [
      | none ↦ tc.columns
      | some a ↦ set_alias (some a) tc.columns
    ] in
    record tc {
      table_name = tname;
      columns = elim tcol [ arr a ↦ add a named | str s ↦ set_col_alias s none named | _ ↦ named ];
    }

-- `TColumns::setName`
unfoldable pub set_name : Option Bytes → TColumns → TColumns
set_name n tc = record tc { table_name = n }

abbrev pub text_or : Option Bytes → Bytes → Bytes
text_or none d = d
text_or (some s) d = s

-- The table that a new `TableAttr` is given: the alias, else the name; a null name is written as nothing.
abbrev pub shown : TColumns → Bytes
shown tc = text_or tc.columns.alias (text_or tc.table_name [])

-- `TColumns::attr`: one object for each name, made when it is first asked for.
unfoldable pub attr_of : Bytes → TColumns → TColumns × TableAttr
attr_of n tc = elim (lookup n tc.attr_map) [
  | some ta ↦ (tc, ta)
  | none ↦ let ta = make_ta (shown tc) n in (record tc { attr_map = store n ta tc.attr_map }, ta)
]
