-- ===== src/Sql/Joins.antt =====
-- `JoinInfo` and `JoinTables` of src/wcd/sql_isql.cpp: the tables of a statement and how they are joined.
-- A table that is filed is a value, so a later change of its object is not seen here.
pub mod Tables
pub mod Rows
use zpp_cpp.Common.{
  ℕ, suc, ◌+◌, Bool, true, false, List, [], ◌∷◌, ◌++◌, Option, none, some, ◌==◌, length,
  if◌then◌else◌, Bytes, codes, ℤ, pos, negsuc, lookup, store,
}
use zpp_cpp.Php
use zpp_cpp.Php.{Key, name, index, Val, str, arr, Arr, empty, entry, text_of}
use zpp_cpp.StrPtr.{zs_cmp, is_zero, subview}
use zpp_cpp.Sql.Columns.{TableAttr, IColumns, TColumns, int_max}
use zpp_cpp.Sql.Emit.{JoinExpr, join_expr, Operand, text_or_nil}

-- An `IColumns` object with the SQL of the statement that owns it, or a `TColumns` object.
pub data Table : Type 0 where
  icols : Bytes → IColumns → Table
  tcols : TColumns → Table

-- `getAlias`, and the virtual `getName`
unfoldable pub get_alias : Table → Option Bytes
get_alias (icols sql c) = c.alias
get_alias (tcols tc) = tc.columns.alias

unfoldable pub get_name : Table → Option Bytes
get_name (icols sql c) = c.alias
get_name (tcols tc) = tc.table_name

abbrev pub columns_of : Table → IColumns
columns_of (icols sql c) = c
columns_of (tcols tc) = tc.columns

pub record JoinInfo : Type 0 where
  pub left_table : Option Table
  pub right_table : Option Table
  pub join_type : ℤ
  pub conditions : List JoinExpr

-- `JoinInfo::construct` on a new object
abbrev pub new_join : Option Table → Option Table → ℤ → JoinInfo
new_join l r t = record { left_table = l; right_table = r; join_type = t; conditions = [] }

-- `JoinInfo::addExpr`
abbrev pub add_expr : JoinExpr → JoinInfo → JoinInfo
add_expr e ji = record ji { conditions = ji.conditions ++ e ∷ [] }

abbrev pub default_logic : ℤ → List JoinExpr → ℤ
default_logic (pos n) conditions =
    if n == 0 then (if length conditions == 0 then pos 0 else pos 1) else pos n
default_logic (negsuc n) conditions = negsuc n

-- `JoinInfo::add`: a condition that is not the first is joined by AND where no connective is given.
unfoldable pub add_condition : Operand → Operand → ℤ → ℤ → JoinInfo → JoinInfo
add_condition l r op logic ji = add_expr (join_expr l r op (default_logic logic ji.conditions)) ji

-- One entry of the order: the column and whether it descends.
pub record Order : Type 0 where
  pub column : Bytes
  pub descend : Bool

pub record JoinTables : Type 0 where
  pub by_alias : List (Bytes × Table)
  pub results : List TableAttr
  pub conditions : List JoinExpr
  pub joins : List JoinInfo
  pub orderby : List Order
  pub prime : Option Table

abbrev filing : Option Bytes → Table → JoinTables → JoinTables × Bytes
filing none t jt = (jt, codes "addTable with no Alias or Name")
filing (some n) t jt = (record jt { by_alias = store n t jt.by_alias }, [])

abbrev pub or_else : Option Bytes → Option Bytes → Option Bytes
or_else none b = b
or_else (some a) b = some a

-- `JoinTables::addTable`, with the text of its error
unfoldable pub add_table : Table → JoinTables → JoinTables × Bytes
add_table t jt = filing (or_else (get_alias t) (get_name t)) t jt

-- `JoinTables::setPrime`, which leaves the error aside
unfoldable pub set_prime : Table → JoinTables → JoinTables
set_prime t jt = record (add_table t jt).0 { prime = some t }

abbrev pub joined_by : Option Table → JoinTables → Option JoinTables
joined_by none jt = none
joined_by (some left) jt = some (add_table left jt).0

-- `JoinTables::addJoin`, which leaves the error aside; `none` is a join without a left table, a null pointer
-- that the source follows.
unfoldable pub add_join : JoinInfo → JoinTables → Option JoinTables
add_join ji jt = joined_by ji.left_table (record jt { joins = jt.joins ++ ji ∷ [] })

-- `JoinTables::addResult`
unfoldable pub add_result : TableAttr → JoinTables → JoinTables
add_result ta jt = record jt { results = jt.results ++ ta ∷ [] }

-- `JoinTables::addWhere`
unfoldable pub add_where : Operand → Operand → ℤ → ℤ → JoinTables → JoinTables
add_where l r op logic jt = record jt { conditions = jt.conditions ++ join_expr l r op logic ∷ [] }

-- `JoinTables::order`
unfoldable pub order : Bytes → Bool → JoinTables → JoinTables
order n d jt = record jt { orderby = jt.orderby ++ record { column = n; descend = d } ∷ [] }

-- `JoinTables::getPivot`: the left table of the first join
unfoldable pub get_pivot : JoinTables → Option Table
get_pivot jt = elim jt.joins [ [] ↦ none | ji ∷ joins ↦ ji.left_table ]

unfoldable pub named_in : Bytes → List (Bytes × Table) → Option Table
unfolding get_name
named_in n [] = none
named_in n ((alias, t) ∷ tables) =
    let later = named_in n tables in
    if is_zero (zs_cmp (some n) (get_name t)) then some t else later

abbrev pub behind_first : List (Bytes × Table) → List (Bytes × Table)
behind_first [] = []
behind_first (t ∷ tables) = tables

-- `JoinTables::getTable`: the head of the loop moves the walk before its first look.
unfoldable pub get_table : Bytes → JoinTables → Option Table
unfolding named_in
get_table n jt = named_in n (behind_first jt.by_alias)

-- `JoinTables::getTableAlias`
unfoldable pub get_table_alias : Bytes → JoinTables → Option Table
get_table_alias n jt = lookup n jt.by_alias

-- `JoinTables::destruct`
unfoldable pub destruct : JoinTables → JoinTables
destruct jt = record jt { prime = none; joins = []; by_alias = [] }

abbrev pub key_text : Key → Bytes
key_text (name s) = s
key_text (index i) = []

-- The first loop of `rowSplit`: the renamed columns by the last three bytes of their name, and the others.
unfoldable pub split_loop : Arr → Arr → Arr → Arr → Arr × Arr
split_loop empty rename rec ok = (rec, ok)
split_loop (entry k v r) rename rec ok =
    let namekey = key_text k in
    elim (Php.get (name namekey) rename) [
      | none ↦ split_loop r rename rec (Php.set (name namekey) v ok)
      | some orig ↦
          let tail = text_or_nil (subview namekey (negsuc 2) (pos int_max)) in
          let tails = Php.set (name (text_of (some orig))) v empty in
          split_loop r rename (Php.set (name tail) (arr tails) rec) ok
    ]

-- The second loop: every entry becomes a property of the object.
unfoldable pub properties : Arr → Arr → Arr
properties empty obj = obj
properties (entry k v r) obj = properties r (Php.set (name (key_text k)) v obj)

-- `JoinTables::rowSplit`; the object is the array of its properties.
unfoldable pub row_split : Arr → Arr → Arr
unfolding split_loop properties
row_split row rename =
    let (rec, ok) = split_loop row rename empty empty in
    properties rec (if Php.size ok == 0 then empty else Php.set (name (codes "ok")) (arr ok) empty)
