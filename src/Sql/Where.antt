-- ===== src/Sql/Where.antt =====
-- `ISql::where` of src/wcd/isql.cpp: the conditions behind WHERE. The array of a condition is a record of its
-- entries, by the kind that its entry "type" names. The alias of a table of the statement is
-- looked up by `alias_of`; a table that is missing is a null pointer that the source follows. PHP's `array_merge` is a parameter.
pub mod Bound
pub mod Sound
use zpp_cpp.Common.{
  ℕ, suc, ◌+◌, Bool, true, false, List, [], ◌∷◌, ◌++◌, Option, none, some, if◌then◌else◌, Bytes,
  codes,
}
use zpp_cpp.Php.{Val, Arr}
use zpp_cpp.Sql.Literal
use zpp_cpp.Sql.Literal.{Literal}
use zpp_cpp.Sql.Columns.{TableAttr}
use zpp_cpp.Sql.Params.{Kind, IParams, add_param_equals, add_param_list}
use zpp_cpp.Sql.Emit.{
  null_pointer, Text, JoinExpr, Emitted, plain, failed, stopped, text_or_nil, bound, emit_join,
}

-- The entry "column": a name, a part of a statement, or an object that is none.
pub data Column : Type 0 where
  column_name : Bytes → Column
  column_attr : TableAttr → Column
  column_join : JoinExpr → Column
  column_part column_foreign : Column

-- The entry "value" of a basic condition.
pub data Operand : Type 0 where
  value_attr : TableAttr → Operand
  value_literal : Literal → Operand
  value_param : Val → Operand
  value_expr : Bytes → Operand
  value_part value_foreign : Operand
  plain_value : Val → Operand

-- The entry "raw".
pub data Raw : Type 0 where
  raw_expr : Bytes → Raw
  raw_part raw_foreign : Raw

-- The kinds of a condition with their other entries. `none` is an entry that is no array, or, for `between`,
-- none with two values.
mutual
  pub data Test : Type 0 where
    basic : Bytes → Operand → Test
    nested : Conds → Test
    is_null : Bool → Test
    between : Bool → Option (Val × Val) → Test
    among : Bool → Option Arr → Test
    raw : Raw → Option Arr → Test
    unknown : Test

  pub data Conds : Type 0 where
    no_conds : Conds
    cond : Bytes → Column → Test → Conds → Conds

abbrev negation : Bool → Bytes
negation true = codes " NOT"
negation false = []

-- An error ends the loop, and is returned with the text of its own call only.
abbrev pub followed : Bytes → Emitted → Emitted → Emitted
followed head (p, e) (q, rest) =
    if stopped e
    then (p, e)
    else if stopped rest
    then (q, rest)
    else (q, plain (head ++ (e.value ++ rest.value)))

abbrev pub in_brackets : Emitted → Emitted
in_brackets (p, r) = if stopped r then (p, r) else (p, plain (codes " (" ++ (r.value ++ codes ")")))

abbrev pub headed : Bytes → IParams × Bytes → Emitted
headed head (p, text) = (p, plain (head ++ text))

-- The connective of a condition that is not the first.
abbrev pub lead : Bool → Bytes → Bytes
lead true bop = []
lead false bop = codes " " ++ bop

module _ (quoted : Bytes → Bytes) (print_int : ℕ → Bytes) (to_zstr : Val → Bytes) (k : Kind)
    (alias_of : Bytes → Option Bytes) (array_merge : Arr → Arr → Arr) where
  abbrev bind_one : Val → IParams → IParams × Bytes
  bind_one v p = add_param_equals print_int to_zstr k v p

  abbrev attr_text : Option Bytes → TableAttr → IParams → Emitted
  attr_text none ta p = (p, null_pointer)
  attr_text (some alias) ta p = (p, plain (codes " " ++ (alias ++ (codes "." ++ ta.attr))))

  unfoldable pub operand_text : Operand → IParams → Emitted
  operand_text (value_attr ta) p = attr_text (alias_of ta.table) ta p
  operand_text (value_literal l) p =
      (p, plain (codes " " ++ text_or_nil (Literal.to_string to_zstr l)))
  operand_text (value_param v) p = headed (codes " ") (bind_one v p)
  operand_text (value_expr s) p = (p, plain (codes " " ++ s))
  operand_text value_part p = (p, plain [])
  operand_text value_foreign p = (p, failed [] (codes "SqlPartId object expected"))
  operand_text (plain_value v) p = headed (codes " ") (bind_one v p)

  abbrev two_bound : Bytes → Val → Val → IParams → Emitted
  two_bound head v w p =
      let (p1, first) = bind_one v p in
      let (p2, second) = bind_one w p1 in
      (p2, plain (head ++ (codes " BETWEEN " ++ (first ++ (codes " AND " ++ second)))))

  abbrev merged_params : Option Arr → IParams → IParams
  merged_params none p = p
  merged_params (some values) p = record p { params = array_merge p.params values }

  abbrev prefixed : Bytes → Emitted → Emitted
  prefixed head e = followed head e (e.0, plain [])

  unfoldable pub raw_text : Raw → Option Arr → IParams → Emitted
  raw_text (raw_expr s) values p = (merged_params values p, plain s)
  raw_text raw_part values p = (p, failed [] (codes "'raw' needs Expr object"))
  raw_text raw_foreign values p = (p, failed [] (codes "SqlPartId object expected"))

  -- The name of the column of a condition; where its object is another part, that of the condition before
  -- stands still.
  abbrev name_of : Column → Bytes → Bytes
  name_of (column_name s) old = quoted s
  name_of (column_attr ta) old = ta.table ++ (codes "." ++ quoted ta.attr)
  name_of _ old = old

  unfoldable mutual
    pub test_text : Bytes → Test → IParams → Emitted
    test_text name (basic op v) p =
        prefixed (codes " " ++ (name ++ (codes " " ++ op))) (operand_text v p)
    test_text name (nested cs) p = in_brackets (where_text true [] cs p)
    test_text name (is_null negated) p =
        (p, plain (codes " " ++ (name ++ (codes " IS" ++ (negation negated ++ codes " NULL")))))
    test_text name (between negated none) p =
        (p, failed [] (codes "SQL BETWEEN: requires needs 2 values"))
    test_text name (between negated (some (v, w))) p =
        two_bound (codes " " ++ (name ++ negation negated)) v w p
    test_text name (among negated none) p = (p, failed [] (codes "IN needs values array"))
    test_text name (among negated (some values)) p =
        let (q, list) = add_param_list print_int to_zstr k values p in
        (
          q,
          plain
              (codes " " ++ (name ++ (negation negated ++ (codes " IN (" ++ (list ++ codes ")"))))),
        )
    test_text name (raw r values) p = raw_text r values p
    test_text name unknown p = (p, plain [])

    -- `first` is set for the first condition of the array, and `old` is the name of a column that the
    -- condition before left behind.
    pub where_text : Bool → Bytes → Conds → IParams → Emitted
    where_text first old no_conds p = (p, plain [])
    where_text first old (cond bop (column_join j) t cs) p =
        let e = emit_join quoted print_int to_zstr k 0 [] [] j p in
        followed (lead first bop) e (where_text false old cs e.0)
    where_text first old (cond bop column_foreign t cs) p =
        (p, failed [] (codes "SqlPartId object expected"))
    where_text first old (cond bop c t cs) p =
        let name = name_of c old in
        let e = test_text name t p in followed (lead first bop) e (where_text false name cs e.0)

  -- `ISql::where`
  abbrev pub where_sql : Conds → IParams → Emitted
  where_sql cs p = where_text true [] cs p
