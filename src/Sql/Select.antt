-- ===== src/Sql/Select.antt =====
-- `ISql::columns`, `columnsTC`, `orderField`, `orderBy`, `fromJT`, `select_jt`, `limit` and `select` of
-- src/wcd/isql.cpp: the text of a SELECT statement. The entries of the bindings are the fields of
-- a record. The column of an order is a name or a column of a table.
pub mod Sound
pub mod Stored
use zpp_cpp.Common.{
  ℕ, suc, ◌+◌, Bool, true, false, List, [], ◌∷◌, ◌++◌, Option, none, some, ltb, ◌==◌, length,
  if◌then◌else◌, Bytes, codes, ℤ, lookup, equal,
}
use zpp_cpp.Php.{Key, name, index, Val, str, Arr, empty, entry, text_of}
use zpp_cpp.Sql.{Return}
use zpp_cpp.Sql.Operators.{join_str}
use zpp_cpp.Sql.Columns.{TableAttr}
use zpp_cpp.Sql.Params.{Kind, IParams, Part, param_literal, set_sql, use_own_values}
use zpp_cpp.Sql.Emit.{
  null_pointer, Text, JoinExpr, Emitted, plain, failed, stopped, text_or_nil, emit_join,
}
use zpp_cpp.Sql.Where.{Conds, where_sql, followed}
use zpp_cpp.Sql.Joins.{
  Table, icols, tcols, get_alias, get_name, columns_of, key_text, JoinInfo, JoinTables,
}

abbrev star : Bytes
star = codes "*"

-- `implode` with a comma
abbrev pub imploded : List Bytes → Bytes
imploded [] = []
imploded (s ∷ []) = s
imploded (s ∷ (t ∷ l)) = s ++ (codes "," ++ imploded (t ∷ l))

abbrev pub alias_prefix : Option Bytes → Bytes
alias_prefix none = []
alias_prefix (some []) = []
alias_prefix (some (c ∷ s)) = (c ∷ s) ++ codes "."

abbrev pub spaced_alias : Option Bytes → Bytes
spaced_alias none = []
spaced_alias (some []) = []
spaced_alias (some (c ∷ s)) = codes " " ++ (c ∷ s)

-- The column of an order, and whether it descends.
pub data Ordered : Type 0 where
  by_attr : TableAttr → Bool → Ordered
  by_name : Bytes → Bool → Ordered

-- The columns of an aggregate function, its name and its alias.
pub record Aggregate : Type 0 where
  pub function : Bytes
  pub agg_columns : List Bytes
  pub agg_alias : Option Bytes

pub record Bindings : Type 0 where
  pub aggregate : Option Aggregate
  pub distinct : Bool
  pub conditions : Option Conds
  pub orders : Option (List Ordered)
  pub limits : Option (Option Part × Option Part)

abbrev direction : Bool → Bytes
direction true = codes " DESC"
direction false = codes " ASC"

module _ (quoted : Bytes → Bytes) where
  abbrev column_text : Bytes → Bytes
  column_text [] = star
  column_text (c ∷ s) = if equal (c ∷ s) star then star else quoted (c ∷ s)

  -- `ISql::columns` on a list of names
  unfoldable pub columns : Bool → List Bytes → Bytes
  columns first [] = []
  columns first (s ∷ l) =
      (if first then codes " " else codes ",") ++ (column_text s ++ columns false l)

  abbrev renaming : Val → Bytes
  renaming (str s) = codes " as " ++ quoted s
  renaming _ = []

  abbrev name_text : Bytes → Val → Bytes
  name_text [] rename = []
  name_text (c ∷ s) rename = if equal (c ∷ s) star then star else quoted (c ∷ s) ++ renaming rename

  unfoldable pub name_list : Option Bytes → Arr → List Bytes
  name_list alias empty = []
  name_list alias (entry k v r) =
      (alias_prefix alias ++ name_text (key_text k) v) ∷ name_list alias r

  unfoldable pub expr_list : Arr → List Bytes
  expr_list empty = []
  expr_list (entry k v r) =
      (text_of (some v) ++ (codes " as " ++ quoted (key_text k))) ∷ expr_list r

  -- `ISql::columnsTC`
  unfoldable pub columns_tc : Table → List Bytes
  unfolding name_list expr_list
  columns_tc t = name_list (get_alias t) (columns_of t).colnames ++ expr_list (columns_of t).expr

  unfoldable pub all_columns : List (Bytes × Table) → List Bytes
  unfolding columns_tc
  all_columns [] = []
  all_columns ((n, t) ∷ tables) = columns_tc t ++ all_columns tables

  -- `ISql::orderField`
  unfoldable pub order_field : Ordered → Bytes
  order_field (by_attr ta d) = ta.table ++ (codes "." ++ (quoted ta.attr ++ direction d))
  order_field (by_name s d) = quoted s ++ direction d

  unfoldable pub order_loop : Bool → List Ordered → Bytes
  unfolding order_field
  order_loop first [] = []
  order_loop first (o ∷ l) =
      (if first then [] else codes ", ") ++ (order_field o ++ order_loop false l)

  -- `ISql::orderBy`
  unfoldable pub order_by : List Ordered → Bytes
  unfolding order_loop
  order_by l = codes " " ++ order_loop true l

  -- What `select_jt` writes in front of FROM.
  abbrev pub what_text : Bindings → JoinTables → Bytes
  what_text b jt = elim b.aggregate [
    | some agg ↦
        codes " "
        ++ (agg.function
            ++ (codes "("
                ++ ((if b.distinct then codes " DISTINCT " else [])
                    ++ (columns true agg.agg_columns
                        ++ (codes ") AS "
                            ++ quoted (elim agg.agg_alias [ none ↦ agg.function | some a ↦ a ]))))))
    | none ↦
        (if b.distinct then codes " DISTINCT " else [])
        ++ (codes " " ++ imploded (all_columns jt.by_alias))
  ]

module _ (quoted : Bytes → Bytes) (print_int : ℕ → Bytes) (to_zstr : Val → Bytes) (k : Kind)
    (array_merge : Arr → Arr → Arr) where
  -- The conditions of a join from number `ix` on.
  unfoldable pub on_text : ℕ → Bytes → Bytes → List JoinExpr → IParams → Emitted
  on_text ix la ra [] p = (p, plain [])
  on_text ix la ra (e ∷ es) p =
      let here = emit_join quoted print_int to_zstr k ix la ra e p in
      followed [] here (on_text (ix + 1) la ra es here.0)

  abbrev table_text : Table → Bytes
  table_text (tcols tc) = codes " " ++ quoted (text_or_nil tc.table_name)
  table_text (icols sql c) = codes " (" ++ (sql ++ codes ")")

  abbrev pub option_alias : Option Table → Bytes
  option_alias none = []
  option_alias (some t) = text_or_nil (get_alias t)

  abbrev on_word : List JoinExpr → Bytes
  on_word [] = []
  on_word (e ∷ es) = codes " ON "

  -- The head of a join, up to its conditions.
  abbrev pub join_head : JoinInfo → Table → Bytes
  join_head ji left =
      codes " "
      ++ (text_or_nil (join_str ji.join_type)
          ++ (codes " JOIN "
              ++ (table_text left
                  ++ (codes " " ++ (text_or_nil (get_alias left) ++ on_word ji.conditions)))))

  -- One join of `fromJT`; a left table that is missing is a null pointer that the source follows.
  abbrev pub join_text : JoinInfo → Option Table → IParams → Emitted
  join_text ji none p = (p, null_pointer)
  join_text ji (some left) p =
      let e =
        on_text 0 (text_or_nil (get_alias left)) (option_alias ji.right_table) ji.conditions p in
      followed (join_head ji left) e (e.0, plain [])

  unfoldable pub joins_text : List JoinInfo → IParams → Emitted
  unfolding on_text
  joins_text [] p = (p, plain [])
  joins_text (ji ∷ joins) p =
      let here = join_text ji ji.left_table p in followed [] here (joins_text joins here.0)

  -- `ISql::fromJT`. The text of a result with an error is of no account.
  unfoldable pub from_jt : Option Table → List JoinInfo → IParams → Emitted
  unfolding joins_text
  from_jt none joins p = (p, null_pointer)
  from_jt (some prime) joins p =
      let e = joins_text joins p in
      followed
        (codes " FROM "
          ++ (quoted (text_or_nil (get_name prime)) ++ spaced_alias (get_alias prime)))
        e (e.0, plain [])

  abbrev pub returned : IParams × Return Bytes → Emitted
  returned (p, r) = (p, record { value = r.value; error = r.error; fault = false })

  abbrev pub plimit : Bytes → Option Part → IParams → Emitted
  plimit word none p = (p, plain [])
  plimit word (some v) p =
      let e = returned (param_literal print_int to_zstr k v p) in followed word e (e.0, plain [])

  -- `ISql::limit`
  unfoldable pub limit_text : Option Part → Option Part → IParams → Emitted
  limit_text l o p =
      let first = plimit (codes " LIMIT ") l p in
      followed [] first (plimit (codes " OFFSET ") o first.0)

  -- The alias of a table in the map of the tables, as the conditions ask for it.
  abbrev pub alias_in : JoinTables → Bytes → Option Bytes
  alias_in jt n = elim (lookup n jt.by_alias) [
    | none ↦ none
    | some t ↦ some (text_or_nil (get_alias t))
  ]

  abbrev pub where_part : JoinTables → Option Conds → IParams → Emitted
  where_part jt none p = (p, plain [])
  where_part jt (some cs) p =
      let e = where_sql quoted print_int to_zstr k (alias_in jt) array_merge cs p in
      followed (codes " WHERE") e (e.0, plain [])

  abbrev pub order_part : Option (List Ordered) → Bytes
  order_part none = []
  order_part (some l) = codes " ORDER BY" ++ order_by quoted l

  abbrev pub limit_part : Option (Option Part × Option Part) → IParams → Emitted
  limit_part none p = (p, plain [])
  limit_part (some (l, o)) p = limit_text l o p

  abbrev pub finished : Emitted → Emitted
  finished (p, r) = if stopped r then (p, r) else (use_own_values (set_sql (some r.value) p), r)

  -- `ISql::select`: on success the statement and its values are stored in the parameters.
  unfoldable pub select : Bindings → JoinTables → IParams → Emitted
  unfolding from_jt limit_text
  select b jt p =
      let from = from_jt jt.prime jt.joins p in
      let what = followed (codes "SELECT" ++ what_text quoted b jt) from (from.0, plain []) in
      let cond = where_part jt b.conditions what.0 in
      let limited = limit_part b.limits cond.0 in
      let tail = followed (order_part b.orders) (cond.0, plain []) limited in
      finished (followed [] what (followed [] cond tail))
