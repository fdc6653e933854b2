-- ===== src/Tests/Sql.antt =====
-- The results about SQL statements at concrete inputs.
use zpp_cpp.Common.{
  ◌<◌, List, ◌&&◌, ℕ, zero, suc, ◌+◌, ◌≡◌, refl, ap, true, false, [], ◌∷◌, ◌++◌, Option, none, some,
  Bytes, codes, pos, arith, lookup,
}
use zpp_cpp.Php
use zpp_cpp.Php.{Key, name, index, Val, long, str, arr, Arr, empty, entry, key_equal, get, size}
use zpp_cpp.Php.Lists.{is_list, is_list_from}
use zpp_cpp.Sql.Literal
use zpp_cpp.Sql.Literal.{quote, read_quoted-to_string}
use zpp_cpp.Sql.Reading.{read_quoted}
use zpp_cpp.Sql.Columns.{new_columns, TColumns}
use zpp_cpp.Sql.Columns.Names.{KeepsNames}
use zpp_cpp.Sql.Params.{
  positional, named, IParams, value, add_param_equals, add_param_list, make_list,
}
use zpp_cpp.Sql.Params.Bound.{
  IsNumbered, IsExtended, add_param_equals-IsNumbered, add_param_list-make_list,
}
use zpp_cpp.Sql.Quoting.{read_quoted-quote_name}
use zpp_cpp.Sql.Clauses.Store.{Clauses, new_clauses}
use zpp_cpp.Sql.Clauses.Conditions.{where_key_value}
use zpp_cpp.Sql.Clauses.Pairs.{Holds, pushed, paired, where_key_value-Holds}
use zpp_cpp.Sql.Emit.{JoinExpr, join_expr, object, parameter, column, quote_name}
use zpp_cpp.Sql.Where.{column_name, column_join, plain_value, basic, nested, Conds, no_conds, cond}
use zpp_cpp.Sql.Joins.{tcols, JoinInfo, new_join, JoinTables}
use zpp_cpp.Sql.Joins.Tables.{IsFiled}
use zpp_cpp.Sql.Select.{Bindings, alias_in}
use zpp_cpp.Sql.Insert.{insert_col_params, extract_params}
use zpp_cpp.Sql.Insert.Row.{extract_params-insert_col_params}
use zpp_cpp.Sql.Change.{first_table, update_sql}
use zpp_cpp.Sql.Change.Stored.{set_steps, set_known, update_stores}
use zpp_cpp.Sql.Select.Stored.{Stored}
use zpp_cpp.Sql.Select.Sound.{option_conds, option_known}
use zpp_cpp.Sql.Where.Bound.{has}
use zpp_cpp.Sql.Params.Bound.{value_at}

-- A number as that many strokes.
abbrev strokes : ℕ → Bytes
strokes zero = []
strokes (suc n) = b'1' ∷ strokes n

strokes_inj : (a b : ℕ) → strokes a ≡ strokes b → a ≡ b
strokes_inj zero zero e = refl
strokes_inj zero (suc b) e = ground (arith, e)
strokes_inj (suc a) zero e = ground (arith, e)
strokes_inj (suc a) (suc b) e = ap suc (strokes_inj a b (ground (arith, e)))

abbrev no_text : Val → Bytes
no_text v = []

abbrev first_of : Arr → Arr → Arr
first_of a b = a

abbrev new_params : IParams
new_params = record { params = empty; sql = none; val_params = empty; ret_values = empty }

abbrev obrien : Bytes
obrien = codes "O'Brien"

abbrev same_byte : ℕ → ℕ
same_byte c = c

read_quoted-to_string_example :
    (text : Bytes) × (Literal.to_string no_text (Literal.construct (str obrien)) ≡ some text)
    × (read_quoted true same_byte quote (text ++ codes " OR") ≡ some (obrien, codes " OR"))
read_quoted-to_string_example =
    read_quoted-to_string true same_byte no_text obrien (codes " OR") (λ e. ground (arith, e))
      (refl, (refl, (refl, (refl, (refl, (refl, (refl, tt)))))))

abbrev users : TColumns
users = record { columns = new_columns; table_name = some (codes "users"); attr_map = [] }

nothing_kept : KeepsNames users
unfolding lookup
nothing_kept n ta e = ground (arith, e)

abbrev id_list : Arr
id_list = entry (index 0) (str (codes "id")) empty

numbered : IsNumbered strokes new_params
unfolding get
numbered m above = refl

add_param_equals-IsNumbered_example :
    let (after, text) = add_param_equals strokes no_text named (long 7) new_params in
    (get (name text) after.params ≡ some (long 7))
    × ((j : Key) → key_equal (name text) j ≡ false → get j after.params ≡ get j new_params.params)
    × (size after.params ≡ size new_params.params + 1)
    × IsNumbered strokes after
add_param_equals-IsNumbered_example =
    add_param_equals-IsNumbered strokes no_text (long 7) new_params strokes_inj numbered

add_param_list-make_list_example :
    let (after, text) = add_param_list strokes no_text positional id_list new_params in
    (text
      ≡ make_list strokes no_text positional
          (size new_params.params + 1)
          (size new_params.params + size id_list))
    × IsExtended new_params.params id_list after.params
    × ((s : Bytes) → get (name s) after.params ≡ none)
unfolding is_list is_list_from
add_param_list-make_list_example =
    add_param_list-make_list strokes no_text positional id_list new_params refl

-- The condition `id = ?`.
abbrev same_id : JoinExpr
same_id = join_expr (column (codes "id")) (object (parameter (long 4))) (pos 0) (pos 0)

abbrev young : Conds
young =
    cond (codes "AND") (column_name (codes "age")) (basic (codes "<") (plain_value (long 30)))
      (cond (codes "OR") (column_join same_id) (nested no_conds) no_conds)

abbrev no_alias : Bytes → Option Bytes
no_alias n = none

abbrev no_tables : JoinTables
no_tables = record {
  by_alias = [];
  results = [];
  conditions = [];
  joins = [];
  orderby = [];
  prime = none;
}

abbrev to_users : JoinInfo
to_users = new_join (some (tcols users)) none (pos 0)

no_tables-IsFiled : IsFiled no_tables
unfolding lookup
no_tables-IsFiled n t e = ground (arith, e)

abbrev one_row : Arr
one_row = entry (name (codes "id_us")) (long 4) empty

abbrev renames : Arr
renames = entry (name (codes "id_us")) (str (codes "id")) empty

abbrev all_users : JoinTables
all_users = record no_tables { prime = some (tcols users) }

abbrev first_users : Bindings
first_users = record {
  aggregate = none;
  distinct = false;
  conditions = some young;
  orders = none;
  limits = some (some (value (long 10)), none);
}

abbrev joe : Arr
joe = entry (name (codes "name")) (str (codes "Joe")) (entry (name (codes "age")) (long 30) empty)

extract_params-insert_col_params_example :
    let (p, text) = insert_col_params quote_name strokes no_text joe in
    let values = extract_params 0 joe p.params empty in
    (is_list values ≡ true)
    × (size values ≡ size joe)
    × ((i : ℕ) → i < size joe → get (index i) values ≡ value_at i joe)
extract_params-insert_col_params_example =
    extract_params-insert_col_params quote_name strokes no_text 0 joe (refl, (refl, tt))

abbrev filed : JoinTables
filed = record no_tables {
  by_alias = (codes "users", tcols users) ∷ [];
  prime = some (tcols users);
}

abbrev birthday : List (Bytes × Val)
birthday = (codes "age", long 31) ∷ []

update_stores_example :
    Stored quote_name strokes no_text named first_of filed
      ((has (first_table filed.by_alias) && set_known (some birthday) filed.prime)
        && option_known (alias_in quote_name strokes no_text named first_of filed) (some young))
      (set_steps (some birthday) filed.prime ++ option_conds (some young))
      new_params
      (update_sql quote_name strokes no_text named first_of
        (some birthday)
        (some young)
        filed
        new_params)
update_stores_example =
    update_stores quote_name strokes no_text named first_of filed (some birthday) (some young)
      new_params

read_quoted-quote_name_example :
    read_quoted true same_byte b'`' (quote_name (codes "order") ++ codes " = 1")
    ≡ some (codes "order", codes " = 1")
read_quoted-quote_name_example =
    read_quoted-quote_name true same_byte b'o' (codes "rder") (codes " = 1")
      (λ e. ground (arith, e))
      (
        (λ e. ground (arith, e)),
        (
          (λ e. ground (arith, e)),
          ((λ e. ground (arith, e)), ((λ e. ground (arith, e)), ((λ e. ground (arith, e)), tt))),
        ),
      )
      (refl, (refl, (refl, (refl, (refl, tt))))) (λ e. ground (arith, e))

abbrev two_columns : Arr
two_columns = entry (index 0) (str (codes "age")) (entry (index 1) (str (codes "name")) empty)

abbrev two_values : Arr
two_values = entry (index 0) (long 31) (entry (index 1) (str (codes "Jo")) empty)

where_key_value-Holds_example :
    (b : Clauses) × (where_key_value (arr two_columns) (arr two_values) new_clauses
      ≡ some (b, false))
    × Holds new_clauses (pushed (paired two_columns two_values) empty) b
unfolding is_list is_list_from size Php.get
where_key_value-Holds_example =
    where_key_value-Holds two_columns two_values (long 31) empty new_clauses refl refl refl refl
      refl refl
