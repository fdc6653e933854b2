-- ===== src/Sql/Change/Stored.antt =====
-- What DELETE and UPDATE statements store in the parameters.
use zpp_cpp.Common.{
  ℕ, refl, Bool, true, false, ◌&&◌, List, [], ◌∷◌, ◌++◌, Option, none, some, Bytes, codes,
  if◌then◌else◌, arith,
}
use zpp_cpp.Php.{Val, Arr}
use zpp_cpp.Sql.Params.{Kind, IParams, add_param_equals}
use zpp_cpp.Sql.Emit.{Emitted, plain, text_or_nil}
use zpp_cpp.Sql.Where.{Conds, followed, headed, where_sql}
use zpp_cpp.Sql.Where.Bound.{
  Step, one, has, conds_known, conds_steps, apply_all, Does, followed-Does,
}
use zpp_cpp.Sql.Emit.Order.{add_param_equals-keep_value}
use zpp_cpp.Sql.Where.Sound.{prefixed-Does, where_sql_binds}
use zpp_cpp.Sql.Joins.{Table, get_name, columns_of, JoinTables}
use zpp_cpp.Sql.Select.{Ordered, alias_in, order_part}
use zpp_cpp.Sql.Select.Sound.{option_conds, option_known}
use zpp_cpp.Sql.Select.Stored.{Stored, finished-Stored}
use zpp_cpp.Sql.Change.{
  first_table, set_pairs, where_word, deleting, delete_head, delete_sql, set_text, updated,
  updating, update_sql,
}

abbrev pub pair_steps : List (Bytes × Val) → List Step
pair_steps [] = []
pair_steps ((n, v) ∷ pairs) = one v ∷ pair_steps pairs

-- The steps of the columns that are set: those of the bindings, or those of the first table.
abbrev pub set_steps : Option (List (Bytes × Val)) → Option Table → List Step
set_steps (some pairs) prime = pair_steps pairs
set_steps none none = []
set_steps none (some icol) = pair_steps (set_pairs none (columns_of icol).colnames)

-- The columns come from the bindings, or there is a table to take them from.
abbrev pub set_known : Option (List (Bytes × Val)) → Option Table → Bool
set_known (some pairs) prime = true
set_known none prime = has prime

module _ (quoted : Bytes → Bytes) (print_int : ℕ → Bytes) (to_zstr : Val → Bytes) (k : Kind)
    (array_merge : Arr → Arr → Arr) (jt : JoinTables) where
  abbrev aliases : Bytes → Option Bytes
  aliases = alias_in quoted print_int to_zstr k array_merge jt

  abbrev D : Bool → List Step → IParams → Emitted → Type 0
  D known steps p e = Does quoted print_int to_zstr k aliases array_merge known steps p e

  both :
      (head : Bytes) (kl kr : Bool) (xs ys : List Step) (p : IParams) (e rest : Emitted)
      → D kl xs p e
      → D kr ys e.0 rest
      → D (kl && kr) (xs ++ ys) p (followed head e rest)
  both head kl kr xs ys p e rest =
      followed-Does quoted print_int to_zstr k aliases array_merge head kl kr xs ys p e rest

  behind :
      (head : Bytes) (known : Bool) (steps : List Step) (p : IParams) (e : Emitted)
      → D known steps p e
      → D known steps p (followed head e (e.0, plain []))
  behind head known steps p e h =
      prefixed-Does quoted print_int to_zstr k aliases array_merge head known steps p e h

  plain-Does : (p : IParams) (text : Bytes) → D true [] p (p, plain text)
  unfolding apply_all
  plain-Does p text = (refl, λ h. refl)

  conds-Does :
      (cs : Conds) (p : IParams)
      → D
          (conds_known aliases cs)
          (conds_steps cs)
          p
          (where_sql quoted print_int to_zstr k aliases array_merge cs p)
  conds-Does cs p = where_sql_binds quoted print_int to_zstr k aliases array_merge cs p

  deleting-Does :
      (o : Option Conds) (p : IParams)
      → D
          (option_known aliases o)
          (option_conds o)
          p
          (deleting quoted print_int to_zstr k array_merge jt o p)
  deleting-Does none p = plain-Does p []
  deleting-Does (some cs) p =
      behind (where_word quoted print_int to_zstr k array_merge cs) (conds_known aliases cs)
        (conds_steps cs) p (where_sql quoted print_int to_zstr k aliases array_merge cs p)
        (conds-Does cs p)

  updating-Does :
      (o : Option Conds) (p : IParams)
      → D
          (option_known aliases o)
          (option_conds o)
          p
          (updating quoted print_int to_zstr k array_merge jt o p)
  updating-Does none p = plain-Does p []
  updating-Does (some cs) p =
      behind (codes " WHERE") (conds_known aliases cs) (conds_steps cs) p
        (where_sql quoted print_int to_zstr k aliases array_merge cs p) (conds-Does cs p)

  head-Does :
      (t : Option Table) (p : IParams)
      → D (has t) [] p (delete_head quoted print_int to_zstr k array_merge t p)
  head-Does none p = (refl, λ h. ground (arith, h))
  head-Does (some t) p = plain-Does p (codes "DELETE FROM " ++ quoted (text_or_nil (get_name t)))

  set-Does :
      (first : Bool) (pairs : List (Bytes × Val)) (p : IParams)
      → D true (pair_steps pairs) p (set_text quoted print_int to_zstr k array_merge first pairs p)
  unfolding set_text apply_all
  set-Does first [] p = plain-Does p []
  set-Does first ((n, v) ∷ pairs) p =
      let here =
        headed ((if first then codes " " else codes ", ") ++ (quoted n ++ codes " = "))
          (add_param_equals print_int to_zstr k v p) in
      both [] true true (one v ∷ []) (pair_steps pairs) p here
        (set_text quoted print_int to_zstr k array_merge false pairs here.0)
        (refl, λ h. add_param_equals-keep_value print_int to_zstr k v p)
        (set-Does false pairs here.0)

  updated-Does :
      (t prime : Option Table) (pairs : Option (List (Bytes × Val))) (p : IParams)
      → D
          (has t && set_known pairs prime)
          (set_steps pairs prime)
          p
          (updated quoted print_int to_zstr k array_merge t prime pairs p)
  updated-Does none prime pairs p = (refl, λ h. ground (arith, h))
  updated-Does (some t) prime (some pairs) p =
      behind (codes "UPDATE " ++ (quoted (text_or_nil (get_name t)) ++ codes " SET")) true
        (pair_steps pairs) p (set_text quoted print_int to_zstr k array_merge true pairs p)
        (set-Does true pairs p)
  updated-Does (some t) none none p = (refl, λ h. ground (arith, h))
  updated-Does (some t) (some icol) none p =
      behind (codes "UPDATE " ++ (quoted (text_or_nil (get_name t)) ++ codes " SET")) true
        (pair_steps (set_pairs none (columns_of icol).colnames)) p
        (set_text quoted print_int to_zstr k array_merge true
          (set_pairs none (columns_of icol).colnames) p)
        (set-Does true (set_pairs none (columns_of icol).colnames) p)

  -- `update` gives a text exactly where the statement has a table, its pairs or else a first table to take
  -- the columns from, and only conditions that are known; elsewhere it gives an error or follows a null
  -- pointer. The list of the pairs may be empty. With a text, this is stored in the parameters, and as
  -- values what the pairs bind and then the conditions.
  pub update_stores :
      (pairs : Option (List (Bytes × Val))) (conds : Option Conds) (p : IParams)
      → Stored quoted print_int to_zstr k array_merge jt
          ((has (first_table jt.by_alias) && set_known pairs jt.prime)
            && option_known aliases conds)
          (set_steps pairs jt.prime ++ option_conds conds)
          p
          (update_sql quoted print_int to_zstr k array_merge pairs conds jt p)
  unfolding update_sql
  update_stores pairs conds p =
      let head =
        updated quoted print_int to_zstr k array_merge (first_table jt.by_alias) jt.prime pairs p in
      let known = has (first_table jt.by_alias) && set_known pairs jt.prime in
      finished-Stored quoted print_int to_zstr k array_merge jt
        (known && option_known aliases conds) (set_steps pairs jt.prime ++ option_conds conds) p
        (followed [] head (updating quoted print_int to_zstr k array_merge jt conds head.0))
        (both [] known (option_known aliases conds) (set_steps pairs jt.prime) (option_conds conds)
          p head (updating quoted print_int to_zstr k array_merge jt conds head.0)
          (updated-Does (first_table jt.by_alias) jt.prime pairs p) (updating-Does conds head.0))

  -- `deleteSql` gives a text exactly where there is a table and only conditions that are known; this is
  -- stored, and as values what the conditions bind.
  pub delete_stores :
      (conds : Option Conds) (orders : Option (List Ordered)) (p : IParams)
      → Stored quoted print_int to_zstr k array_merge jt
          (has (first_table jt.by_alias) && (option_known aliases conds && true))
          ([] ++ (option_conds conds ++ []))
          p
          (delete_sql quoted print_int to_zstr k array_merge conds orders jt p)
  unfolding delete_sql
  delete_stores conds orders p =
      let head = delete_head quoted print_int to_zstr k array_merge (first_table jt.by_alias) p in
      let cond = deleting quoted print_int to_zstr k array_merge jt conds head.0 in
      let last = order_part quoted print_int to_zstr k array_merge orders in
      finished-Stored quoted print_int to_zstr k array_merge jt
        (has (first_table jt.by_alias) && (option_known aliases conds && true))
        ([] ++ (option_conds conds ++ [])) p
        (followed [] head (followed [] cond (cond.0, plain last)))
        (both [] (has (first_table jt.by_alias)) (option_known aliases conds && true) []
          (option_conds conds ++ []) p head (followed [] cond (cond.0, plain last))
          (head-Does (first_table jt.by_alias) p)
          (both [] (option_known aliases conds) true (option_conds conds) [] head.0 cond
            (cond.0, plain last) (deleting-Does conds head.0) (plain-Does cond.0 last)))
