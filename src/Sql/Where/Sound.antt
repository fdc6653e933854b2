-- ===== src/Sql/Where/Sound.antt =====
-- `ISql::where` binds what its conditions name: the induction over the conditions.
use zpp_cpp.Common.{
  ℕ, ◌≡◌, refl, Bool, true, false, not, ◌&&◌, List, [], ◌++◌, map, Option, none, some, Bytes, codes,
  arith, ap, ◌∙◌,
}
use mathlib.Core.List.{append-nil}
use zpp_cpp.Php.{Val, Arr}
use zpp_cpp.Sql.Params.{Kind, IParams, add_param_equals}
use zpp_cpp.Sql.Emit.{Emitted, stopped, plain, emit_join}
use zpp_cpp.Sql.Emit.Order.{keep_value, add_param_equals-keep_value, join_known, join_values}
use zpp_cpp.Sql.Where.{
  column_name, column_attr, column_join, column_part, column_foreign, Operand, value_attr,
  value_literal, value_param, value_expr, value_part, value_foreign, plain_value, Raw, raw_expr,
  raw_part, raw_foreign, Test, basic, nested, is_null, between, among, raw, unknown, Conds,
  no_conds, cond, followed, lead, attr_text, prefixed, name_of, operand_text, raw_text, test_text,
  where_text, where_sql,
}
use zpp_cpp.Sql.Where.Bound.{
  Step, one, merged, has, operand_known, raw_known, test_known, conds_known, operand_steps,
  option_step, test_steps, conds_steps, apply_all, Does, followed-Does, in_brackets-Does,
  emit_join-Does, add_param_list-push_all,
}

module _ (quoted : Bytes → Bytes) (print_int : ℕ → Bytes) (to_zstr : Val → Bytes) (k : Kind)
    (alias_of : Bytes → Option Bytes) (array_merge : Arr → Arr → Arr) where
  -- `Does` at the parameters of the section.
  abbrev D : Bool → List Step → IParams → Emitted → Type 0
  D known steps p e = Does quoted print_int to_zstr k alias_of array_merge known steps p e

  operand-Does :
      (v : Operand) (p : IParams)
      → D
          (operand_known alias_of v)
          (operand_steps v)
          p
          (operand_text quoted print_int to_zstr k alias_of array_merge v p)
  unfolding operand_text apply_all
  operand-Does (value_attr ta) p = attr (alias_of ta.table)
    where
      attr :
          (o : Option Bytes)
          → D (has o) [] p (attr_text quoted print_int to_zstr k alias_of array_merge o ta p)
      attr none = (refl, λ h. ground (arith, h))
      attr (some alias) = (refl, λ h. refl)
  operand-Does (value_literal l) p = (refl, λ h. refl)
  operand-Does (value_param v) p = (refl, λ h. add_param_equals-keep_value print_int to_zstr k v p)
  operand-Does (value_expr s) p = (refl, λ h. refl)
  operand-Does value_part p = (refl, λ h. refl)
  operand-Does value_foreign p = (refl, λ h. refl)
  operand-Does (plain_value v) p = (refl, λ h. add_param_equals-keep_value print_int to_zstr k v p)

  two_kept :
      (v w : Val) (p : IParams)
      → (add_param_equals print_int to_zstr k w (add_param_equals print_int to_zstr k v p).0).0
        ≡ keep_value print_int k w (keep_value print_int k v p)
  two_kept v w p =
      add_param_equals-keep_value print_int to_zstr k w (add_param_equals print_int to_zstr k v p).0
      ∙ ap (keep_value print_int k w) (add_param_equals-keep_value print_int to_zstr k v p)

  raw-Does :
      (r : Raw) (values : Option Arr) (p : IParams)
      → D
          (raw_known alias_of r)
          (option_step merged values)
          p
          (raw_text quoted print_int to_zstr k alias_of array_merge r values p)
  unfolding raw_text apply_all
  raw-Does (raw_expr s) none p = (refl, λ h. refl)
  raw-Does (raw_expr s) (some values) p = (refl, λ h. refl)
  raw-Does raw_part values p = (refl, λ h. ground (arith, h))
  raw-Does raw_foreign values p = (refl, λ h. ground (arith, h))

  and_true : (b : Bool) → (b && true) ≡ b
  and_true b = ground arith

  pub prefixed-Does :
      (head : Bytes) (known : Bool) (steps : List Step) (p : IParams) (e : Emitted)
      → D known steps p e
      → D known steps p (prefixed quoted print_int to_zstr k alias_of array_merge head e)
  unfolding apply_all
  prefixed-Does head known steps p e h =
      rw (← and_true known, ← append-nil steps)
        (followed-Does quoted print_int to_zstr k alias_of array_merge head known true steps [] p e
          (e.0, plain []) h (refl, λ h. refl))

  cond-Does :
      (head name : Bytes) (t : Test) (cs : Conds) (p : IParams)
      → let e = test_text quoted print_int to_zstr k alias_of array_merge name t p in
        let rest = where_text quoted print_int to_zstr k alias_of array_merge false name cs e.0 in
        D (test_known alias_of t) (test_steps t) p e
        → D (conds_known alias_of cs) (conds_steps cs) e.0 rest
        → D
            (test_known alias_of t && conds_known alias_of cs)
            (test_steps t ++ conds_steps cs)
            p
            (followed head e rest)
  cond-Does head name t cs p =
      let e = test_text quoted print_int to_zstr k alias_of array_merge name t p in
      followed-Does quoted print_int to_zstr k alias_of array_merge head (test_known alias_of t)
        (conds_known alias_of cs) (test_steps t) (conds_steps cs) p e
        (where_text quoted print_int to_zstr k alias_of array_merge false name cs e.0)

  mutual
    unfolding test_text where_text test_known conds_known test_steps conds_steps apply_all

    test-Does :
        (name : Bytes) (t : Test) (p : IParams)
        → D
            (test_known alias_of t)
            (test_steps t)
            p
            (test_text quoted print_int to_zstr k alias_of array_merge name t p)
    test-Does name (basic op v) p =
        prefixed-Does (codes " " ++ (name ++ (codes " " ++ op))) (operand_known alias_of v)
          (operand_steps v) p (operand_text quoted print_int to_zstr k alias_of array_merge v p)
          (operand-Does v p)
    test-Does name (nested cs) p =
        in_brackets-Does quoted print_int to_zstr k alias_of array_merge (conds_known alias_of cs)
          (conds_steps cs) p
          (where_text quoted print_int to_zstr k alias_of array_merge true [] cs p)
          (where-Does true [] cs p)
    test-Does name (is_null negated) p = (refl, λ h. refl)
    test-Does name (between negated none) p = (refl, λ h. refl)
    test-Does name (between negated (some (v, w))) p = (refl, λ h. two_kept v w p)
    test-Does name (among negated none) p = (refl, λ h. refl)
    test-Does name (among negated (some values)) p =
        (refl, λ h. add_param_list-push_all print_int to_zstr k values p)
    test-Does name (raw r values) p = raw-Does r values p
    test-Does name unknown p = (refl, λ h. refl)

    where-Does :
        (first : Bool) (old : Bytes) (cs : Conds) (p : IParams)
        → D
            (conds_known alias_of cs)
            (conds_steps cs)
            p
            (where_text quoted print_int to_zstr k alias_of array_merge first old cs p)
    where-Does first old no_conds p = (refl, λ h. refl)
    where-Does first old (cond bop (column_join j) t cs) p =
        let e = emit_join quoted print_int to_zstr k 0 [] [] j p in
        followed-Does quoted print_int to_zstr k alias_of array_merge (lead first bop)
          (join_known j) (conds_known alias_of cs) (map one (join_values j)) (conds_steps cs) p e
          (where_text quoted print_int to_zstr k alias_of array_merge false old cs e.0)
          (emit_join-Does quoted print_int to_zstr k alias_of array_merge 0 [] [] j p)
          (where-Does false old cs e.0)
    where-Does first old (cond bop column_foreign t cs) p = (refl, λ h. refl)
    where-Does first old (cond bop (column_name s) t cs) p =
        cond-Does (lead first bop) (quoted s) t cs p (test-Does (quoted s) t p)
          (where-Does false (quoted s) cs _)
    where-Does first old (cond bop (column_attr ta) t cs) p =
        let name = name_of quoted print_int to_zstr k alias_of array_merge (column_attr ta) old in
        cond-Does (lead first bop) name t cs p (test-Does name t p) (where-Does false name cs _)
    where-Does first old (cond bop column_part t cs) p =
        cond-Does (lead first bop) old t cs p (test-Does old t p) (where-Does false old cs _)

pub where_sql_binds :
    (quoted : Bytes → Bytes) (print_int : ℕ → Bytes) (to_zstr : Val → Bytes) (k : Kind)
    (alias_of : Bytes → Option Bytes) (array_merge : Arr → Arr → Arr) (cs : Conds) (p : IParams)
    → let (after, text) = where_sql quoted print_int to_zstr k alias_of array_merge cs p in
      (not (stopped text) ≡ conds_known alias_of cs)
      × (conds_known alias_of cs ≡ true
          → after ≡ apply_all quoted print_int to_zstr k alias_of array_merge (conds_steps cs) p)
where_sql_binds quoted print_int to_zstr k alias_of array_merge cs p =
    where-Does quoted print_int to_zstr k alias_of array_merge true [] cs p
