-- ===== src/Sql/Where/Bound.antt =====
-- The parameters that the conditions behind WHERE bind, and their errors.
use zpp_cpp.Common.{
  ℕ, ◌+◌, ◌≡◌, refl, sym, ◌∙◌, Bool, true, false, not, ◌&&◌, List, [], ◌∷◌, ◌++◌, map, Option, none,
  some, Bytes, Bool-cases, inl, inr, arith,
}
use zpp_cpp.Php.{Val, Arr, empty, entry, size}
use zpp_cpp.Php.Lists.{push_back}
use zpp_cpp.Sql.Params.{Kind, IParams, add_param_list, list_loop}
use zpp_cpp.Sql.Emit.{JoinExpr, Emitted, stopped, emit_join}
use zpp_cpp.Sql.Emit.Order.{keep_value, join_known, join_values, bind_all, emit_join_binds}
use zpp_cpp.Sql.Where.{
  column_name, column_attr, column_join, column_part, column_foreign, Operand, value_attr,
  value_param, value_foreign, plain_value, Raw, raw_expr, Test, basic, nested, is_null, between,
  among, raw, unknown, Conds, no_conds, cond, followed, in_brackets,
}

-- What is done to the parameters: a value is bound, a list of values, or an array is merged in.
pub data Step : Type 0 where
  one : Val → Step
  many merged : Arr → Step

abbrev pub has : {A : Type 0} → Option A → Bool
has none = false
has (some a) = true

module _ (alias_of : Bytes → Option Bytes) where
  abbrev pub operand_known : Operand → Bool
  operand_known (value_attr ta) = has (alias_of ta.table)
  operand_known value_foreign = false
  operand_known _ = true

  abbrev pub raw_known : Raw → Bool
  raw_known (raw_expr s) = true
  raw_known _ = false

  -- Every object of the conditions is of the kind that its place asks for, every table is one of the
  -- statement, and every list of values is there.
  unfoldable mutual
    pub test_known : Test → Bool
    test_known (basic op v) = operand_known v
    test_known (nested cs) = conds_known cs
    test_known (is_null negated) = true
    test_known (between negated values) = has values
    test_known (among negated values) = has values
    test_known (raw r values) = raw_known r
    test_known unknown = true

    pub conds_known : Conds → Bool
    conds_known no_conds = true
    conds_known (cond bop (column_join j) t cs) = join_known j && conds_known cs
    conds_known (cond bop column_foreign t cs) = false
    conds_known (cond bop (column_name s) t cs) = test_known t && conds_known cs
    conds_known (cond bop (column_attr ta) t cs) = test_known t && conds_known cs
    conds_known (cond bop column_part t cs) = test_known t && conds_known cs

abbrev pub operand_steps : Operand → List Step
operand_steps (value_param v) = one v ∷ []
operand_steps (plain_value v) = one v ∷ []
operand_steps _ = []

abbrev pub pair_steps : Option (Val × Val) → List Step
pair_steps none = []
pair_steps (some (v, w)) = one v ∷ one w ∷ []

abbrev pub option_step : (Arr → Step) → Option Arr → List Step
option_step step none = []
option_step step (some a) = step a ∷ []

-- The steps of the conditions, in the order of the text.
unfoldable mutual
  pub test_steps : Test → List Step
  test_steps (basic op v) = operand_steps v
  test_steps (nested cs) = conds_steps cs
  test_steps (is_null negated) = []
  test_steps (between negated values) = pair_steps values
  test_steps (among negated values) = option_step many values
  test_steps (raw r values) = option_step merged values
  test_steps unknown = []

  pub conds_steps : Conds → List Step
  conds_steps no_conds = []
  conds_steps (cond bop (column_join j) t cs) = map one (join_values j) ++ conds_steps cs
  conds_steps (cond bop column_foreign t cs) = []
  conds_steps (cond bop (column_name s) t cs) = test_steps t ++ conds_steps cs
  conds_steps (cond bop (column_attr ta) t cs) = test_steps t ++ conds_steps cs
  conds_steps (cond bop column_part t cs) = test_steps t ++ conds_steps cs

-- An array with the values of a list behind it.
abbrev pub push_all : Arr → Arr → Arr
push_all empty a = a
push_all (entry j v r) a = push_all r (push_back v a)

list_loop-push_all :
    (print_int : ℕ → Bytes) (to_zstr : Val → Bytes) (k : Kind) (ix : ℕ) (first : Bool)
    (values a : Arr)
    → (list_loop print_int to_zstr k ix first values a).0 ≡ push_all values a
unfolding list_loop
list_loop-push_all print_int to_zstr k ix first empty a = refl
list_loop-push_all print_int to_zstr k ix first (entry j v r) a =
    list_loop-push_all print_int to_zstr k (ix + 1) false r (push_back v a)

pub add_param_list-push_all :
    (print_int : ℕ → Bytes) (to_zstr : Val → Bytes) (k : Kind) (values : Arr) (p : IParams)
    → (add_param_list print_int to_zstr k values p).0
      ≡ record p { params = push_all values p.params }
unfolding add_param_list
add_param_list-push_all print_int to_zstr k values p =
    rw (list_loop-push_all print_int to_zstr k (size p.params) true values p.params) refl

module _ (quoted : Bytes → Bytes) (print_int : ℕ → Bytes) (to_zstr : Val → Bytes) (k : Kind)
    (alias_of : Bytes → Option Bytes) (array_merge : Arr → Arr → Arr) where
  abbrev pub apply : Step → IParams → IParams
  apply (one v) p = keep_value print_int k v p
  apply (many values) p = record p { params = push_all values p.params }
  apply (merged values) p = record p { params = array_merge p.params values }

  unfoldable pub apply_all : List Step → IParams → IParams
  apply_all [] p = p
  apply_all (s ∷ steps) p = apply_all steps (apply s p)

  pub apply_all-append :
      (xs ys : List Step) (p : IParams) → apply_all (xs ++ ys) p ≡ apply_all ys (apply_all xs p)
  unfolding apply_all
  apply_all-append [] ys p = refl
  apply_all-append (s ∷ xs) ys p = apply_all-append xs ys (apply s p)

  pub apply_all-map :
      (vs : List Val) (p : IParams)
      → apply_all (map one vs) p ≡ bind_all quoted print_int to_zstr k vs p
  unfolding apply_all bind_all
  apply_all-map [] p = refl
  apply_all-map (v ∷ vs) p = apply_all-map vs (keep_value print_int k v p)

  -- The call returns without an error exactly where all is known, and then has done the steps.
  abbrev pub Does : Bool → List Step → IParams → Emitted → Type 0
  Does known steps p (after, r) =
      (not (stopped r) ≡ known) × (known ≡ true → after ≡ apply_all steps p)

  pub followed-Does :
      (head : Bytes) (kl kr : Bool) (xs ys : List Step) (p : IParams) (e rest : Emitted)
      → Does kl xs p e
      → Does kr ys e.0 rest
      → Does (kl && kr) (xs ++ ys) p (followed head e rest)
  followed-Does head kl kr xs ys p (p1, l) (p2, r) (errl, alll) (errr, allr) =
      elim (Bool-cases (stopped l)) [
        | inl bad ↦ rw bad (ground (arith, errl, bad), λ h. ground (arith, errl, bad, h))
        | inr good ↦ elim (Bool-cases (stopped r)) [
          | inl bad ↦ rw (good, bad) (ground (arith, errr, bad), λ h. ground (arith, errr, bad, h))
          | inr fine ↦
              rw (good, fine)
                (
                  ground (arith, errl, errr, good, fine),
                  λ h.
                      allr (ground (arith, h))
                      ∙ rw (alll (ground (arith, h))) (sym (apply_all-append xs ys p)),
                )
        ]
      ]

  pub in_brackets-Does :
      (known : Bool) (steps : List Step) (p : IParams) (e : Emitted)
      → Does known steps p e
      → Does known steps p (in_brackets e)
  in_brackets-Does known steps p (q, r) (err, all) = elim (Bool-cases (stopped r)) [
    | inl bad ↦ rw bad (err, all)
    | inr good ↦ rw good (rw good at err, all)
  ]

  pub emit_join-Does :
      (ix : ℕ) (la ra : Bytes) (j : JoinExpr) (p : IParams)
      → Does
          (join_known j)
          (map one (join_values j))
          p
          (emit_join quoted print_int to_zstr k ix la ra j p)
  emit_join-Does ix la ra j p =
      let (err, all) = emit_join_binds quoted print_int to_zstr k ix la ra j p in
      (err, λ h. all h ∙ sym (apply_all-map (join_values j) p))
