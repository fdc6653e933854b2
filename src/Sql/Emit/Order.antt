-- ===== src/Sql/Emit/Order.antt =====
-- The parameters that a condition binds, and its errors.
use zpp_cpp.Common.{
  ℕ, ◌≡◌, refl, sym, ◌∙◌, Bool, true, false, not, ◌&&◌, List, [], ◌∷◌, ◌++◌, Bytes, Bool-cases, inl,
  inr, arith, codes, ◌+◌,
}
use zpp_cpp.Php.{Val, str, name}
use zpp_cpp.Php
use zpp_cpp.Php.Lists.{push_back}
use zpp_cpp.Sql.Params.{Kind, positional, named, param_str, IParams, add_param_equals}
use zpp_cpp.Sql.Emit.{
  JoinExpr, join_expr, Operand, no_operand, object, column, scalar, Object, table_attr, literal,
  expr, condition, parameter, other_part, foreign, Emitted, stopped, spaced, bracketed, joined,
  emit_join, emit_operand, emit,
}

-- Every object of a condition is a part that `emit` takes.
unfoldable mutual
  pub join_known : JoinExpr → Bool
  join_known (join_expr l r op nextop) = operand_known l && operand_known r

  pub operand_known : Operand → Bool
  operand_known no_operand = true
  operand_known (object o) = object_known o
  operand_known (column s) = true
  operand_known (scalar s) = true

  pub object_known : Object → Bool
  object_known (condition j) = join_known j
  object_known other_part = false
  object_known foreign = false
  object_known (table_attr ta) = true
  object_known (literal l) = true
  object_known (expr s) = true
  object_known (parameter v) = true

-- The values of the parameters of a condition, from left to right.
unfoldable mutual
  pub join_values : JoinExpr → List Val
  join_values (join_expr l r op nextop) = operand_values l ++ operand_values r

  pub operand_values : Operand → List Val
  operand_values no_operand = []
  operand_values (object o) = object_values o
  operand_values (column s) = []
  operand_values (scalar s) = []

  pub object_values : Object → List Val
  object_values (condition j) = join_values j
  object_values (parameter v) = v ∷ []
  object_values other_part = []
  object_values foreign = []
  object_values (table_attr ta) = []
  object_values (literal l) = []
  object_values (expr s) = []

-- What the parameters are after a value has been bound: the named ones have it under the next name; the
-- others have the placeholder behind them, and not the value.
abbrev pub keep_value : (ℕ → Bytes) → Kind → Val → IParams → IParams
keep_value print_int positional v p = record p { params = push_back (str (codes "?")) p.params }
keep_value print_int named v p = record p {
  params = Php.set (name (codes ":p" ++ print_int (Php.size p.params + 1))) v p.params;
}

pub add_param_equals-keep_value :
    (print_int : ℕ → Bytes) (to_zstr : Val → Bytes) (k : Kind) (v : Val) (p : IParams)
    → (add_param_equals print_int to_zstr k v p).0 ≡ keep_value print_int k v p
unfolding add_param_equals param_str
add_param_equals-keep_value print_int to_zstr positional v p = refl
add_param_equals-keep_value print_int to_zstr named v p = refl

module _ (quoted : Bytes → Bytes) (print_int : ℕ → Bytes) (to_zstr : Val → Bytes) (k : Kind) where
  -- The values are bound one after the other.
  unfoldable pub bind_all : List Val → IParams → IParams
  bind_all [] p = p
  bind_all (v ∷ vs) p = bind_all vs (keep_value print_int k v p)

  bind_all-append :
      (vs ws : List Val) (p : IParams) → bind_all (vs ++ ws) p ≡ bind_all ws (bind_all vs p)
  unfolding bind_all
  bind_all-append [] ws p = refl
  bind_all-append (v ∷ vs) ws p = bind_all-append vs ws (keep_value print_int k v p)

  -- The call has an error exactly where an object is unknown, and else has bound the values.
  abbrev Meant : Bool → List Val → IParams → Emitted → Type 0
  Meant known values p (after, r) =
      (not (stopped r) ≡ known) × (known ≡ true → after ≡ bind_all values p)

  spaced-Meant :
      (known : Bool) (vs : List Val) (p : IParams) (e : Emitted)
      → Meant known vs p e
      → Meant known vs p (spaced e)
  spaced-Meant known vs p (q, r) (err, all) = elim (Bool-cases (stopped r)) [
    | inl bad ↦ rw bad (err, all)
    | inr good ↦ rw good (rw good at err, all)
  ]

  bracketed-Meant :
      (known : Bool) (vs : List Val) (p : IParams) (e : Emitted)
      → Meant known vs p e
      → Meant known vs p (bracketed e)
  bracketed-Meant known vs p (q, r) (err, all) = elim (Bool-cases (stopped r)) [
    | inl bad ↦ rw bad (err, all)
    | inr good ↦ rw good (rw good at err, all)
  ]

  joined-Meant :
      (start op : Bytes) (kl kr : Bool) (vl vr : List Val) (p : IParams) (left right : Emitted)
      → Meant kl vl p left
      → Meant kr vr left.0 right
      → Meant (kl && kr) (vl ++ vr) p (joined start op left right)
  joined-Meant start op kl kr vl vr p (p1, l) (p2, r) (errl, alll) (errr, allr) =
      elim (Bool-cases (stopped l)) [
        | inl bad ↦ rw bad (ground (arith, errl, bad), λ h. ground (arith, errl, bad, h))
        | inr good ↦ rw good (
          ground (arith, errl, errr, good),
          λ h.
              allr (ground (arith, h))
              ∙ rw (alll (ground (arith, h))) (sym (bind_all-append vl vr p)),
        )
      ]

  mutual
    unfolding join_known join_values emit_join bind_all

    emit_join-Meant :
        (ix : ℕ) (la ra : Bytes) (j : JoinExpr) (p : IParams)
        → Meant (join_known j) (join_values j) p (emit_join quoted print_int to_zstr k ix la ra j p)
    emit_join-Meant ix la ra (join_expr l r op nextop) p =
        let left = emit_operand quoted print_int to_zstr k la la ra l p in
        joined-Meant _ _ (operand_known l) (operand_known r) (operand_values l) (operand_values r) p
          left (emit_operand quoted print_int to_zstr k ra la ra r left.0)
          (emit_operand-Meant la la ra l p) (emit_operand-Meant ra la ra r left.0)

    emit_operand-Meant :
        (alias la ra : Bytes) (o : Operand) (p : IParams)
        → Meant
            (operand_known o)
            (operand_values o)
            p
            (emit_operand quoted print_int to_zstr k alias la ra o p)
    emit_operand-Meant alias la ra no_operand p = (refl, λ h. refl)
    emit_operand-Meant alias la ra (object o) p =
        spaced-Meant (object_known o) (object_values o) p
          (emit quoted print_int to_zstr k la ra o p) (emit-Meant la ra o p)
    emit_operand-Meant alias la ra (column s) p = (refl, λ h. refl)
    emit_operand-Meant alias la ra (scalar s) p = (refl, λ h. refl)

    emit-Meant :
        (la ra : Bytes) (o : Object) (p : IParams)
        → Meant (object_known o) (object_values o) p (emit quoted print_int to_zstr k la ra o p)
    emit-Meant la ra (table_attr ta) p = (refl, λ h. refl)
    emit-Meant la ra (literal l) p = (refl, λ h. refl)
    emit-Meant la ra (expr s) p = (refl, λ h. refl)
    emit-Meant la ra (condition j) p =
        bracketed-Meant (join_known j) (join_values j) p
          (emit_join quoted print_int to_zstr k 0 la ra j p) (emit_join-Meant 0 la ra j p)
    emit-Meant la ra (parameter v) p =
        (refl, λ h. add_param_equals-keep_value print_int to_zstr k v p)
    emit-Meant la ra other_part p = (refl, λ h. ground (arith, h))
    emit-Meant la ra foreign p = (refl, λ h. ground (arith, h))

pub emit_join_binds :
    (quoted : Bytes → Bytes) (print_int : ℕ → Bytes) (to_zstr : Val → Bytes) (k : Kind) (ix : ℕ)
    (la ra : Bytes) (j : JoinExpr) (p : IParams)
    → let (after, text) = emit_join quoted print_int to_zstr k ix la ra j p in
      (not (stopped text) ≡ join_known j)
      × (join_known j ≡ true → after ≡ bind_all quoted print_int to_zstr k (join_values j) p)
emit_join_binds quoted print_int to_zstr k ix la ra j p =
    emit_join-Meant quoted print_int to_zstr k ix la ra j p
