-- ===== src/Sql/Select/Stored.antt =====
-- What `ISql::select` stores in the parameters of a statement.
use zpp_cpp.Common.{
  ℕ, ◌≡◌, ap, Bool, true, not, ◌&&◌, List, [], ◌++◌, Option, some, Bytes, Bool-cases, inl, inr,
  arith,
}
use zpp_cpp.Php.{Val, Arr}
use zpp_cpp.Sql.Params.{Kind, IParams, set_sql, use_own_values}
use zpp_cpp.Sql.Emit.{Emitted, stopped}
use zpp_cpp.Sql.Where.Bound.{Step, has, apply_all, Does}
use zpp_cpp.Sql.Joins.{JoinTables}
use zpp_cpp.Sql.Select.{Bindings, alias_in, finished}
use zpp_cpp.Sql.Select.Sound.{
  joins_steps, joins_known, limit_steps, limit_known, option_conds, option_known,
}

-- The table, the joins, the conditions and the limit are all there and of known kinds.
abbrev pub select_known : (Val → Bytes) → (Bytes → Option Bytes) → Bindings → JoinTables → Bool
select_known to_zstr alias_of b jt =
    (has jt.prime && joins_known jt.joins)
    && (option_known alias_of b.conditions && (true && limit_known to_zstr b.limits))

-- The steps of the joins, then of the conditions, then of the limit.
abbrev pub select_steps : Bindings → JoinTables → List Step
select_steps b jt =
    joins_steps jt.joins ++ (option_conds b.conditions ++ ([] ++ limit_steps b.limits))

module _ (quoted : Bytes → Bytes) (print_int : ℕ → Bytes) (to_zstr : Val → Bytes) (k : Kind)
    (array_merge : Arr → Arr → Arr) where
  abbrev D : JoinTables → Bool → List Step → IParams → Emitted → Type 0
  D jt known steps p e =
      Does quoted print_int to_zstr k (alias_in quoted print_int to_zstr k array_merge jt)
        array_merge known steps p e

  -- The statement is stored with the values that the steps bind.
  abbrev pub Stored : JoinTables → Bool → List Step → IParams → Emitted → Type 0
  Stored jt known steps p (after, text) =
      (not (stopped text) ≡ known)
      × (known ≡ true
          → after
            ≡ use_own_values (
                set_sql (some text.value) (
                  apply_all quoted print_int to_zstr k
                    (alias_in quoted print_int to_zstr k array_merge jt) array_merge steps p)))

  pub finished-Stored :
      (jt : JoinTables) (known : Bool) (steps : List Step) (p : IParams) (e : Emitted)
      → D jt known steps p e
      → Stored jt known steps p (finished quoted print_int to_zstr k array_merge e)
  finished-Stored jt known steps p (q, r) (err, all) = elim (Bool-cases (stopped r)) [
    | inl bad ↦ rw bad (err, λ h. ground (arith, err, bad, h))
    | inr good ↦ rw good (err, λ h. ap (λ s. use_own_values (set_sql (some r.value) s)) (all h))
  ]
