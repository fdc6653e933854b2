-- ===== src/Sql/Joins/Tables.antt =====
-- The tables of a statement, and the connectives of the conditions of a join.
use zpp_cpp.Common.{
  ◌≡◌, ◌≢◌, refl, ap, List, [], ◌∷◌, ◌++◌, Option, none, some, Bytes, ℤ, pos, negsuc, lookup, store,
  lookup-store, equal_iff, arith, All, All-append, Option-cases, inl, inr,
}
use zpp_cpp.Sql.Emit.{JoinExpr, join_expr, Operand}
use zpp_cpp.Sql.Joins.{
  Table, get_alias, get_name, or_else, JoinInfo, JoinTables, add_condition, default_logic,
  add_table, get_table_alias, get_table, named_in, set_prime, add_join, joined_by, behind_first,
}

-- Every table is filed under its alias, or, where it has none, under its name.
abbrev pub IsFiled : JoinTables → Type 0
IsFiled jt =
    (n : Bytes) (t : Table)
    → lookup n jt.by_alias ≡ some t
    → or_else (get_alias t) (get_name t) ≡ some n

add_table_nameless :
    (t : Table) (jt : JoinTables)
    → or_else (get_alias t) (get_name t) ≡ none
    → (add_table t jt).0 ≡ jt
unfolding add_table
add_table_nameless t jt e = rw (e, add_table) refl

add_table_named :
    (t : Table) (jt : JoinTables) (n : Bytes)
    → or_else (get_alias t) (get_name t) ≡ some n
    → add_table t jt ≡ (record jt { by_alias = store n t jt.by_alias }, [])
unfolding add_table
add_table_named t jt n e = rw (e, add_table) refl

pub add_table-IsFiled : (t : Table) (jt : JoinTables) → IsFiled jt → IsFiled (add_table t jt).0
add_table-IsFiled t jt h = elim (Option-cases (or_else (get_alias t) (get_name t))) [
  | inl e ↦ rw (add_table_nameless t jt e) h
  | inr (n, e) ↦
      rw (add_table_named t jt n e) (λ m u found.
        ground (arith, lookup-store n m t jt.by_alias, equal_iff n m, h m u, found, e))
]

-- The tables of a statement stay filed under their alias or name when a join or the first table is added,
-- and the table that is added is found under its own.
pub add_join-IsFiled :
    (ji : JoinInfo) (left : Table) (n : Bytes) (jt : JoinTables)
    → IsFiled jt
    → ji.left_table ≡ some left
    → or_else (get_alias left) (get_name left) ≡ some n
    → (after : JoinTables) × (add_join ji jt ≡ some after)
      × (IsFiled after × (get_table_alias n after ≡ some left))
      × (IsFiled (set_prime left jt) × (get_table_alias n (set_prime left jt) ≡ some left))
unfolding add_join set_prime get_table_alias
add_join-IsFiled ji left n jt h there named =
    let base : JoinTables = record jt { joins = jt.joins ++ ji ∷ [] } in
    let found : (m : JoinTables) → lookup n (add_table left m).0.by_alias ≡ some left = λ m.
      rw (add_table_named left m n named)
        (ground (arith, lookup-store n n left m.by_alias, equal_iff n n)) in
    (
      (add_table left base).0,
      ap (λ o. joined_by o base) there,
      (add_table-IsFiled left base h, found base),
      (add_table-IsFiled left jt h, found jt),
    )

-- In tables that hold no other, the first table is not found by its name.
pub get_table-set_prime :
    (n : Bytes) (t : Table) (jt : JoinTables)
    → jt.by_alias ≡ []
    → get_table n (set_prime t jt) ≡ none
unfolding get_table set_prime named_in store
get_table-set_prime n t jt e =
    ap (named_in n) (none_behind (or_else (get_alias t) (get_name t)) refl)
  where
    none_behind :
        (o : Option Bytes)
        → or_else (get_alias t) (get_name t) ≡ o
        → behind_first (add_table t jt).0.by_alias ≡ []
    none_behind none nameless = rw (add_table_nameless t jt nameless, e) refl
    none_behind (some m) named = rw (add_table_named t jt m named) (rw (e, store) refl)

abbrev connective : JoinExpr → ℤ
connective (join_expr l r op nextop) = nextop

-- Every condition behind the first one has a connective.
abbrev pub IsConnected : List JoinExpr → Type 0
IsConnected [] = Unit
IsConnected (e ∷ conditions) = All (λ c. connective c ≢ pos 0) conditions

default_connects :
    (logic : ℤ) (e : JoinExpr) (conditions : List JoinExpr)
    → default_logic logic (e ∷ conditions) ≢ pos 0
default_connects (pos n) e conditions h = ground (arith, h)
default_connects (negsuc n) e conditions h = ground (arith, h)

-- A condition that is added, with a connective or without one, leaves every condition behind the first with
-- one.
pub add_condition-IsConnected :
    (l r : Operand) (op logic : ℤ) (ji : JoinInfo)
    → IsConnected ji.conditions
    → IsConnected (add_condition l r op logic ji).conditions
unfolding add_condition
add_condition-IsConnected l r op logic ji h = extended ji.conditions h
  where
    extended :
        (cs : List JoinExpr)
        → IsConnected cs
        → IsConnected (cs ++ join_expr l r op (default_logic logic cs) ∷ [])
    extended [] h = tt
    extended (e ∷ cs) h =
        All-append (λ c. connective c ≢ pos 0) cs
          (join_expr l r op (default_logic logic (e ∷ cs)) ∷ []) h (default_connects logic e cs, tt)
