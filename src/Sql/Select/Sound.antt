-- ===== src/Sql/Select/Sound.antt =====
-- `ISql::select` binds what its joins, its conditions and its limit name.
use zpp_cpp.Common.{
  ℕ, ◌+◌, ◌≡◌, refl, ◌∙◌, Bool, true, false, not, ◌&&◌, List, [], ◌∷◌, ◌++◌, map, Option, none,
  some, ltb, length, Bytes, codes, arith,
}
use zpp_cpp.Php.{Val, Arr}
use zpp_cpp.Sql.Params.{
  Kind, positional, named, IParams, Part, param, literal, other_part, value, param_literal,
  param_str, checked, add_param_equals,
}
use zpp_cpp.Sql.Emit.{JoinExpr, Emitted, stopped, plain, emit_join, text_or_nil}
use zpp_cpp.Sql.Emit.Order.{add_param_equals-keep_value, join_known, join_values}
use zpp_cpp.Sql.Where.{Conds, followed}
use zpp_cpp.Sql.Where.Bound.{
  Step, one, has, conds_known, conds_steps, apply_all, Does, followed-Does, emit_join-Does,
}
use zpp_cpp.Sql.Where.Sound.{prefixed-Does}
use zpp_cpp.Sql.Joins.{Table, get_name, get_alias, JoinInfo}
use zpp_cpp.Sql.Select.{
  spaced_alias, on_text, join_text, joins_text, from_jt, join_head, option_alias, returned, plimit,
  limit_text, limit_part,
}

-- The steps of the conditions of a join, and of all joins.
abbrev pub on_steps : List JoinExpr → List Step
on_steps [] = []
on_steps (e ∷ es) = map one (join_values e) ++ on_steps es

abbrev pub on_known : List JoinExpr → Bool
on_known [] = true
on_known (e ∷ es) = join_known e && on_known es

abbrev pub joins_steps : List JoinInfo → List Step
joins_steps [] = []
joins_steps (ji ∷ joins) = on_steps ji.conditions ++ joins_steps joins

-- Every join has a left table, and conditions of known objects.
abbrev pub joins_known : List JoinInfo → Bool
joins_known [] = true
joins_known (ji ∷ joins) = (has ji.left_table && on_known ji.conditions) && joins_known joins

abbrev pub part_steps : Option Part → List Step
part_steps (some (param v)) = one v ∷ []
part_steps (some (value v)) = one v ∷ []
part_steps _ = []

-- A limit is none, a parameter, a value, or a literal with a text.
abbrev pub part_known : (Val → Bytes) → Option Part → Bool
part_known to_zstr (some (literal v)) = ltb 0 (length (to_zstr v))
part_known to_zstr (some other_part) = false
part_known to_zstr _ = true

abbrev pub limit_steps : Option (Option Part × Option Part) → List Step
limit_steps none = []
limit_steps (some (l, o)) = part_steps l ++ part_steps o

abbrev pub limit_known : (Val → Bytes) → Option (Option Part × Option Part) → Bool
limit_known to_zstr none = true
limit_known to_zstr (some (l, o)) = part_known to_zstr l && part_known to_zstr o

abbrev pub option_conds : Option Conds → List Step
option_conds none = []
option_conds (some cs) = conds_steps cs

abbrev pub option_known : (Bytes → Option Bytes) → Option Conds → Bool
option_known alias_of none = true
option_known alias_of (some cs) = conds_known alias_of cs

module _ (quoted : Bytes → Bytes) (print_int : ℕ → Bytes) (to_zstr : Val → Bytes) (k : Kind)
    (alias_of : Bytes → Option Bytes) (array_merge : Arr → Arr → Arr) where
  abbrev D : Bool → List Step → IParams → Emitted → Type 0
  D known steps p e = Does quoted print_int to_zstr k alias_of array_merge known steps p e

  pub both :
      (head : Bytes) (kl kr : Bool) (xs ys : List Step) (p : IParams) (e rest : Emitted)
      → D kl xs p e
      → D kr ys e.0 rest
      → D (kl && kr) (xs ++ ys) p (followed head e rest)
  both head kl kr xs ys p e rest =
      followed-Does quoted print_int to_zstr k alias_of array_merge head kl kr xs ys p e rest

  pub headed :
      (head : Bytes) (known : Bool) (steps : List Step) (p : IParams) (e : Emitted)
      → D known steps p e
      → D known steps p (followed head e (e.0, plain []))
  headed head known steps p e h =
      prefixed-Does quoted print_int to_zstr k alias_of array_merge head known steps p e h

  pub nothing : (p : IParams) → D true [] p (p, plain [])
  unfolding apply_all
  nothing p = (refl, λ h. refl)

  on-Does :
      (ix : ℕ) (la ra : Bytes) (es : List JoinExpr) (p : IParams)
      → D
          (on_known es)
          (on_steps es)
          p
          (on_text quoted print_int to_zstr k array_merge ix la ra es p)
  unfolding on_text
  on-Does ix la ra [] p = nothing p
  on-Does ix la ra (e ∷ es) p =
      let here = emit_join quoted print_int to_zstr k ix la ra e p in
      both [] (join_known e) (on_known es) (map one (join_values e)) (on_steps es) p here
        (on_text quoted print_int to_zstr k array_merge (ix + 1) la ra es here.0)
        (emit_join-Does quoted print_int to_zstr k alias_of array_merge ix la ra e p)
        (on-Does (ix + 1) la ra es here.0)

  join-Does :
      (ji : JoinInfo) (left : Option Table) (p : IParams)
      → D
          (has left && on_known ji.conditions)
          (on_steps ji.conditions)
          p
          (join_text quoted print_int to_zstr k array_merge ji left p)
  join-Does ji none p = (refl, λ h. ground (arith, h))
  join-Does ji (some left) p =
      headed (join_head quoted print_int to_zstr k array_merge ji left) (on_known ji.conditions)
        (on_steps ji.conditions) p
        (on_text quoted print_int to_zstr k array_merge 0 (text_or_nil (get_alias left))
          (option_alias quoted print_int to_zstr k array_merge ji.right_table) ji.conditions p)
        (on-Does 0 (text_or_nil (get_alias left))
          (option_alias quoted print_int to_zstr k array_merge ji.right_table) ji.conditions p)

  joins-Does :
      (joins : List JoinInfo) (p : IParams)
      → D
          (joins_known joins)
          (joins_steps joins)
          p
          (joins_text quoted print_int to_zstr k array_merge joins p)
  unfolding joins_text
  joins-Does [] p = nothing p
  joins-Does (ji ∷ joins) p =
      let here = join_text quoted print_int to_zstr k array_merge ji ji.left_table p in
      both [] (has ji.left_table && on_known ji.conditions) (joins_known joins)
        (on_steps ji.conditions) (joins_steps joins) p here
        (joins_text quoted print_int to_zstr k array_merge joins here.0)
        (join-Does ji ji.left_table p) (joins-Does joins here.0)

  pub from-Does :
      (prime : Option Table) (joins : List JoinInfo) (p : IParams)
      → D
          (has prime && joins_known joins)
          (joins_steps joins)
          p
          (from_jt quoted print_int to_zstr k array_merge prime joins p)
  unfolding from_jt
  from-Does none joins p = (refl, λ h. ground (arith, h))
  from-Does (some prime) joins p =
      headed
        (codes " FROM "
          ++ (quoted (text_or_nil (get_name prime)) ++ spaced_alias (get_alias prime)))
        (joins_known joins) (joins_steps joins) p
        (joins_text quoted print_int to_zstr k array_merge joins p) (joins-Does joins p)

  -- `paramLiteral` has an error exactly where the text is empty.
  checked_errors :
      (p : IParams) (text : Bytes)
      → not (
          stopped
            (returned quoted print_int to_zstr k array_merge
              (checked print_int to_zstr (p, text))).1)
        ≡ ltb 0 (length text)
  checked_errors p [] = refl
  checked_errors p (c ∷ s) = ground arith

  placeholder :
      (kind : Kind) (v : Val) (p : IParams)
      → ltb 0 (length (add_param_equals print_int to_zstr kind v p).1) ≡ true
  unfolding add_param_equals param_str
  placeholder positional v p = ground arith
  placeholder named v p = ground arith

  literal-Does :
      (v : Part) (p : IParams)
      → D
          (part_known to_zstr (some v))
          (part_steps (some v))
          p
          (returned quoted print_int to_zstr k array_merge (param_literal print_int to_zstr k v p))
  unfolding param_literal apply_all
  literal-Does (param v) p =
      let (q, text) = add_param_equals print_int to_zstr k v p in
      (
        checked_errors q text ∙ placeholder k v p,
        λ h. add_param_equals-keep_value print_int to_zstr k v p,
      )
  literal-Does (literal v) p = (checked_errors p (to_zstr v), λ h. refl)
  literal-Does other_part p = (refl, λ h. refl)
  literal-Does (value v) p =
      let (q, text) = add_param_equals print_int to_zstr k v p in
      (
        checked_errors q text ∙ placeholder k v p,
        λ h. add_param_equals-keep_value print_int to_zstr k v p,
      )

  plimit-Does :
      (word : Bytes) (o : Option Part) (p : IParams)
      → D
          (part_known to_zstr o)
          (part_steps o)
          p
          (plimit quoted print_int to_zstr k array_merge word o p)
  plimit-Does word none p = nothing p
  plimit-Does word (some v) p =
      headed word (part_known to_zstr (some v)) (part_steps (some v)) p
        (returned quoted print_int to_zstr k array_merge (param_literal print_int to_zstr k v p))
        (literal-Does v p)

  pub limit-Does :
      (o : Option (Option Part × Option Part)) (p : IParams)
      → D
          (limit_known to_zstr o)
          (limit_steps o)
          p
          (limit_part quoted print_int to_zstr k array_merge o p)
  unfolding limit_text
  limit-Does none p = nothing p
  limit-Does (some (l, o)) p =
      let first = plimit quoted print_int to_zstr k array_merge (codes " LIMIT ") l p in
      both [] (part_known to_zstr l) (part_known to_zstr o) (part_steps l) (part_steps o) p first
        (plimit quoted print_int to_zstr k array_merge (codes " OFFSET ") o first.0)
        (plimit-Does (codes " LIMIT ") l p) (plimit-Does (codes " OFFSET ") o first.0)
