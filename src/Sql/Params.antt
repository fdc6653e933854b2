-- ===== src/Sql/Params.antt =====
-- src/wcd/iparams.cpp and namedparams.cpp: the values that are bound to a statement, and the
-- placeholders that stand for them in its text. The virtual methods are by cases on the class. The format
-- "%d" is the parameter `print_int`, and PHP's conversion of a value to a text `to_zstr`.
pub mod Bound
use zpp_cpp.Common.{
  ℕ, zero, suc, ◌+◌, ◌-◌, Bool, true, false, List, [], ◌∷◌, ◌++◌, Option, none, some, length, ltb,
  ◌==◌, if◌then◌else◌, Bytes, codes,
}
use zpp_cpp.Php
use zpp_cpp.Php.{Key, name, index, Val, str, Arr, empty, entry}
use zpp_cpp.Php.Lists.{push_back}
use zpp_cpp.Sql.{Return}

-- `IParams` itself, and its child class `NamedParams`
pub data Kind : Type 0 where
  positional named : Kind

pub record IParams : Type 0 where
  pub params : Arr
  pub sql : Option Bytes
  pub val_params : Arr
  pub ret_values : Arr

-- The argument of `paramLiteral`: a part of a statement with its value, another object, a value.
pub data Part : Type 0 where
  param literal : Val → Part
  other_part : Part
  value : Val → Part

module _ (print_int : ℕ → Bytes) (to_zstr : Val → Bytes) where
  -- `IParams::paramStr` and `NamedParams::paramStr`
  unfoldable pub param_str : Kind → ℕ → Bytes
  param_str positional ct = codes "?"
  param_str named ct = codes ":p" ++ print_int ct

  -- `addParamEquals` of both classes: that of `IParams` stores the placeholder itself.
  unfoldable pub add_param_equals : Kind → Val → IParams → IParams × Bytes
  unfolding param_str
  add_param_equals positional v p =
      let result = codes "?" in (record p { params = push_back (str result) p.params }, result)
  add_param_equals named v p =
      let result = param_str named (Php.size p.params + 1) in
      (record p { params = Php.set (name result) v p.params }, result)

  abbrev pub checked : IParams × Bytes → IParams × Return Bytes
  checked (p, text) = (
    p,
    record {
      value = text;
      error = if length text == 0 then codes "Unhandled paramLiteral argument" else [];
    },
  )

  -- `IParams::paramLiteral`
  unfoldable pub param_literal : Kind → Part → IParams → IParams × Return Bytes
  unfolding add_param_equals
  param_literal k (param v) p = checked (add_param_equals k v p)
  param_literal k (literal v) p = checked (p, to_zstr v)
  param_literal k other_part p = checked (p, [])
  param_literal k (value v) p = checked (add_param_equals k v p)

  abbrev comma : Bool → Bytes
  comma true = []
  comma false = codes ","

  -- The loop of `addParamList`; `ix` is the number of the parameter before, and `first` is set in the
  -- first round.
  unfoldable pub list_loop : Kind → ℕ → Bool → Arr → Arr → Arr × Bytes
  unfolding param_str
  list_loop k ix first empty params = (params, [])
  list_loop k ix first (entry j v r) params =
      let (rest, text) = list_loop k (ix + 1) false r (push_back v params) in
      (rest, comma first ++ (param_str k (ix + 1) ++ text))

  -- `IParams::addParamList`
  unfoldable pub add_param_list : Kind → Arr → IParams → IParams × Bytes
  unfolding list_loop
  add_param_list k values p =
      let (params, text) = list_loop k (Php.size p.params) true values p.params in
      (record p { params = params }, text)

  unfoldable pub make_loop : Kind → ℕ → ℕ → Bool → Bytes
  unfolding param_str
  make_loop k zero ix first = []
  make_loop k (suc n) ix first = comma first ++ (param_str k ix ++ make_loop k n (ix + 1) false)

  -- `IParams::makeList` for numbers that are not negative: `count` is the last of them.
  unfoldable pub make_list : Kind → ℕ → ℕ → Bytes
  unfolding make_loop
  make_list k start count = make_loop k (count + 1 - start) start true

-- `setSql`, `useOwnValues` and `wipe`
unfoldable pub set_sql : Option Bytes → IParams → IParams
set_sql s p = record p { sql = s }

unfoldable pub use_own_values : IParams → IParams
use_own_values p = record p { val_params = p.params }

unfoldable pub wipe : IParams → IParams
wipe p = record p { sql = none; params = empty; ret_values = empty; val_params = empty }
