-- ===== src/RouteMatch.antt =====
-- src/wcc/route_match.cpp and route_match.h: the match of a request against a route set, and the
-- call that a route names. The PCRE match of a route's expression is the parameter `pcre`: `none`
-- where `preg::matches` does not return a positive number, else its results. PHP's `url_decode` and
-- `array_merge` are parameters too. The reflection of methods, services, roles, the call itself and
-- the members that only these use are not modelled; an error is kept as a Boolean, not as its text.
pub mod Find
pub mod Args
pub mod Prepare
pub mod Added
use zpp_cpp.Common.{
  ℕ, ◌+◌, Bool, true, false, not, ◌&&◌, List, [], ◌∷◌, Option, none, some, bit_and, ltb, ◌==◌,
  if◌then◌else◌, Bytes, codes, equal,
}
use zpp_cpp.Php
use zpp_cpp.Php.{Key, name, index, Val, long, str, arr, Arr, empty, entry, text_of, is_string}
use zpp_cpp.Route
use zpp_cpp.Route.{Route}
use zpp_cpp.RouteSet.{Slot, one, many, Table, RouteSet, is_empty}

pub record RouteMatch : Type 0 where
  pub route : Option Route
  pub ob_args : Arr
  pub match_args : Arr
  pub uri : Bytes
  pub module_name : Bytes
  pub ob_class : Bytes
  pub ob_method : Bytes
  pub verb_flag : ℕ
  pub ajax_flag : ℕ

unfoldable pub construct : Bytes → ℕ → ℕ → RouteMatch → RouteMatch
construct uri verbs ajax m = record m { uri = uri; verb_flag = verbs; ajax_flag = ajax }

-- `args.zarray()` is null for what is no array, here the empty one.
abbrev pub array_of : Option Val → Arr
array_of (some (arr a)) = a
array_of _ = empty

unfoldable pub set_call_info : Bytes → Bytes → Val → RouteMatch → RouteMatch
set_call_info obclass obmethod args m = record m {
  ob_class = obclass;
  ob_method = obmethod;
  ob_args = array_of (some args);
}

-- `testRoute` on a route object: both flags have to share a bit with the route.
unfoldable pub accepts : RouteMatch → Route → Bool
accepts m r = not (bit_and m.verb_flag r.verbs == 0) && not (bit_and m.ajax_flag r.ajax == 0)

abbrev pub test_route : RouteMatch → Route → Option Route
test_route m r = if accepts m r then some r else none

unfoldable pub first_in : RouteMatch → List Route → Option Route
first_in m [] = none
first_in m (r ∷ rs) =
    let later = first_in m rs in elim (test_route m r) [ none ↦ later | some q ↦ some q ]

unfoldable pub first_match : RouteMatch → Slot → Option Route
first_match m (one r) = test_route m r
first_match m (many rs) = first_in m rs

unfoldable pub try_fetch : Bytes → Table → Option Slot
try_fetch k [] = none
try_fetch k ((j, slot) ∷ table) = if equal j k then some slot else try_fetch k table

abbrev pub found : RouteMatch → Route → Arr → RouteMatch × Bool
found m r args = (record m { route = some r; match_args = args }, true)

module _ (pcre : Bytes → Bytes → Option Arr) where
  -- The loop over the varying routes: where the expression matches but no route of the entry takes
  -- the flags, the search goes on.
  unfoldable pub find_vary : RouteMatch → Table → RouteMatch × Bool
  find_vary m [] = (m, false)
  find_vary m ((pattern, slot) ∷ table) =
      let rest = find_vary m table in
      elim (pcre pattern m.uri) [
        | none ↦ rest
        | some args ↦ elim (first_match m slot) [ none ↦ rest | some r ↦ found m r args ]
      ]

  abbrev pub find_from : RouteMatch → RouteSet → RouteMatch × Bool
  find_from m rs = elim (try_fetch m.uri rs.fixed) [
    | none ↦ find_vary m rs.vary
    | some slot ↦ elim (first_match m slot) [
      | none ↦ find_vary m rs.vary
      | some r ↦ found m r empty
    ]
  ]

  unfoldable pub find_route : RouteSet → RouteMatch → RouteMatch × Bool
  find_route rs m = find_from (record m { route = none }) rs

-- `htab_ptr::try_fetch` with a value for the key.
abbrev pub fetch_value : Val → Arr → Option Val
fetch_value (str s) a = Php.get (name s) a
fetch_value (long n) a = Php.get (index n) a
fetch_value _ a = none

module _ (url_decode : Bytes → Bytes) where
  abbrev pub decoded : Val → Val
  decoded (str s) = str (url_decode s)
  decoded v = v

  -- The loop of `fetchArgs`: an index without a match is an error, and the loop goes on. The result
  -- is the arguments, and whether no error was written.
  unfoldable pub fetch_loop : Arr → Arr → Arr → Bool → Arr × Bool
  fetch_loop empty margs args ok = (args, ok)
  fetch_loop (entry k v params) margs args ok = elim (fetch_value v margs) [
    | none ↦ fetch_loop params margs args false
    | some test ↦ fetch_loop params margs (Php.set k (decoded test) args) ok
  ]

  unfoldable pub fetch_args : Route → RouteMatch → Arr × Bool
  fetch_args r m =
      let ct = Php.size r.params in
      if ltb 0 ct
      then (if Php.size m.match_args == ct + 1
          then fetch_loop r.params m.match_args empty true
          else (empty, false))
      else (empty, true)

-- An assignment under `isString`.
abbrev pub string_or : Option Val → Bytes → Bytes
string_or (some (str s)) old = s
string_or _ old = old

unfoldable pub set_tuple12 : Arr → RouteMatch → RouteMatch
set_tuple12 tg m =
    if is_string (Php.get (name (codes "_obj")) tg)
    then record m {
      ob_class = text_of (Php.get (name (codes "_obj")) tg);
      ob_method = string_or (Php.get (name (codes "_fun")) tg) m.ob_method;
    }
    else record m {
      ob_class = string_or (Php.get (index 0) tg) m.ob_class;
      ob_method = string_or (Php.get (index 1) tg) m.ob_method;
    }

-- `verify_has_method`: whether it returns no error.
unfoldable pub verify_has_method : RouteMatch → Bool
verify_has_method m = not (is_empty m.ob_class) && not (is_empty m.ob_method)

-- An assignment of a text under `if (temp.size())`.
abbrev pub text_or_old : Option Val → Bytes → Bytes
text_or_old v old = if is_empty (text_of v) then old else text_of v

module _ (array_merge : Arr → Arr → Arr) where
  -- The guard `!module_name_.size() ==0` holds exactly when a module name is already set.
  unfoldable pub set_tuple14 : Arr → RouteMatch → RouteMatch
  set_tuple14 tg m = record m {
    module_name =
        if is_empty m.module_name
        then m.module_name
        else string_or (Php.get (index 0) tg) m.module_name;
    ob_class = string_or (Php.get (index 1) tg) m.ob_class;
    ob_method = string_or (Php.get (index 2) tg) m.ob_method;
    ob_args = elim (Php.get (index 3) tg) [
      | some (arr targs) ↦ if ltb 0 (Php.size m.ob_args) then array_merge targs m.ob_args else targs
      | _ ↦ m.ob_args
    ];
  }

  abbrev pub set_tuple : Arr → RouteMatch → RouteMatch
  set_tuple tg m =
      if ltb 2 (Php.size tg) && Php.has_key (index 2) tg
      then set_tuple14 tg m
      else if ltb 1 (Php.size tg) && Php.has_key (index 1) tg
      then set_tuple12 tg m
      else m

  -- What `prepare_call` takes from a target that is an array: the positions, and then the names.
  unfoldable pub set_target_array : Arr → RouteMatch → RouteMatch
  set_target_array tg m =
      let m' = set_tuple tg m in
      record m' {
        module_name = text_or_old (Php.get (name (codes "_mod")) tg) m'.module_name;
        ob_class = text_or_old (Php.get (name (codes "_obj")) tg) m'.ob_class;
        ob_method = text_or_old (Php.get (name (codes "_fun")) tg) m'.ob_method;
      }
