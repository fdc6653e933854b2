-- ===== src/RouteSet.antt =====
-- src/wcc/route_set.cpp and route_set.h: the set of routes, its two tables, the compilation of a
-- route's pattern, and the index by name. The segments that the PCRE expression `rex_url` captures
-- from a pattern are the parameter `urlseg`. A route object is a value: what a caller later does to
-- an object that it has put into a set is not seen here.
pub mod Tables
pub mod Compile
pub mod Pieces
pub mod Compiled
pub mod Targets
pub mod Index
pub mod Names
pub mod Settings
use zpp_cpp.Common.{
  ℕ, suc, ◌+◌, Bool, true, false, not, ◌&&◌, List, [], ◌∷◌, ◌++◌, Option, none, some, map, length,
  get_or, drop, ltb, ◌==◌, if◌then◌else◌, Bytes, codes, equal, pos, negsuc,
}
use zpp_cpp.Php
use zpp_cpp.Php.{Key, name, index, Val, long, str, target_obj, Arr, empty}
use zpp_cpp.Route
use zpp_cpp.Route.{Route}
use zpp_cpp.StrPtr.{is_zero, Sign, less, equal_to, greater, tolower, zs_cmp_ci, subview, ends_with}

-- A table entry: one route object, or a list of them.
pub data Slot : Type 0 where
  one : Route → Slot
  many : List Route → Slot

abbrev pub Table : Type 0
Table = List (Bytes × Slot)

pub record RouteSet : Type 0 where
  pub fixed : Table
  pub vary : Table
  pub file : Bytes
  pub name_index : List (Bytes × Route)
  pub method_sfx : Bytes
  pub prefix : Bytes
  pub module_name : Bytes
  pub not_found : Val

-- `zs_cmp_ci(a, b) == 0`
unfoldable pub same_ci : Bytes → Bytes → Bool
same_ci a b = is_zero (zs_cmp_ci (some a) (some b))

abbrev pub none_tag : Bytes
none_tag = codes "<none>"

abbrev pub verb_tag : Bytes
verb_tag = codes "<verb>"

abbrev pub is_empty : Bytes → Bool
is_empty [] = true
is_empty (c ∷ s) = false

-- What `module` and `prefix` store: an empty text changes nothing, "<none>" clears.
abbrev pub reset_text : Bytes → Bytes → Bytes
reset_text text old = if is_empty text then old else if same_ci text none_tag then [] else text

unfoldable pub set_module : Bytes → RouteSet → RouteSet
set_module text rs = record rs { module_name = reset_text text rs.module_name }

unfoldable pub set_prefix : Bytes → RouteSet → RouteSet
set_prefix text rs = record rs { prefix = reset_text text rs.prefix }

abbrev push_slot : Slot → Route → Slot
push_slot (one r) route = many (r ∷ route ∷ [])
push_slot (many rs) route = many (rs ++ route ∷ [])

-- `appendRoute`: the first route of a key stands alone, a second one makes a list.
unfoldable pub append_route : Table → Bytes → Route → Table
append_route [] key route = (key, one route) ∷ []
append_route ((k, slot) ∷ table) key route =
    if equal k key
    then (k, push_slot slot route) ∷ table
    else (k, slot) ∷ append_route table key route

abbrev pub mod_s : Key
mod_s = name (codes "_mod")

-- The suffix that `copy_target` works out from `method_sfx_` and the route's verbs.
unfoldable pub suffix_of : Bytes → ℕ → Bytes
suffix_of sfx verbs =
    let test = if not (is_empty sfx) && same_ci sfx none_tag then [] else sfx in
    if not (is_empty test) && same_ci test verb_tag
    then (elim (Route.get_verb verbs) [ none ↦ [] | some verb ↦ verb ])
    else test

unfoldable pub with_suffix : Bytes → Bytes → Bytes
with_suffix method suffix =
    if not (is_empty suffix) && not (ends_with method suffix) then method ++ suffix else method

abbrev copy_to : RouteSet → ℕ → Val → Val
copy_to rs verbs (target_obj cls method params) =
    target_obj cls (with_suffix method (suffix_of rs.method_sfx verbs))
      (if Php.has_key mod_s params then params else Php.set mod_s (str rs.module_name) params)
copy_to rs verbs v = v

unfoldable pub copy_target : RouteSet → Route → Route
copy_target rs route = record route { target = copy_to rs route.verbs route.target }

abbrev pub first_byte : Bytes → ℕ
first_byte s = get_or s 0 0

-- What stands in the pattern before the segments.
unfoldable pub init_pattern : Bytes → Bytes → Bytes
init_pattern url prefix =
    let slash_begins = equal url (b'/' ∷ []) in
    let init = if slash_begins then b'/' ∷ [] else [] in
    let preslash = first_byte prefix == b'/' in
    if is_empty prefix
    then init
    else if slash_begins
    then init ++ (if preslash then drop 1 prefix else prefix)
    else (if preslash then [] else b'/' ∷ []) ++ prefix

-- The two buffers, the parameter table and the next index, as the loop over the segments goes on.
pub record Building : Type 0 where
  pub pattern : Bytes
  pub compiled : Bytes
  pub params : Arr
  pub param_ix : ℕ

abbrev group : Bytes
group = codes "/([^/]*)"

abbrev add_param : Bytes → Bytes → Building → Building
add_param param blob b = record b {
  params = Php.set (name param) (long b.param_ix) b.params;
  param_ix = b.param_ix + 1;
  pattern = b.pattern ++ b'/' ∷ blob;
  compiled = b.compiled ++ group;
}

abbrev view_text : Option Bytes → Bytes
view_text none = []
view_text (some v) = v

-- One round of the loop. `trim()` returns a new string, which the source drops, so the segment is
-- not trimmed. `none` is the error thrown for an empty segment.
unfoldable pub add_segment : Bytes → Building → Option Building
add_segment seg b =
    let useg = map tolower seg in
    if is_empty useg
    then none
    else if first_byte useg == b':'
    then (let param = drop 1 useg in some (add_param param (b'{' ∷ (param ++ b'}' ∷ [])) b))
    else if first_byte useg == b'{'
    then some (add_param (view_text (subview useg (pos 1) (negsuc 0))) useg b)
    else some
        (record b { pattern = b.pattern ++ b'/' ∷ useg; compiled = b.compiled ++ b'/' ∷ useg })

unfoldable pub add_segments : List Bytes → Building → Option Building
add_segments [] b = some b
add_segments (seg ∷ segs) b = elim (add_segment seg b) [
  | none ↦ none
  | some b' ↦ add_segments segs b'
]

-- `compiled << "#^" << cpattern << "$#"`
abbrev pub delimited : Bytes → Bytes
delimited c = codes "#^" ++ (c ++ codes "$#")

-- The end of `compile`: the parameters are stored only if there are any.
unfoldable pub finish : Building → Route → Route
finish b route =
    if ltb 0 (Php.size b.params)
    then record route { params = b.params; pattern = b.pattern; compiled = delimited b.compiled }
    else record route { pattern = b.pattern; compiled = b.pattern }

abbrev pub start_building : Bytes → Bytes → Building
start_building url prefix = record {
  pattern = init_pattern url prefix;
  compiled = init_pattern url prefix;
  params = empty;
  param_ix = 1;
}

module _ (urlseg : Bytes → List Bytes) where
  -- The pattern "/" is not matched against the expression.
  unfoldable pub segments_of : Bytes → List Bytes
  segments_of url = if equal url (b'/' ∷ []) then [] else urlseg url

  -- The route after `compile`, and what it returns; after an error the route is unchanged.
  unfoldable pub compile : RouteSet → Route → Route × Bool
  compile rs route =
      elim (add_segments (segments_of route.pattern) (start_building route.pattern rs.prefix)) [
        | none ↦ (route, false)
        | some b ↦ (copy_target rs (finish b route), true)
      ]

  abbrev pub ready : RouteSet → Route → Route
  ready rs route = if is_empty route.compiled then (compile rs route).0 else route

  abbrev pub store : RouteSet → Route → RouteSet
  store rs route =
      if Route.has_params route
      then record rs { vary = append_route rs.vary route.compiled route }
      else if is_empty route.pattern
      then rs
      else record rs { fixed = append_route rs.fixed route.pattern route }

  -- `addRoute`; the result of its call of `compile` is not looked at.
  unfoldable pub add_route : RouteSet → Route → RouteSet
  add_route rs route = store rs (ready rs route)

  -- One item of the list of `addRouteList`: `none` is a value that is no route object.
  unfoldable pub add_item : RouteSet → Option Route → RouteSet
  add_item rs none = rs
  add_item rs (some route) =
      if is_empty route.compiled
      then (let (route', done) = compile rs route in if done then add_route rs route' else rs)
      else add_route rs route

  unfoldable pub add_items : RouteSet → List (Option Route) → RouteSet
  add_items rs [] = rs
  add_items rs (item ∷ items) = add_items (add_item rs item) items

  unfoldable pub add_route_list : List (Option Route) → Bytes → Bytes → RouteSet → RouteSet
  add_route_list items prefix module_name rs =
      add_items (set_module module_name (set_prefix prefix rs)) items
