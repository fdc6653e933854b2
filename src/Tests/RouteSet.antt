-- ===== src/Tests/RouteSet.antt =====
-- The results about src/wcc/route_set.cpp at concrete inputs, with a function that cuts at each '/' for the
-- PCRE expression.
use zpp_cpp.Common.{
  ◌≡◌, ◌⊎◌, List, [], ◌∷◌, ◌++◌, true, false, if◌then◌else◌, ◌==◌, Bytes, codes, equal,
}
use zpp_cpp.Php.{null, target_obj, empty}
use zpp_cpp.Route
use zpp_cpp.Route.{Route, new_route}
use zpp_cpp.RouteSet.{init_pattern, RouteSet, is_empty, segments_of, compile, ready, add_route}
use zpp_cpp.RouteSet.Tables.{routes_at, add_route_files}
use zpp_cpp.RouteSet.Compile.{no_empty, param_count}
use zpp_cpp.RouteSet.Compiled.{Compiled, compile_cases}

-- The parts of a text behind each '/'.
cut : Bytes → List Bytes
cut [] = []
cut (c ∷ s) =
    let rest = cut s in
    if c == b'/' then [] ∷ rest else elim rest [ [] ↦ [] | w ∷ ws ↦ (c ∷ w) ∷ ws ]

abbrev user : Route
user = record new_route {
  id = codes "user";
  pattern = codes "/user/{id}";
  target = target_obj (codes "User") (codes "show") empty;
}

abbrev home : Route
home = record new_route { id = codes "home"; pattern = codes "/"; compiled = codes "/" }

abbrev site : RouteSet
site = record {
  fixed = [];
  vary = [];
  file = [];
  name_index = [];
  method_sfx = codes "Action";
  prefix = codes "app";
  module_name = codes "web";
  not_found = null;
}

abbrev indexed : RouteSet
indexed = record site { name_index = (codes "home", home) ∷ [] }

compile_cases_example :
    ((no_empty (segments_of cut user.pattern) ≡ false) × (compile cut site user ≡ (user, false)))
    ⊎ ((no_empty (segments_of cut user.pattern) ≡ true)
        × ((compile cut site user).1 ≡ true)
        × Compiled
            (segments_of cut user.pattern)
            (init_pattern user.pattern site.prefix)
            (param_count (segments_of cut user.pattern))
            user
            (compile cut site user).0)
compile_cases_example = compile_cases cut site user

add_route_files_example :
    let r' = ready cut site user in
    (routes_at (codes "/x") (add_route cut site user).vary ≡ (
      if Route.has_params r'
      then (if equal r'.compiled (codes "/x")
          then routes_at (codes "/x") site.vary ++ r' ∷ []
          else routes_at (codes "/x") site.vary)
      else routes_at (codes "/x") site.vary))
    × (routes_at (codes "/x") (add_route cut site user).fixed ≡ (
        if Route.has_params r'
        then routes_at (codes "/x") site.fixed
        else if is_empty r'.pattern
        then routes_at (codes "/x") site.fixed
        else if equal r'.pattern (codes "/x")
        then routes_at (codes "/x") site.fixed ++ r' ∷ []
        else routes_at (codes "/x") site.fixed))
add_route_files_example = add_route_files cut site user (codes "/x")
