-- ===== src/Tests/RouteMatch.antt =====
-- The results about src/wcc/route_match.cpp at concrete inputs: an expression matches only its own
-- text, URL decoding and array merging are left out.
use zpp_cpp.Common.{
  ◌+◌, ◌<◌, ◌≡◌, ◌≢◌, List, [], ◌∷◌, true, false, Option, none, some, if◌then◌else◌, Bytes, codes,
  equal, refl,
}
use zpp_cpp.Php
use zpp_cpp.Php.{Key, name, index, Val, str, long, null, Arr, empty, entry, text_of, key_equal}
use zpp_cpp.Route
use zpp_cpp.Route.{Route, new_route}
use zpp_cpp.RouteSet.{RouteSet, one, many, add_route}
use zpp_cpp.RouteMatch.{RouteMatch, accepts, find_route, fetch_args, fetch_value, decoded}
use zpp_cpp.RouteMatch.Find.{outcome, first_accepted, candidates, find_route-candidates}
use zpp_cpp.RouteMatch.Added.{find_route-add_route}
use zpp_cpp.RouteMatch.Args.{Matched, fetch_args_cases}

abbrev same_text : Bytes → Bytes → Option Arr
same_text p s = if equal p s then some (entry (index 0) (str s) empty) else none

abbrev no_segments : Bytes → List Bytes
no_segments s = []

abbrev home : Route
home = record new_route { pattern = codes "/"; compiled = codes "/" }

abbrev show : Route
show = record new_route { params = entry (name (codes "id")) (long 1) empty }

abbrev request : RouteMatch
request = record {
  route = none;
  ob_args = empty;
  match_args = entry (index 0) (str (codes "/u/7")) (entry (index 1) (str (codes "7")) empty);
  uri = codes "/";
  module_name = [];
  ob_class = [];
  ob_method = [];
  verb_flag = 1;
  ajax_flag = 1;
}

abbrev site : RouteSet
site = record {
  fixed = (codes "/", many (show ∷ home ∷ [])) ∷ [];
  vary = (codes "/", one show) ∷ [];
  file = [];
  name_index = [];
  method_sfx = [];
  prefix = [];
  module_name = [];
  not_found = null;
}

find_route-candidates_example :
    find_route same_text site request
    ≡ outcome
        (record request { route = none })
        (first_accepted request (candidates same_text request.uri site))
find_route-candidates_example = find_route-candidates same_text site request

find_route-add_route_example :
    (find_route same_text (add_route no_segments site home) request).1 ≡ true
unfolding equal accepts Route.has_params Php.size
find_route-add_route_example =
    find_route-add_route no_segments same_text site home request refl refl refl refl

fetch_args_cases_example :
    (Php.size show.params ≡ 0 → fetch_args (λ s. s) show request ≡ (empty, true))
    × (0 < Php.size show.params
        → Php.size request.match_args ≡ Php.size show.params + 1
        → Matched show.params request.match_args
        → ((fetch_args (λ s. s) show request).1 ≡ true)
          × ((k : Key) (v t : Val)
              → Php.get k show.params ≡ some v
              → fetch_value v request.match_args ≡ some t
              → Php.get k (fetch_args (λ s. s) show request).0 ≡ some (decoded (λ s. s) t)))
    × (0 < Php.size show.params
        → Php.size request.match_args ≢ Php.size show.params + 1
        → fetch_args (λ s. s) show request ≡ (empty, false))
unfolding Php.has_key Php.get
fetch_args_cases_example = fetch_args_cases (λ s. s) show request refl
