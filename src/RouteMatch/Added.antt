-- ===== src/RouteMatch/Added.antt =====
-- A route that was added to a set is found.
use zpp_cpp.Common.{◌≡◌, refl, true, false, List, [], ◌∷◌, ◌++◌, Bytes, equal, Option, ◌∙◌}
use zpp_cpp.Php.{Arr, empty}
use zpp_cpp.Route
use zpp_cpp.Route.{Route}
use zpp_cpp.RouteSet.{RouteSet, ready, add_route, is_empty}
use zpp_cpp.RouteSet.Tables.{routes_at, add_route_files}
use zpp_cpp.RouteMatch.{RouteMatch, accepts, find_route}
use zpp_cpp.RouteMatch.Find.{accepted_last, vary_candidates, find_route-candidates}

module _ (urlseg : Bytes → List Bytes) (pcre : Bytes → Bytes → Option Arr) where
  -- After `addRoute` of a route whose compiled form has no parameters and a pattern that is not empty,
  -- `findRoute` for a request with that very text, whose verb and Ajax flags the route takes, returns
  -- true.
  pub find_route-add_route :
      (rs : RouteSet) (r : Route) (m : RouteMatch)
      → Route.has_params (ready urlseg rs r) ≡ false
      → is_empty (ready urlseg rs r).pattern ≡ false
      → equal (ready urlseg rs r).pattern m.uri ≡ true
      → accepts m (ready urlseg rs r) ≡ true
      → (find_route pcre (add_route urlseg rs r) m).1 ≡ true
  find_route-add_route rs r m plain full same takes =
      let filed : routes_at m.uri (add_route urlseg rs r).fixed
          ≡ routes_at m.uri rs.fixed ++ ready urlseg rs r ∷ [] =
        (add_route_files urlseg rs r m.uri).1 ∙ (rw (plain, full, same) refl) in
      let (c, hit) =
        accepted_last m empty (routes_at m.uri rs.fixed) (ready urlseg rs r)
          (vary_candidates pcre m.uri (add_route urlseg rs r).vary) takes in
      rw (find_route-candidates pcre (add_route urlseg rs r) m, filed, hit) refl
