-- ===== src/RouteSet/Tables.antt =====
-- A table as a map from keys to lists of routes.
use zpp_cpp.Common.{◌≡◌, refl, List, [], ◌∷◌, ◌++◌, if◌then◌else◌, Bytes, equal, equal_iff, arith}
use zpp_cpp.Route
use zpp_cpp.Route.{Route}
use zpp_cpp.RouteSet.{
  Slot, one, many, Table, RouteSet, push_slot, append_route, ready, add_route, is_empty,
}

abbrev pub slot_routes : Slot → List Route
slot_routes (one r) = r ∷ []
slot_routes (many rs) = rs

-- The routes of a key, in the order in which they are tried.
abbrev pub routes_at : Bytes → Table → List Route
routes_at k [] = []
routes_at k ((j, slot) ∷ table) = if equal j k then slot_routes slot else routes_at k table

abbrev pub all_routes : Table → List Route
all_routes [] = []
all_routes ((k, slot) ∷ table) = slot_routes slot ++ all_routes table

push_slot_lem : (s : Slot) (r : Route) → slot_routes (push_slot s r) ≡ slot_routes s ++ r ∷ []
push_slot_lem (one q) r = refl
push_slot_lem (many rs) r = refl

-- `appendRoute` puts the route behind the routes of its key, and leaves every other key alone.
pub routes_at-append_route :
    (table : Table) (key k : Bytes) (r : Route)
    → routes_at k (append_route table key r)
      ≡ (if equal key k then routes_at k table ++ r ∷ [] else routes_at k table)
unfolding append_route
routes_at-append_route [] key k r = ground arith
routes_at-append_route ((j, slot) ∷ table) key k r = ground (
  arith,
  equal_iff j key,
  equal_iff j k,
  equal_iff key k,
  push_slot_lem slot r,
  routes_at-append_route table key k r,
)

-- `addRoute` files the route, compiled if it was not, under exactly one key of one table: under its
-- compiled expression if it has parameters, else under its pattern if that is not empty; every other
-- key of either table keeps its routes.
pub add_route_files :
    (urlseg : Bytes → List Bytes) (rs : RouteSet) (r : Route) (k : Bytes)
    → let r' = ready urlseg rs r in
      (routes_at k (add_route urlseg rs r).vary ≡ (
        if Route.has_params r'
        then (if equal r'.compiled k then routes_at k rs.vary ++ r' ∷ [] else routes_at k rs.vary)
        else routes_at k rs.vary))
      × (routes_at k (add_route urlseg rs r).fixed ≡ (
          if Route.has_params r'
          then routes_at k rs.fixed
          else if is_empty r'.pattern
          then routes_at k rs.fixed
          else if equal r'.pattern k
          then routes_at k rs.fixed ++ r' ∷ []
          else routes_at k rs.fixed))
unfolding add_route
add_route_files urlseg rs r k =
    let r' = ready urlseg rs r in
    (
      ground (arith, routes_at-append_route rs.vary r'.compiled k r'),
      ground (arith, routes_at-append_route rs.fixed r'.pattern k r'),
    )
