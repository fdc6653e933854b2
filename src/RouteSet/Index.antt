-- ===== src/RouteSet/Index.antt =====
-- The index by name of src/wcc/route_set.cpp.
use zpp_cpp.Common.{
  Bool, true, false, List, [], ◌∷◌, Option, none, some, if◌then◌else◌, Bytes, equal,
}
use zpp_cpp.Route.{Route}
use zpp_cpp.RouteSet.{Slot, one, many, Table, RouteSet, is_empty}

unfoldable pub put : Bytes → Route → List (Bytes × Route) → List (Bytes × Route)
put k r [] = (k, r) ∷ []
put k r ((j, q) ∷ names) = if equal j k then (j, r) ∷ names else (j, q) ∷ put k r names

unfoldable pub find_name : Bytes → List (Bytes × Route) → Option Route
find_name k [] = none
find_name k ((j, r) ∷ names) = if equal j k then some r else find_name k names

-- `indexRouteKey`: a route with no name is not indexed.
unfoldable pub index_route_key : List (Bytes × Route) → Route → List (Bytes × Route)
index_route_key names r = if is_empty r.id then names else put r.id r names

unfoldable pub index_list : List (Bytes × Route) → List Route → List (Bytes × Route)
index_list names [] = names
index_list names (r ∷ rs) = index_list (index_route_key names r) rs

unfoldable pub index_item : List (Bytes × Route) → Slot → List (Bytes × Route)
index_item names (one r) = index_route_key names r
index_item names (many rs) = index_list names rs

unfoldable pub index_table : List (Bytes × Route) → Table → List (Bytes × Route)
index_table names [] = names
index_table names ((k, slot) ∷ table) = index_table (index_item names slot) table

unfoldable pub index_routes : RouteSet → RouteSet
index_routes rs = record rs {
  name_index = index_table (index_table rs.name_index rs.fixed) rs.vary;
}

abbrev pub no_names : List (Bytes × Route) → Bool
no_names [] = true
no_names (n ∷ names) = false

-- `getRoute`: the index is built when it is empty, and then kept.
unfoldable pub get_route : RouteSet → Bytes → RouteSet × Option Route
get_route rs k =
    let rs' = if no_names rs.name_index then index_routes rs else rs in
    (rs', find_name k rs'.name_index)
