-- ===== src/RouteSet/Names.antt =====
-- Finding a route by its name.
use zpp_cpp.Common.{
  ◌≡◌, refl, false, List, [], ◌∷◌, ◌++◌, Option, none, some, if◌then◌else◌, Bytes, arith, ap, ◌∙◌,
  equal, equal_iff,
}
use zpp_cpp.Route.{Route}
use zpp_cpp.RouteSet.Tables.{slot_routes, all_routes}
use zpp_cpp.RouteSet.{Slot, one, many, Table, RouteSet, is_empty, add_route}
use zpp_cpp.RouteSet.Index.{
  put, find_name, index_route_key, index_list, index_item, index_table, index_routes, no_names,
  get_route,
}

find_name-put :
    (j k : Bytes) (r : Route) (names : List (Bytes × Route))
    → find_name k (put j r names) ≡ (if equal j k then some r else find_name k names)
unfolding find_name put
find_name-put j k r [] = refl
find_name-put j k r ((i, q) ∷ names) =
    ground (arith, equal_iff i j, equal_iff i k, equal_iff j k, find_name-put j k r names)

-- Indexing a table is indexing the list of its routes.
index_list-append :
    (names : List (Bytes × Route)) (xs ys : List Route)
    → index_list names (xs ++ ys) ≡ index_list (index_list names xs) ys
unfolding index_list
index_list-append names [] ys = refl
index_list-append names (x ∷ xs) ys = index_list-append (index_route_key names x) xs ys

index_item-index_list :
    (names : List (Bytes × Route)) (s : Slot)
    → index_item names s ≡ index_list names (slot_routes s)
unfolding index_item index_list
index_item-index_list names (one r) = refl
index_item-index_list names (many rs) = refl

index_table-index_list :
    (names : List (Bytes × Route)) (table : Table)
    → index_table names table ≡ index_list names (all_routes table)
unfolding index_table
index_table-index_list names [] = unfold index_list in refl
index_table-index_list names ((k, slot) ∷ table) =
    rw (index_list-append names (slot_routes slot) (all_routes table)) (
      rw (index_item-index_list names slot)
        (index_table-index_list (index_list names (slot_routes slot)) table))

-- The last route of the list that has the name `k`, or else what the names before held.
abbrev pub last_named : Bytes → List Route → Option Route → Option Route
last_named k [] found = found
last_named k (r ∷ rs) found =
    last_named k rs (if is_empty r.id then found else if equal r.id k then some r else found)

find_name-index_list :
    (k : Bytes) (rs : List Route) (names : List (Bytes × Route))
    → find_name k (index_list names rs) ≡ last_named k rs (find_name k names)
unfolding index_list
find_name-index_list k [] names = refl
find_name-index_list k (r ∷ rs) names =
    rw (find_name-index_list k rs (index_route_key names r)) (ap (last_named k rs) (step r))
  where
    step :
        (r : Route)
        → find_name k (index_route_key names r) ≡ (
            if is_empty r.id
            then find_name k names
            else if equal r.id k
            then some r
            else find_name k names)
    step r = unfold index_route_key in ground (arith, find_name-put r.id k r names)

-- With no index yet, `getRoute` gives the route that was added last under the name among the fixed
-- routes followed by the varying ones, and null if none has it.
pub get_route_first :
    (rs : RouteSet) (k : Bytes)
    → rs.name_index ≡ []
    → (get_route rs k).1 ≡ last_named k (all_routes rs.fixed ++ all_routes rs.vary) none
unfolding get_route index_routes
get_route_first rs k e = ground (arith, e, built)
  where
    built :
        find_name k (index_table (index_table rs.name_index rs.fixed) rs.vary)
        ≡ last_named k (all_routes rs.fixed ++ all_routes rs.vary) none
    built = rw (index_table-index_list (index_table rs.name_index rs.fixed) rs.vary) (
        rw (index_table-index_list rs.name_index rs.fixed) (
          rw (← index_list-append rs.name_index (all_routes rs.fixed) (all_routes rs.vary)) (
            find_name-index_list k (all_routes rs.fixed ++ all_routes rs.vary) rs.name_index
            ∙ rw e (unfold find_name in refl))))

-- Once built, the index is never extended: a route that is added later, under whatever name, changes
-- the answer of `getRoute` for no name.
pub get_route-add_route :
    (urlseg : Bytes → List Bytes) (rs : RouteSet) (r : Route) (k : Bytes)
    → no_names rs.name_index ≡ false
    → (get_route (add_route urlseg rs r) k).1 ≡ (get_route rs k).1
unfolding get_route add_route
get_route-add_route urlseg rs r k h = ground arith
