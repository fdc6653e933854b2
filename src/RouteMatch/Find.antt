-- ===== src/RouteMatch/Find.antt =====
-- `findRoute` against the list of the routes that it may try.
use zpp_cpp.Common.{
  ◌≡◌, refl, Bool, true, false, List, [], ◌∷◌, ◌++◌, Option, none, some, if◌then◌else◌, Bytes,
  equal, Bool-cases, Option-cases, inl, inr,
}
use zpp_cpp.Php.{Arr, empty}
use zpp_cpp.Route.{Route}
use zpp_cpp.RouteSet.{Slot, one, many, Table, RouteSet}
use zpp_cpp.RouteSet.Tables.{slot_routes, routes_at}
use zpp_cpp.RouteMatch.{
  RouteMatch, accepts, first_in, first_match, try_fetch, find_vary, find_route, found, find_from,
}

-- Each route of a list with the match results that go with it.
abbrev pub with_args : Arr → List Route → List (Route × Arr)
with_args args [] = []
with_args args (r ∷ rs) = (r, args) ∷ with_args args rs

abbrev pub first_accepted : RouteMatch → List (Route × Arr) → Option (Route × Arr)
first_accepted m [] = none
first_accepted m ((r, args) ∷ cs) = if accepts m r then some (r, args) else first_accepted m cs

first_accepted_append :
    (m : RouteMatch) (cs ds : List (Route × Arr))
    → first_accepted m (cs ++ ds)
      ≡ elim (first_accepted m cs) [ none ↦ first_accepted m ds | some c ↦ some c ]
first_accepted_append m [] ds = refl
first_accepted_append m ((r, args) ∷ cs) ds = elim (Bool-cases (accepts m r)) [
  | inl takes ↦ rw takes refl
  | inr refuses ↦ rw refuses (first_accepted_append m cs ds)
]

first_in_lem :
    (m : RouteMatch) (args : Arr) (rs : List Route)
    → first_accepted m (with_args args rs)
      ≡ elim (first_in m rs) [ none ↦ none | some r ↦ some (r, args) ]
unfolding first_in
first_in_lem m args [] = refl
first_in_lem m args (r ∷ rs) = elim (Bool-cases (accepts m r)) [
  | inl takes ↦ rw takes refl
  | inr refuses ↦ rw refuses (first_in_lem m args rs)
]

first_match_lem :
    (m : RouteMatch) (args : Arr) (slot : Slot)
    → first_accepted m (with_args args (slot_routes slot))
      ≡ elim (first_match m slot) [ none ↦ none | some r ↦ some (r, args) ]
unfolding first_match
first_match_lem m args (one r) = elim (Bool-cases (accepts m r)) [
  | inl takes ↦ rw takes refl
  | inr refuses ↦ rw refuses refl
]
first_match_lem m args (many rs) = first_in_lem m args rs

-- What `findRoute` leaves and returns for the first candidate that takes the flags.
abbrev pub outcome : RouteMatch → Option (Route × Arr) → RouteMatch × Bool
outcome m none = (m, false)
outcome m (some (r, args)) = found m r args

module _ (pcre : Bytes → Bytes → Option Arr) where
  -- The routes of the entries whose expression matches, with the results of the match.
  abbrev pub vary_candidates : Bytes → Table → List (Route × Arr)
  vary_candidates uri [] = []
  vary_candidates uri ((pattern, slot) ∷ table) = elim (pcre pattern uri) [
    | none ↦ vary_candidates uri table
    | some args ↦ with_args args (slot_routes slot) ++ vary_candidates uri table
  ]

  -- The routes that a request may reach, in order: those filed under the very text of the request,
  -- and then those of the expressions that match it.
  abbrev pub candidates : Bytes → RouteSet → List (Route × Arr)
  candidates uri rs = with_args empty (routes_at uri rs.fixed) ++ vary_candidates uri rs.vary

  find_vary_lem :
      (m : RouteMatch) (table : Table)
      → find_vary pcre m table ≡ outcome m (first_accepted m (vary_candidates m.uri table))
  unfolding find_vary
  find_vary_lem m [] = refl
  find_vary_lem m ((pattern, slot) ∷ table) = elim (Option-cases (pcre pattern m.uri)) [
    | inl miss ↦ rw (find_vary, vary_candidates, miss) (find_vary_lem m table)
    | inr (args, hit) ↦ elim (Option-cases (first_match m slot)) [
      | inl no_route ↦
          rw
            (
              find_vary,
              vary_candidates,
              hit,
              no_route,
              first_accepted_append m (with_args args (slot_routes slot)),
              first_match_lem m args slot,
              no_route,
            )
            (find_vary_lem m table)
      | inr (r, taken) ↦
          rw
            (
              find_vary,
              vary_candidates,
              hit,
              taken,
              first_accepted_append m (with_args args (slot_routes slot)),
              first_match_lem m args slot,
              taken,
            )
            refl
    ]
  ]

  try_fetch_lem :
      (k : Bytes) (table : Table)
      → routes_at k table ≡ elim (try_fetch k table) [ none ↦ [] | some slot ↦ slot_routes slot ]
  unfolding try_fetch
  try_fetch_lem k [] = refl
  try_fetch_lem k ((j, slot) ∷ table) = elim (Bool-cases (equal j k)) [
    | inl same ↦ rw same refl
    | inr other ↦ rw other (try_fetch_lem k table)
  ]

  find_from_lem :
      (m : RouteMatch) (rs : RouteSet)
      → find_from pcre m rs ≡ outcome m (first_accepted m (candidates m.uri rs))
  find_from_lem m rs = elim (Option-cases (try_fetch m.uri rs.fixed)) [
    | inl absent ↦
        rw (find_from, absent, try_fetch_lem m.uri rs.fixed, absent) (find_vary_lem m rs.vary)
    | inr (slot, here) ↦ elim (Option-cases (first_match m slot)) [
      | inl no_route ↦
          rw
            (
              find_from,
              here,
              no_route,
              try_fetch_lem m.uri rs.fixed,
              here,
              first_accepted_append m (with_args empty (slot_routes slot)),
              first_match_lem m empty slot,
              no_route,
            )
            (find_vary_lem m rs.vary)
      | inr (r, taken) ↦
          rw
            (
              find_from,
              here,
              taken,
              try_fetch_lem m.uri rs.fixed,
              here,
              first_accepted_append m (with_args empty (slot_routes slot)),
              first_match_lem m empty slot,
              taken,
            )
            refl
    ]
  ]

  -- `findRoute` finds the first of the candidates whose verbs and Ajax flag share a bit with the
  -- request's: it keeps the route with its match results and returns true. If no candidate does, it
  -- keeps no route, leaves the match results as they were, and returns false.
  pub find_route-candidates :
      (rs : RouteSet) (m : RouteMatch)
      → find_route pcre rs m
        ≡ outcome (record m { route = none }) (first_accepted m (candidates m.uri rs))
  unfolding find_route accepts
  find_route-candidates rs m = find_from_lem (record m { route = none }) rs

pub accepted_last :
    (m : RouteMatch) (args : Arr) (rs : List Route) (r : Route) (cs : List (Route × Arr))
    → accepts m r ≡ true
    → (c : Route × Arr) × (first_accepted m (with_args args (rs ++ r ∷ []) ++ cs) ≡ some c)
accepted_last m args [] r cs h = ((r, args), rw h refl)
accepted_last m args (q ∷ rs) r cs h = elim (Bool-cases (accepts m q)) [
  | inl takes ↦ ((q, args), rw takes refl)
  | inr refuses ↦ rw refuses (accepted_last m args rs r cs h)
]
