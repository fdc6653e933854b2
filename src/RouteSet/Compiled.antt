-- ===== src/RouteSet/Compiled.antt =====
-- `compile` of src/wcc/route_set.cpp as a whole: when it succeeds, and the route it leaves.
use zpp_cpp.Common.{
  ℕ, ◌≤◌, ◌<◌, ◌≡◌, ◌⊎◌, refl, true, false, List, ◌++◌, codes, some, ltb, Bytes, arith, Bool-cases,
  inl, inr,
}
use zpp_cpp.Php
use zpp_cpp.Php.{Key, Val, long, empty}
use zpp_cpp.Route
use zpp_cpp.Route.{Route}
use zpp_cpp.RouteSet.{
  RouteSet, Building, init_pattern, finish, start_building, segments_of, compile, copy_target,
}
use zpp_cpp.RouteSet.Compile.{
  Numbered, Built, add_segments-Built, add_segments-error, no_empty, param_count,
}
use zpp_cpp.RouteSet.Pieces.{add_segments-whole, whole, shown, matched, joined, numbered}

-- What a route whose pattern has the segments `segs` is after its compilation from `route`, with the text `start`
-- in front of the segments; `n` of them are parameters.
pub record Compiled (segs : List Bytes) (start : Bytes) (n : ℕ) (route route' : Route)
    : Type 0 where
  pub pattern : route'.pattern ≡ start ++ joined shown segs
  pub plain : n ≡ 0 → (route'.params ≡ route.params) × (route'.compiled ≡ route'.pattern)
  pub regex :
      0 < n
      → (route'.params ≡ numbered 1 segs empty)
        × (Route.has_params route' ≡ true)
        × (route'.compiled ≡ codes "#^" ++ ((start ++ joined matched segs) ++ codes "$#"))
  pub numbers :
      0 < n
      → (k : Key) (v : Val) → Php.get k route'.params ≡ some v
      → (i : ℕ) × (v ≡ long i) × (1 ≤ i) × (i ≤ n)
  pub rest : (route'.verbs ≡ route.verbs) × (route'.id ≡ route.id)

start-Numbered : (url prefix : Bytes) → Numbered (start_building url prefix)
unfolding Php.size Php.get
start-Numbered url prefix = record {
  positive = omega arith;
  few = omega arith;
  bounds = λ k v h. absurd (ground (arith, h));
}

finish-Compiled :
    (segs : List Bytes) (rs : RouteSet) (route : Route) (b : Building)
    → Built segs (start_building route.pattern rs.prefix) b
    → b ≡ whole segs (start_building route.pattern rs.prefix)
    → Compiled segs
        (init_pattern route.pattern rs.prefix)
        (param_count segs)
        route
        (copy_target rs (finish b route))
unfolding copy_target finish Route.has_params Php.size
finish-Compiled segs rs route b built e = elim (Bool-cases (ltb 0 (Php.size b.params))) [
  | inl some_p ↦ rw some_p (record {
    pattern = rw e refl;
    plain = λ z. absurd (ground (arith, some_p, built.kept z));
    regex = λ _. (rw e refl, some_p, rw e refl);
    numbers = λ _ k v h.
        let (i, e, l, u) = (built.numbered (start-Numbered route.pattern rs.prefix)).bounds k v h in
        (i, e, l, ground (arith, built.numbers));
    rest = (refl, refl);
  })
  | inr no_p ↦ rw no_p (record {
    pattern = rw e refl;
    plain = λ z. (refl, refl);
    regex = λ p. absurd (ground (arith, no_p, built.some_params (inl p)));
    numbers = λ p k v h. absurd (ground (arith, no_p, built.some_params (inl p)));
    rest = (refl, refl);
  })
]

module _ (urlseg : Bytes → List Bytes) where
  -- `compile` returns false and leaves the route as it is when some captured segment is empty. Otherwise it
  -- returns true; the pattern is the text in front and, behind a slash each, the segments in small letters,
  -- those with a colon as a name in braces. A route with no parameter segment keeps its parameters and is
  -- compiled to its pattern. One with n > 0 of them has as parameters their names, with the numbers from 1 on
  -- in their order, of which a name that comes again keeps the last, and is compiled to the text between
  -- "#^" and "$#" that has the group "/([^/]*)" for each parameter and the other segments as they are in the
  -- pattern. Its verbs and its name stay.
  pub compile_cases :
      (rs : RouteSet) (route : Route)
      → ((no_empty (segments_of urlseg route.pattern) ≡ false)
          × (compile urlseg rs route ≡ (route, false)))
        ⊎ ((no_empty (segments_of urlseg route.pattern) ≡ true)
            × ((compile urlseg rs route).1 ≡ true)
            × Compiled
                (segments_of urlseg route.pattern)
                (init_pattern route.pattern rs.prefix)
                (param_count (segments_of urlseg route.pattern))
                route
                (compile urlseg rs route).0)
  unfolding compile
  compile_cases rs route = elim (Bool-cases (no_empty (segments_of urlseg route.pattern))) [
    | inl all ↦
        let b = whole (segments_of urlseg route.pattern) (start_building route.pattern rs.prefix) in
        let built =
          add_segments-whole (segments_of urlseg route.pattern)
            (start_building route.pattern rs.prefix) all in
        inr (
          all,
          rw (compile, built) refl,
          rw (compile, built)
              (finish-Compiled (segments_of urlseg route.pattern) rs route b
                (add_segments-Built (segments_of urlseg route.pattern)
                  (start_building route.pattern rs.prefix) built)
                refl),
        )
    | inr bad ↦ inl (
      bad,
      rw
          (
            compile,
            add_segments-error (segments_of urlseg route.pattern)
                (start_building route.pattern rs.prefix) bad,
          )
          refl,
    )
  ]
