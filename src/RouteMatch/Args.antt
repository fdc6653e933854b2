-- ===== src/RouteMatch/Args.antt =====
-- `fetchArgs`: the arguments that a match gives to the call.
use zpp_cpp.Common.{
  ◌+◌, ◌<◌, ◌≡◌, ◌≢◌, refl, Bool, true, false, not, ◌&&◌, Option, none, some, Bytes, arith,
  Bool-cases, Option-cases, inl, inr, sym, ◌∙◌, ap,
}
use zpp_cpp.Php
use zpp_cpp.Php.{Key, Val, str, Arr, empty, entry, key_equal}
use zpp_cpp.Php.Arrays.{get-set, key_equal_iff}
use zpp_cpp.Route.{Route}
use zpp_cpp.RouteMatch.{RouteMatch, fetch_value, decoded, fetch_loop, fetch_args}

-- No key stands twice, as in every PHP array.
abbrev pub distinct : Arr → Bool
distinct empty = true
distinct (entry k v r) = not (Php.has_key k r) && distinct r

-- Every parameter has a match.
abbrev pub Matched : Arr → Arr → Type 0
Matched params margs =
    (k : Key) (v : Val) → Php.get k params ≡ some v → (t : Val) × (fetch_value v margs ≡ some t)

absent_tail : (k : Key) (r : Arr) → not (Php.has_key k r) ≡ true → Php.get k r ≡ none
unfolding Php.has_key
absent_tail k r h = elim (Option-cases (Php.get k r)) [
  | inl e ↦ e
  | inr (v, e) ↦ absurd (ground (arith, h, e))
]

get_head : (k : Key) (v : Val) (r : Arr) → Php.get k (entry k v r) ≡ some v
unfolding Php.get
get_head k v r = rw ((key_equal_iff k k).1 refl) refl

get_other :
    (j k : Key) (v : Val) (r : Arr) → key_equal j k ≡ false → Php.get k (entry j v r) ≡ Php.get k r
unfolding Php.get
get_other j k v r e = rw e refl

tail_other :
    (j k : Key) (v w : Val) (r : Arr)
    → distinct (entry j v r) ≡ true
    → Php.get k r ≡ some w
    → key_equal j k ≡ false
tail_other j k v w r d h = elim (Bool-cases (key_equal j k)) [
  | inl same ↦
      absurd (ground (arith, absent_tail j r (ground (arith, d)), (key_equal_iff j k).0 same, h))
  | inr other ↦ other
]

set_other :
    (j k : Key) (v : Val) (a : Arr)
    → key_equal j k ≡ false
    → Php.get k (Php.set j v a) ≡ Php.get k a
set_other j k v a e = get-set j k v a ∙ (rw e refl)

get_empty : (k : Key) {v : Val} → Php.get k empty ≢ some v
unfolding Php.get
get_empty k h = ground (arith, h)

or_else : Val → Option Val → Val
or_else v none = v
or_else v (some w) = w

some_inj : {v w : Val} → some v ≡ some w → v ≡ w
unfolding or_else
some_inj {v} h = ap (or_else v) h

Matched-tail :
    (j : Key) (v : Val) (params margs : Arr)
    → distinct (entry j v params) ≡ true
    → Matched (entry j v params) margs
    → Matched params margs
Matched-tail j v params margs d all k w h =
    all k w (get_other j k v params (tail_other j k v w params d h) ∙ h)

get_same : (j k : Key) (v : Val) (r : Arr) → key_equal j k ≡ true → Php.get k (entry j v r) ≡ some v
unfolding Php.get
get_same j k v r e = rw e refl

set_at : (j k : Key) (v : Val) (a : Arr) → key_equal j k ≡ true → Php.get k (Php.set j v a) ≡ some v
set_at j k v a e = get-set j k v a ∙ (rw e refl)

-- The parameter that a key names first is the one whose index is looked up.
head_fetch :
    (j k : Key) (w v t : Val) (params margs : Arr)
    → key_equal j k ≡ true
    → Php.get k (entry j w params) ≡ some v
    → fetch_value v margs ≡ some t
    → fetch_value w margs ≡ some t
head_fetch j k w v t params margs same h f =
    ap (λ x. fetch_value x margs) (some_inj (sym (get_same j k w params same) ∙ h)) ∙ f

module _ (url_decode : Bytes → Bytes) where
  loop_miss :
      (k : Key) (v : Val) (params margs args : Arr) (ok : Bool)
      → fetch_value v margs ≡ none
      → fetch_loop url_decode (entry k v params) margs args ok
        ≡ fetch_loop url_decode params margs args false
  unfolding fetch_loop
  loop_miss k v params margs args ok miss = rw (fetch_loop, miss) refl

  loop_hit :
      (k : Key) (v t : Val) (params margs args : Arr) (ok : Bool)
      → fetch_value v margs ≡ some t
      → fetch_loop url_decode (entry k v params) margs args ok
        ≡ fetch_loop url_decode params margs (Php.set k (decoded url_decode t) args) ok
  unfolding fetch_loop
  loop_hit k v t params margs args ok hit = rw (fetch_loop, hit) refl

  -- A key that is no parameter is left alone.
  fetch_loop_absent :
      (params margs args : Arr) (ok : Bool) (k : Key)
      → Php.get k params ≡ none
      → Php.get k (fetch_loop url_decode params margs args ok).0 ≡ Php.get k args
  unfolding fetch_loop
  fetch_loop_absent empty margs args ok k h = refl
  fetch_loop_absent (entry j v params) margs args ok k h = elim (Bool-cases (key_equal j k)) [
    | inl same ↦ absurd (ground (arith, h, get_same j k v params same))
    | inr other ↦ elim (Option-cases (fetch_value v margs)) [
      | inl miss ↦
          rw (loop_miss j v params margs args ok miss)
            (fetch_loop_absent params margs args false k (sym (get_other j k v params other) ∙ h))
      | inr (t, hit) ↦ rw (loop_hit j v t params margs args ok hit) (
          fetch_loop_absent params margs (Php.set j (decoded url_decode t) args) ok k
            (sym (get_other j k v params other) ∙ h)
          ∙ set_other j k (decoded url_decode t) args other)
    ]
  ]

  fetch_loop_ok :
      (params margs args : Arr)
      → distinct params ≡ true
      → Matched params margs
      → (fetch_loop url_decode params margs args true).1 ≡ true
  unfolding fetch_loop
  fetch_loop_ok empty margs args d all = refl
  fetch_loop_ok (entry j v params) margs args d all =
      let (t, hit) = all j v (get_head j v params) in
      rw (loop_hit j v t params margs args true hit) (
        fetch_loop_ok params margs (Php.set j (decoded url_decode t) args) (ground (arith, d))
          (Matched-tail j v params margs d all))

  -- A parameter gets the decoded match of its index.
  fetch_loop-get :
      (params margs args : Arr) (ok : Bool) (k : Key) (v t : Val)
      → distinct params ≡ true
      → Php.get k params ≡ some v
      → fetch_value v margs ≡ some t
      → Php.get k (fetch_loop url_decode params margs args ok).0 ≡ some (decoded url_decode t)
  fetch_loop-get empty margs args ok k v t d h f = absurd (get_empty k h)
  fetch_loop-get (entry j w params) margs args ok k v t d h f = elim (Bool-cases (key_equal j k)) [
    | inl same ↦
        rw (loop_hit j w t params margs args ok (head_fetch j k w v t params margs same h f)) (
          fetch_loop_absent params margs (Php.set j (decoded url_decode t) args) ok k (
            ap (λ x. Php.get x params) (sym ((key_equal_iff j k).0 same))
            ∙ absent_tail j params (ground (arith, d)))
          ∙ set_at j k (decoded url_decode t) args same)
    | inr other ↦ elim (Option-cases (fetch_value w margs)) [
      | inl miss ↦ rw (loop_miss j w params margs args ok miss) (
          fetch_loop-get params margs args false k v t (ground (arith, d))
            (sym (get_other j k w params other) ∙ h) f)
      | inr (u, hit) ↦ rw (loop_hit j w u params margs args ok hit) (
          fetch_loop-get params margs (Php.set j (decoded url_decode u) args) ok k v t
            (ground (arith, d)) (sym (get_other j k w params other) ∙ h) f)
    ]
  ]

  fetch_args_loop :
      (r : Route) (m : RouteMatch)
      → 0 < Php.size r.params
      → Php.size m.match_args ≡ Php.size r.params + 1
      → fetch_args url_decode r m ≡ fetch_loop url_decode r.params m.match_args empty true
  unfolding fetch_args
  fetch_args_loop r m some_here count = ground (arith, some_here, count)

  -- A route without parameters has no arguments. For one with parameters, whose match has one result
  -- more than parameters and a result for each, `fetchArgs` reports no error, and each parameter gets
  -- the result of its index, a text URL-decoded. With any other number of results it reports an error
  -- and has no arguments. No key of the parameters stands twice.
  pub fetch_args_cases :
      (r : Route) (m : RouteMatch)
      → distinct r.params ≡ true
      → (Php.size r.params ≡ 0 → fetch_args url_decode r m ≡ (empty, true))
        × (0 < Php.size r.params
            → Php.size m.match_args ≡ Php.size r.params + 1
            → Matched r.params m.match_args
            → ((fetch_args url_decode r m).1 ≡ true)
              × ((k : Key) (v t : Val)
                  → Php.get k r.params ≡ some v
                  → fetch_value v m.match_args ≡ some t
                  → Php.get k (fetch_args url_decode r m).0 ≡ some (decoded url_decode t)))
        × (0 < Php.size r.params
            → Php.size m.match_args ≢ Php.size r.params + 1
            → fetch_args url_decode r m ≡ (empty, false))
  unfolding fetch_args
  fetch_args_cases r m d = (
    λ none_here. ground (arith, none_here),
    (λ some_here count all. (
      rw (fetch_args_loop r m some_here count) (fetch_loop_ok r.params m.match_args empty d all),
      λ k v t h f.
          rw (fetch_args_loop r m some_here count)
            (fetch_loop-get r.params m.match_args empty true k v t d h f),
    )),
    λ some_here count. ground (arith, some_here, count),
  )
