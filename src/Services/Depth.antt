-- ===== src/Services/Depth.antt =====
-- The counter of deferred requests in src/wcc/services.cpp, under a closure that requests its own service.
use zpp_cpp.Common.{
  Option, none, ℕ, zero, suc, ◌+◌, ◌-◌, ◌≤◌, ◌≡◌, refl, Bool, true, false, some, Bytes, ◌∷◌, leb,
  if◌then◌else◌, ap, ◌∙◌, ℤ, pos, negsuc, arith,
}
use zpp_cpp.Php
use zpp_cpp.Php.{Key, name, Val, null, long, has_key}
use zpp_cpp.Services.{
  Services, Reply, value, error, get, activate, activate_value, increased, decreased, above_three,
  set,
}
use zpp_cpp.Services.Once.{get_active-set}

-- The counter from which `d` nested requests are let through, which is 4 - d, and -d.
unfoldable pub level : ℕ → ℤ
level d = if leb d 4 then pos (4 - d) else negsuc (d - 5)

unfoldable pub below_zero : ℕ → ℤ
below_zero zero = pos 0
below_zero (suc d) = negsuc d

pub below_zero-level : (d : ℕ) → below_zero d ≡ level (d + 4)
unfolding below_zero level
below_zero-level zero = refl
below_zero-level (suc d) = ground arith

increased-level : (d : ℕ) → increased (level (suc d)) ≡ level d
unfolding level increased
increased-level zero = refl
increased-level (suc zero) = refl
increased-level (suc (suc zero)) = refl
increased-level (suc (suc (suc zero))) = refl
increased-level (suc (suc (suc (suc zero)))) = refl
increased-level (suc (suc (suc (suc (suc d))))) = ground arith

above_three-level : (d : ℕ) → above_three (level d) ≡ (if leb 1 d then false else true)
unfolding level above_three
above_three-level zero = refl
above_three-level (suc d) = ground arith

decreased-below_zero : (d : ℕ) → decreased (below_zero d) ≡ below_zero (suc d)
unfolding below_zero decreased
decreased-below_zero zero = refl
decreased-below_zero (suc d) = refl

-- How many calls of the closure a reply comes from: none with an error, else the number that it is.
abbrev pub depth_of : Reply → Option ℕ
depth_of (error e) = some 0
depth_of (value (long m)) = some m
depth_of _ = none

abbrev pub one_more : Option ℕ → Val
one_more none = null
one_more (some m) = long (suc m)

module _ (is_callable : Val → Bool) where
  -- A closure that requests the service `key`, catches an error, and returns the number of calls down to it and
  -- with it. With no calls left it returns null at once.
  unfoldable pub requests_itself : ℕ → Bytes → Val → Services → Services × Val
  requests_itself zero key closure s = (s, null)
  requests_itself (suc n) key closure s =
      let after = get is_callable (requests_itself n key) key s in
      (after.0, one_more (depth_of after.1))

  requests_itself_lem :
      (d n : ℕ) (c : ℕ) (key : Bytes) (closure : Val) (s : Services)
      → has_key (name (c ∷ key)) s.active ≡ false
      → Php.get (name (c ∷ key)) s.defer ≡ some closure
      → is_callable closure ≡ true
      → ((m : ℕ) → is_callable (long m) ≡ false)
      → s.defer_ct ≡ level d
      → d ≤ n
      → let r = get is_callable (requests_itself n (c ∷ key)) (c ∷ key) s in
        (depth_of r.1 ≡ some d) × (r.0.defer_ct ≡ below_zero d)
  unfolding get activate activate_value has_key set requests_itself below_zero
  requests_itself_lem zero n c key closure s idle deferred callable plain at enough =
      ground (arith, idle, deferred, at, above_three-level 0)
  requests_itself_lem (suc d) zero c key closure s idle deferred callable plain at enough =
      absurd (omega (arith, enough))
  requests_itself_lem (suc d) (suc n) c key closure s idle deferred callable plain at enough =
      let counted = record s { defer_ct = increased s.defer_ct } in
      let inner = get is_callable (requests_itself n (c ∷ key)) (c ∷ key) counted in
      let (depth, ct) =
        requests_itself_lem d n c key closure counted idle deferred callable plain
          (ap increased at ∙ increased-level d) (omega (arith, enough)) in
      ground (
        arith,
        idle,
        deferred,
        callable,
        at,
        depth,
        ct,
        above_three-level (suc d),
        increased-level d,
        decreased-below_zero d,
        get_active-set is_callable (requests_itself (suc n) (c ∷ key)) (c ∷ key) (long (suc d))
            inner.0 (plain (suc d)),
      )

  -- A closure that requests its own service is stopped by an error: with the counter at `4 - d`, and so many calls
  -- left, it is called `d` times before that, and the counter is then not where it was but at `-d`, which is
  -- `4 - (d + 4)`, so that four more calls are let through the next time.
  pub get-requests_itself :
      (d n : ℕ) (c : ℕ) (key : Bytes) (closure : Val) (s : Services)
      → has_key (name (c ∷ key)) s.active ≡ false
      → Php.get (name (c ∷ key)) s.defer ≡ some closure
      → is_callable closure ≡ true
      → ((m : ℕ) → is_callable (long m) ≡ false)
      → s.defer_ct ≡ level d
      → d ≤ n
      → let r = get is_callable (requests_itself n (c ∷ key)) (c ∷ key) s in
        (depth_of r.1 ≡ some d) × (r.0.defer_ct ≡ level (d + 4))
  get-requests_itself d n c key closure s idle deferred callable plain at enough =
      let (depth, ct) =
        requests_itself_lem d n c key closure s idle deferred callable plain at enough in
      (depth, ct ∙ below_zero-level d)
