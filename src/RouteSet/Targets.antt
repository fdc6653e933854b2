-- ===== src/RouteSet/Targets.antt =====
-- What `copy_target` does to the target of a route.
use zpp_cpp.Common.{
  ◌≡◌, ◌≢◌, refl, true, false, [], ◌∷◌, ◌++◌, Option, none, some, if◌then◌else◌, Bytes, arith, ap,
  Bool-cases, inl, inr,
}
use zpp_cpp.Php
use zpp_cpp.Php.{Key, Val, null, long, str, arr, target_obj, callable, object, Arr}
use zpp_cpp.Php.Arrays.{get-set, key_equal_iff}
use zpp_cpp.Route.{Route}
use zpp_cpp.StrPtr.{ends_with}
use zpp_cpp.StrPtr.Views.{ends_with_iff}
use zpp_cpp.RouteSet.{RouteSet, is_empty, mod_s, suffix_of, with_suffix, copy_to, copy_target}

is_empty-false : (s : Bytes) → is_empty s ≡ false → s ≢ []
is_empty-false [] h = cc
is_empty-false (c ∷ s) h = λ e. cc

ends_with-append : (m s : Bytes) → is_empty s ≡ false → ends_with (m ++ s) s ≡ true
ends_with-append m s h = (ends_with_iff (m ++ s) s).1 (is_empty-false s h, (m, refl))

with_suffix_idem : (m s : Bytes) → with_suffix (with_suffix m s) s ≡ with_suffix m s
unfolding with_suffix
with_suffix_idem m s = ground (arith, ends_with-append m s)

with_suffix_ends : (m s : Bytes) → is_empty s ≡ false → ends_with (with_suffix m s) s ≡ true
unfolding with_suffix
with_suffix_ends m s h = ground (arith, ends_with-append m s h)

has_mod : (v : Val) (a : Arr) → Php.has_key mod_s (Php.set mod_s v a) ≡ true
unfolding Php.has_key
has_mod v a = ground (arith, get-set mod_s mod_s v a, (key_equal_iff mod_s mod_s).1 refl)

set_mod : (v : Val) (a : Arr) → Php.get mod_s (Php.set mod_s v a) ≡ some v
set_mod v a = ground (arith, get-set mod_s mod_s v a, (key_equal_iff mod_s mod_s).1 refl)

-- Preparing a route's target a second time changes nothing: the module is not set again, and the
-- suffix is not appended twice.
pub copy_target_idem :
    (rs : RouteSet) (r : Route) → copy_target rs (copy_target rs r) ≡ copy_target rs r
unfolding copy_target
copy_target_idem rs r = ap (λ t. record r { target = t }) (twice r.target)
  where
    twice : (t : Val) → copy_to rs r.verbs (copy_to rs r.verbs t) ≡ copy_to rs r.verbs t
    twice (target_obj cls m p) = ground (
      arith,
      with_suffix_idem m (suffix_of rs.method_sfx r.verbs),
      has_mod (str rs.module_name) p,
    )
    twice null = refl
    twice _ = refl

-- The method that a route calls after `copy_target`, and the module that its target names.
abbrev pub method_of : Val → Bytes
method_of (target_obj cls m p) = m
method_of _ = []

abbrev pub module_of : Val → Option Val
module_of (target_obj cls m p) = Php.get mod_s p
module_of _ = none

-- After `copy_target` the method of a route's `Target` ends with the suffix of the set, if there is
-- one, and its module is the one that it named, or else the module of the set.
pub copy_target_method :
    (rs : RouteSet) (r : Route) (cls m : Bytes) (p : Arr)
    → r.target ≡ target_obj cls m p
    → (is_empty (suffix_of rs.method_sfx r.verbs) ≡ false
        → ends_with (method_of (copy_target rs r).target) (suffix_of rs.method_sfx r.verbs) ≡ true)
      × (module_of (copy_target rs r).target
          ≡ (if Php.has_key mod_s p then Php.get mod_s p else some (str rs.module_name)))
unfolding copy_target
copy_target_method rs r cls m p h = (
  λ some_suffix. rw h (with_suffix_ends m (suffix_of rs.method_sfx r.verbs) some_suffix),
  elim (Bool-cases (Php.has_key mod_s p)) [
    | inl named ↦ rw (h, named) refl
    | inr unnamed ↦ rw (h, unnamed) (set_mod (str rs.module_name) p)
  ],
)
