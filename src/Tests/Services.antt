-- ===== src/Tests/Services.antt =====
-- The theorems on the services at concrete registries.
use zpp_cpp.Common.{
  ℕ, ◌≡◌, refl, Bool, true, false, Option, some, Bytes, codes, ◌==◌, ==_iff, ap, arith,
}
use zpp_cpp.Php
use zpp_cpp.Php.{
  Key, name, Val, null, long, callable, object, Arr, empty, entry, has_key, key_equal,
}
use zpp_cpp.Services.{
  Services, value, new_services, get, singleton, object_of, get_object, first_time, new_instance,
  increased, decreased, above_three,
}
use zpp_cpp.Services.Once.{get_twice}
use zpp_cpp.Services.Depth.{requests_itself, get-requests_itself, level, depth_of}
use zpp_cpp.Services.Single.{singleton_twice}

abbrev can_call : Val → Bool
can_call callable = true
can_call _ = false

-- A closure that returns 7
abbrev seven : Val → Services → Services × Val
seven v s = (s, long 7)

abbrev deferred : Services
deferred = record new_services { defer = entry (name (codes "db")) callable empty }

abbrev activated : Services
activated = record deferred { active = entry (name (codes "db")) (long 7) empty }

get_twice_example :
    (get can_call seven (codes "db") deferred ≡ (activated, value (long 7)))
    × (get can_call seven (codes "db") activated ≡ (activated, value (long 7)))
unfolding Php.get Php.set has_key key_equal increased decreased above_three
get_twice_example =
    get_twice can_call seven b'd' (codes "b") callable deferred refl refl refl refl refl

no_number : (m : ℕ) → can_call (long m) ≡ false
no_number m = refl

get-requests_itself_example :
    let r = get can_call (requests_itself can_call 5 (codes "db")) (codes "db") deferred in
    (depth_of r.1 ≡ some 4) × (r.0.defer_ct ≡ level 8)
unfolding Php.get has_key key_equal level
get-requests_itself_example =
    get-requests_itself can_call 4 5 b'd' (codes "b") callable deferred refl refl refl no_number
      refl (omega arith)

abbrev maker : Bytes → Arr → Option Val
maker n args = some (object 3)

abbrev same_number : Val → Val → Bool
same_number (object m) (object n) = m == n
same_number _ _ = false

maker_objects :
    (n : Bytes) (args : Arr) (v : Val) → maker n args ≡ some v → object_of (some v) ≡ some v
maker_objects n args v h = ground (arith, h)

same_number_eq : (v w : Val) → same_number v w ≡ true → v ≡ w
same_number_eq (object m) (object n) h = ap object ((==_iff m n).0 h)
same_number_eq v w h = cc

abbrev logged : Services
logged = (singleton maker (λ v c. true) same_number (codes "log") (codes "Log") new_services).0

singleton_twice_example :
    (Php.get (name (codes "Log")) logged.instances ≡ some (object 3))
    × (Php.get (name (codes "log")) logged.active ≡ some (object 3))
    × (singleton maker (λ v c. true) same_number (codes "log") (codes "Log") logged
        ≡ (logged, value (object 3)))
unfolding singleton get_object Php.get first_time new_instance
singleton_twice_example =
    singleton_twice maker (λ v c. true) same_number (codes "log") (codes "Log") new_services
      maker_objects same_number_eq refl
