-- ===== src/Services/Single.antt =====
-- The single objects of src/wcc/services.cpp: `singleton`.
use zpp_cpp.Common.{◌≡◌, refl, Bool, true, Option, none, some, Bytes, arith, ◌⊎◌, inl, inr}
use zpp_cpp.Php
use zpp_cpp.Php.{
  Key, name, Val, Arr, empty, null, bool, long, str, arr, target_obj, callable, object,
}
use zpp_cpp.Php.Arrays.{get-set_same, set_again}
use zpp_cpp.Services.{
  Services, value, singleton, first_time, new_instance, get_object, object_of, set,
}

object_cases :
    (x : Option Val) → (object_of x ≡ none) ⊎ ((v : Val) × (x ≡ some v) × (object_of x ≡ some v))
object_cases none = inl refl
object_cases (some (target_obj c m p)) = inr (target_obj c m p, refl, refl)
object_cases (some callable) = inr (callable, refl, refl)
object_cases (some (object n)) = inr (object n, refl, refl)
object_cases (some (str s)) = inl refl
object_cases (some (arr a)) = inl refl
object_cases (some (long n)) = inl refl
object_cases (some (bool b)) = inl refl
object_cases (some null) = inl refl

module _ (make : Bytes → Arr → Option Val) (instance_of : Val → Bytes → Bool)
    (same_object : Val → Val → Bool) where
  settled :
      (key cname : Bytes) (o : Val) (s : Services)
      → Php.get (name cname) s.instances ≡ some o
      → Php.get (name key) s.active ≡ some o
      → object_of (some o) ≡ some o
      → singleton make instance_of same_object key cname s ≡ (s, value o)
  unfolding singleton get_object set
  settled key cname o s there active is_object =
      ground (arith, there, active, is_object, set_again (name key) o s.active)

  first_call :
      (key cname : Bytes) (s : Services) {o : Val}
      → ((n : Bytes) (args : Arr) (v : Val) → make n args ≡ some v → object_of (some v) ≡ some v)
      → ((v w : Val) → same_object v w ≡ true → v ≡ w)
      → (singleton make instance_of same_object key cname s).1 ≡ value o
      → let s' = (singleton make instance_of same_object key cname s).0 in
        (Php.get (name cname) s'.instances ≡ some o)
        × (Php.get (name key) s'.active ≡ some o)
        × (object_of (some o) ≡ some o)
  unfolding singleton first_time new_instance get_object set
  first_call key cname s {o} objects same h =
      elim (object_cases (Php.get (name cname) s.instances)) [
        | inr (c, at, e) ↦ elim (object_cases (Php.get (name key) s.active)) [
          | inl none_active ↦
              ground (arith, h, at, e, none_active, get-set_same (name key) c s.active)
          | inr (t, at_key, e') ↦
              ground (arith, h, at, e, at_key, e', same t c, get-set_same (name key) c s.active)
        ]
        | inl none_there ↦ elim (object_cases (Php.get (name key) s.active)) [
          | inl none_active ↦ ground (
            arith,
            h,
            none_there,
            none_active,
            objects cname empty o,
            get-set_same (name key) o s.active,
            get-set_same (name cname) o s.instances,
          )
          | inr (t, at_key, e') ↦ ground (
            arith,
            h,
            none_there,
            at_key,
            e',
            objects cname empty o,
            get-set_same (name key) o s.active,
            get-set_same (name cname) o s.instances,
          )
        ]
      ]

  -- Where `singleton` returns an object, and the objects that are made are objects, and two that are the same
  -- are equal, that object is the instance of the class and the active service, and a second call
  -- returns it again and leaves the registry as it is.
  pub singleton_twice :
      (key cname : Bytes) (s : Services) {o : Val}
      → ((n : Bytes) (args : Arr) (v : Val) → make n args ≡ some v → object_of (some v) ≡ some v)
      → ((v w : Val) → same_object v w ≡ true → v ≡ w)
      → (singleton make instance_of same_object key cname s).1 ≡ value o
      → let s' = (singleton make instance_of same_object key cname s).0 in
        (Php.get (name cname) s'.instances ≡ some o)
        × (Php.get (name key) s'.active ≡ some o)
        × (singleton make instance_of same_object key cname s' ≡ (s', value o))
  singleton_twice key cname s {o} objects same h =
      let s' = (singleton make instance_of same_object key cname s).0 in
      let (there, active, is_object) = first_call key cname s objects same h in
      (there, active, settled key cname o s' there active is_object)
