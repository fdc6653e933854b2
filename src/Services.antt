-- ===== src/Services.antt =====
-- src/wcc/services.cpp: the registry of services, with values, deferred closures and single objects. What
-- PHP does is given by parameters: which values can be called, what a call of one does to the
-- registry and returns, the making of an object, and the tests of objects and classes.
pub mod Once
pub mod Depth
pub mod Single
use zpp_cpp.Common.{
  ℕ, zero, suc, Bool, true, false, not, ◌&&◌, ◌||◌, List, [], ◌∷◌, ◌++◌, Option, none, some, ltb,
  ◌==◌, if◌then◌else◌, Bytes, codes, ℤ, pos, negsuc,
}
use zpp_cpp.Php
use zpp_cpp.Php.{
  Key, name, Val, null, bool, long, str, arr, target_obj, callable, object, Arr, empty,
}
use zpp_cpp.Php.Lists

pub record Services : Type 0 where
  pub active : Arr
  pub defer : Arr
  pub instances : Arr
  pub throw_fail : Bool
  pub defer_ct : ℤ

-- `val_return` and `obj_return`: a value, or an error with its text.
pub data Reply : Type 0 where
  value : Val → Reply
  error : Bytes → Reply

-- `Services::Services`
abbrev pub new_services : Services
new_services = record {
  active = empty;
  defer = empty;
  instances = empty;
  throw_fail = false;
  defer_ct = pos 0;
}

unfoldable pub clear_active : Services → Services
clear_active s = record s { active = empty }

unfoldable pub clear_defer : Services → Services
clear_defer s = record s { defer = empty }

unfoldable pub clear_objects : Services → Services
clear_objects s = record s { instances = empty }

unfoldable pub is_active : Bytes → Services → Bool
is_active n s = Php.has_key (name n) s.active

unfoldable pub has : Bytes → Services → Bool
has n s = Php.has_key (name n) s.active || Php.has_key (name n) s.defer

unfoldable pub set_defer : Bytes → Val → Services → Services
set_defer n v s = record s { defer = Php.set (name n) v s.defer }

-- `Services::set` in its three forms
unfoldable pub set : Bytes → Val → Services → Services
set n v s = record s { active = Php.set (name n) v s.active }

unfoldable pub unset : Bytes → Services → Services
unset n s = record s { active = Lists.unset (name n) s.active }

unfoldable pub set_throw_fail : Bool → Services → Services
set_throw_fail b s = record s { throw_fail = b }

-- `defer_ct_++`, `defer_ct_--` and `defer_ct_ > 3`; the counter is not kept from falling below 0.
unfoldable pub increased : ℤ → ℤ
increased (pos n) = pos (suc n)
increased (negsuc zero) = pos 0
increased (negsuc (suc n)) = negsuc n

unfoldable pub decreased : ℤ → ℤ
decreased (pos zero) = negsuc 0
decreased (pos (suc n)) = pos n
decreased (negsuc n) = negsuc (suc n)

unfoldable pub above_three : ℤ → Bool
above_three (pos n) = ltb 3 n
above_three (negsuc n) = false

-- A value as an object: `obj_rc` of another kind of value is null.
abbrev pub object_of : Option Val → Option Val
object_of (some (target_obj c m p)) = some (target_obj c m p)
object_of (some callable) = some callable
object_of (some (object n)) = some (object n)
object_of _ = none

module _ (is_callable : Val → Bool) (call : Val → Services → Services × Val) where
  -- `Services::get` where the service is found among the active ones. In `activate` it has just been
  -- stored there.
  unfoldable pub get_active : Bytes → Services → Services × Reply
  get_active n s = elim (Php.get (name n) s.active) [
    | none ↦ (s, value null)
    | some v ↦ if is_callable v then (let (s', r) = call v s in (s', value r)) else (s, value v)
  ]

  -- `Services::activate` for a deferred value, after its tests
  unfoldable pub activate_value : Bytes → Val → Services → Services × Reply
  activate_value key test s =
      let counted = record s { defer_ct = increased s.defer_ct } in
      let (called, v) = call test counted in
      let (s', r) =
        if is_callable test then get_active key (set key v called) else (counted, value test) in
      (record s' { defer_ct = decreased s'.defer_ct }, r)

  -- `Services::activate`
  unfoldable pub activate : Bytes → Services → Services × Reply
  activate key s = elim (Php.get (name key) s.defer) [
    | none ↦ (
      s,
      if s.throw_fail
          then error (codes "Service " ++ (key ++ codes " does not exist"))
          else value null,
    )
    | some test ↦
        if above_three s.defer_ct
        then (
          record s { defer_ct = pos 0 },
          error (codes "Service request '" ++ (key ++ codes "' recursed more than 3 times")),
        )
        else activate_value key test s
  ]

  -- `Services::get`
  unfoldable pub get : Bytes → Services → Services × Reply
  get [] s = (s, value null)
  get (c ∷ n) s =
      if Php.has_key (name (c ∷ n)) s.active then get_active (c ∷ n) s else activate (c ∷ n) s

-- `make` is `ReflectCache::newInstance` and `newInstanceArgs`.

-- `Services::newInstance` and `makeOne`; the object is stored under the name of its class.
unfoldable pub new_instance : (Bytes → Arr → Option Val) → Bytes → Arr → Services → Services × Reply
new_instance make n args s = elim (make n args) [
  | none ↦ (s, error (codes "Failed to make " ++ n))
  | some o ↦ (record s { instances = Php.set (name n) o s.instances }, value o)
]

-- `Services::getObject`
unfoldable pub get_object : Bytes → Services → Option Val
get_object key s = object_of (Php.get (name key) s.instances)

-- `Services::setObject` and `setOne`; a null key is `none`.
unfoldable pub set_object : (Val → Bytes) → Val → Option Bytes → Services → Services
set_object class_name o none s = record s {
  instances = Php.set (name (class_name o)) o s.instances;
}
set_object class_name o (some key) s = record s { instances = Php.set (name key) o s.instances }

-- `Services::getOne`
unfoldable pub get_one :
    (Bytes → Arr → Option Val) → (Bytes → Bool) → Bytes → Arr → Services → Services × Reply
get_one make class_exists key args s = elim (get_object key s) [
  | some o ↦ (s, value o)
  | none ↦
      if class_exists key
      then new_instance make key args s
      else (s, error (codes "Services::getOne cannot make object with key " ++ key))
]

abbrev pub value_or_null : Reply → Val
value_or_null (value v) = v
value_or_null (error e) = null

abbrev pub differs : (Val → Val → Bool) → Option Val → Val → Bool
differs same_object none o = true
differs same_object (some t) o = not (same_object t o)

-- `Services::singleton` where there is no instance of the class yet
unfoldable pub first_time : (Bytes → Arr → Option Val) → Bytes → Bytes → Services → Services × Reply
first_time make key cname s =
    let (s', r) = new_instance make cname empty s in (set key (value_or_null r) s', r)

-- `Services::singleton` and `objectService`
unfoldable pub singleton :
    (Bytes → Arr → Option Val)
    → (Val → Bytes → Bool)
    → (Val → Val → Bool)
    → Bytes
    → Bytes
    → Services
    → Services × Reply
singleton make instance_of same_object key cname s =
    let test = object_of (Php.get (name key) s.active) in
    elim (get_object cname s) [
      | some cobj ↦ (if differs same_object test cobj then set key cobj s else s, value cobj)
      | none ↦ elim test [
        | none ↦ first_time make key cname s
        | some t ↦
            if instance_of t cname
            then (record s { instances = Php.set (name cname) t s.instances }, value t)
            else first_time make key cname s
      ]
    ]
