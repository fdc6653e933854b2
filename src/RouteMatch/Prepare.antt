-- ===== src/RouteMatch/Prepare.antt =====
-- What `prepare_call` makes of a target that is an array.
use zpp_cpp.Common.{◌≡◌, refl, false, not, ◌&&◌, if◌then◌else◌, Bytes, codes, [], ◌∷◌}
use zpp_cpp.Php
use zpp_cpp.Php.{Key, name, index, Val, str, Arr, empty, entry, text_of}
use zpp_cpp.RouteSet.{is_empty}
use zpp_cpp.RouteMatch.{RouteMatch, set_tuple12, set_tuple14, set_target_array, verify_has_method}

abbrev pub pair_target : Bytes → Bytes → Arr
pair_target cls method = entry (index 0) (str cls) (entry (index 1) (str method) empty)

abbrev pub triple_target : Bytes → Bytes → Bytes → Arr
triple_target mod_name cls method =
    entry (index 0) (str mod_name) (entry (index 1) (str cls) (entry (index 2) (str method) empty))

empty_then : (a b : Bytes) → (if is_empty a then a else b) ≡ (if is_empty a then [] else b)
empty_then [] b = refl
empty_then (c ∷ a) b = refl

module _ (array_merge : Arr → Arr → Arr) where
  -- The entries `_mod`, `_obj` and `_fun` that are texts and not empty are the module, the class and
  -- the method, whatever stands at the positions.
  pub set_target_array_names :
      (tg : Arr) (m : RouteMatch)
      → (is_empty (text_of (Php.get (name (codes "_mod")) tg)) ≡ false
          → (set_target_array array_merge tg m).module_name
            ≡ text_of (Php.get (name (codes "_mod")) tg))
        × (is_empty (text_of (Php.get (name (codes "_obj")) tg)) ≡ false
            → (set_target_array array_merge tg m).ob_class
              ≡ text_of (Php.get (name (codes "_obj")) tg))
        × (is_empty (text_of (Php.get (name (codes "_fun")) tg)) ≡ false
            → (set_target_array array_merge tg m).ob_method
              ≡ text_of (Php.get (name (codes "_fun")) tg))
  unfolding set_target_array
  set_target_array_names tg m = (λ h. rw h refl, λ h. rw h refl, λ h. rw h refl)

  -- A list of two texts names the class and the method and leaves the module; the check of
  -- `verify_has_method` passes exactly when both are not empty.
  pub set_target_array-pair_target :
      (cls method : Bytes) (m : RouteMatch)
      → let m' = set_target_array array_merge (pair_target cls method) m in
        (m'.ob_class ≡ cls)
        × (m'.ob_method ≡ method)
        × (m'.module_name ≡ m.module_name)
        × (verify_has_method m' ≡ (not (is_empty cls) && not (is_empty method)))
  unfolding set_target_array set_tuple12 verify_has_method Php.get Php.key_equal Php.size
      Php.has_key
  set_target_array-pair_target cls method m = (refl, refl, refl, refl)

  -- A list of three texts names the module, the class and the method; but the module is taken only
  -- where the match has a module name already, and is lost where it has none.
  pub set_target_array-triple_target :
      (mod_name cls method : Bytes) (m : RouteMatch)
      → let m' = set_target_array array_merge (triple_target mod_name cls method) m in
        (m'.ob_class ≡ cls)
        × (m'.ob_method ≡ method)
        × (m'.module_name ≡ (if is_empty m.module_name then [] else mod_name))
        × (verify_has_method m' ≡ (not (is_empty cls) && not (is_empty method)))
  unfolding set_target_array set_tuple14 verify_has_method Php.get Php.key_equal Php.size
      Php.has_key
  set_target_array-triple_target mod_name cls method m =
      (refl, refl, empty_then m.module_name mod_name, refl)
