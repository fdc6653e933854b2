-- ===== src/Services/Once.antt =====
-- A deferred closure of src/wcc/services.cpp is called once.
use zpp_cpp.Common.{◌≡◌, Bool, true, false, some, Bytes, ◌∷◌, ℕ, arith}
use zpp_cpp.Php
use zpp_cpp.Php.{Key, name, Val, has_key, key_equal}
use zpp_cpp.Php.Arrays.{get-set_same}
use zpp_cpp.Services.{
  Services, value, get, get_active, activate, activate_value, increased, decreased, above_three,
  set,
}

module _ (is_callable : Val → Bool) (call : Val → Services → Services × Val) where
  pub get_active-set :
      (n : Bytes) (v : Val) (s : Services)
      → is_callable v ≡ false
      → get_active is_callable call n (set n v s) ≡ (set n v s, value v)
  unfolding get_active set
  get_active-set n v s plain = ground (arith, plain, get-set_same (name n) v s.active)

  -- Where a service is deferred as a closure and is not active, the first request calls the closure, on the
  -- registry with its counter one up, and what the closure returns, if it is no closure itself, is stored
  -- as the active service and returned, with the counter one down; the second request returns the same
  -- value and changes nothing.
  pub get_twice :
      (c : ℕ) (n : Bytes) (closure : Val) (s : Services)
      → has_key (name (c ∷ n)) s.active ≡ false
      → Php.get (name (c ∷ n)) s.defer ≡ some closure
      → is_callable closure ≡ true
      → above_three s.defer_ct ≡ false
      → is_callable (call closure (record s { defer_ct = increased s.defer_ct })).1 ≡ false
      → let (called, v) = call closure (record s { defer_ct = increased s.defer_ct }) in
        let after = record called {
          active = Php.set (name (c ∷ n)) v called.active;
          defer_ct = decreased called.defer_ct;
        } in
        (get is_callable call (c ∷ n) s ≡ (after, value v))
        × (get is_callable call (c ∷ n) after ≡ (after, value v))
  unfolding get activate activate_value has_key set
  get_twice c n closure s idle deferred callable below plain =
      let (called, v) = call closure (record s { defer_ct = increased s.defer_ct }) in
      ground (
        arith,
        idle,
        deferred,
        callable,
        below,
        plain,
        get_active-set (c ∷ n) v called plain,
        get_active-set (c ∷ n) v (record called { defer_ct = decreased called.defer_ct }) plain,
        get-set_same (name (c ∷ n)) v called.active,
      )
