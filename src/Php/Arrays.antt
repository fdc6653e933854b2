-- ===== src/Php/Arrays.antt =====
-- The laws of `get` and `set`.
use zpp_cpp.Common.{◌+◌, ◌≡◌, ◌↔◌, refl, true, some, if◌then◌else◌, equal_iff, arith}
use zpp_cpp.Php.{Key, name, index, Val, Arr, empty, entry, key_equal, get, set, has_key, size}

pub key_equal_iff : (a b : Key) → (key_equal a b ≡ true) ↔ (a ≡ b)
unfolding key_equal
key_equal_iff (name a) (name b) = ground (arith, equal_iff a b)
key_equal_iff (index a) (index b) = ground arith
key_equal_iff (name a) (index b) = ground arith
key_equal_iff (index a) (name b) = ground arith

pub get-set :
    (k j : Key) (v : Val) (a : Arr)
    → get j (set k v a) ≡ (if key_equal k j then some v else get j a)
unfolding get set
get-set k j v empty = refl
get-set k j v (entry i w r) =
    ground (arith, key_equal_iff k j, key_equal_iff i k, key_equal_iff i j, get-set k j v r)

pub get-set_same : (k : Key) (v : Val) (a : Arr) → get k (set k v a) ≡ some v
get-set_same k v a = ground (arith, get-set k k v a, key_equal_iff k k)

-- A value that is set where it stands already changes nothing.
pub set_again : (k : Key) (v : Val) (a : Arr) → get k a ≡ some v → set k v a ≡ a
unfolding get set
set_again k v empty h = cc
set_again k v (entry j w r) h = ground (arith, h, set_again k v r)

pub size-set :
    (k : Key) (v : Val) (a : Arr) → size (set k v a) ≡ (if has_key k a then size a else size a + 1)
unfolding get set has_key size
size-set k v empty = ground arith
size-set k v (entry i w r) = ground (arith, size-set k v r)
