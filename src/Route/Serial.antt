-- ===== src/Route/Serial.antt =====
-- Serialising a route and reading it back.
use zpp_cpp.Common.{ℕ, ◌<◌, ◌%◌, ◌≡◌, arith}
use zpp_cpp.Php.{get, set, key_equal}
use zpp_cpp.Route.{Route, int_cast, serialize, unserialize}

int_cast_lem : (n : ℕ) → n < 2147483648 → int_cast n ≡ n
unfolding int_cast
int_cast_lem n h = let same : n % 4294967296 ≡ n = omega (arith, h) in ground (arith, same, h)

-- Reading a serialised route, whose flags are below 2 ^ 31, back, into any route object, gives the
-- route: each of its seven fields.
pub unserialize-serialize :
    (r old : Route) → r.verbs < 2147483648 → r.ajax < 2147483648 → unserialize (serialize r) old ≡ r
unfolding unserialize serialize get set key_equal
unserialize-serialize r old v a = ground (arith, int_cast_lem r.verbs v, int_cast_lem r.ajax a)
