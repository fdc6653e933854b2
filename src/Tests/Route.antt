-- ===== src/Tests/Route.antt =====
-- The results about src/wcc/route.cpp at concrete inputs.
use zpp_cpp.Common.{arith, ◌≡◌, codes}
use zpp_cpp.Php.{str}
use zpp_cpp.Route.{Route, serialize, unserialize, new_route, post}
use zpp_cpp.Route.Serial.{unserialize-serialize}

abbrev posted : Route
unfolding post
posted = post (codes "/save") (str (codes "Form")) 3

unserialize-serialize_example : unserialize (serialize posted) new_route ≡ posted
unfolding posted
unserialize-serialize_example = unserialize-serialize posted new_route (omega arith) (omega arith)
