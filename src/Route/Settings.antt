-- ===== src/Route/Settings.antt =====
-- The setters of src/wcc/route.cpp and route.h.
use zpp_cpp.Common.{ℕ, Bytes}
use zpp_cpp.Php.{Val, Arr}
use zpp_cpp.Route.{Route}

unfoldable pub set_name : Bytes → Route → Route
set_name name r = record r { id = name }

unfoldable pub set_params : Arr → Route → Route
set_params params r = record r { params = params }

unfoldable pub set_target : Val → Route → Route
set_target tg r = record r { target = tg }

unfoldable pub set_pattern : Bytes → Route → Route
set_pattern p r = record r { pattern = p }

unfoldable pub set_compiled : Bytes → Route → Route
set_compiled c r = record r { compiled = c }

unfoldable pub set_ajax : ℕ → Route → Route
set_ajax value r = record r { ajax = value }
