-- ===== src/RouteSet/Settings.antt =====
-- The settings of src/wcc/route_set.cpp and what `serialize` keeps of a route set.
use zpp_cpp.Common.{
  ◌≡◌, refl, List, [], ◌∷◌, Option, none, some, if◌then◌else◌, Bytes, codes, equal,
}
use zpp_cpp.Php.{Val}
use zpp_cpp.RouteSet.{RouteSet, Table}

unfoldable pub set_not_found : Val → RouteSet → RouteSet
set_not_found target rs = record rs { not_found = target }

unfoldable pub set_method_sfx : Bytes → RouteSet → RouteSet
set_method_sfx name rs = record rs { method_sfx = name }

unfoldable pub set_file : Bytes → RouteSet → RouteSet
set_file name rs = record rs { file = name }

-- The values of a saved route set: a table or a text.
pub data Saved : Type 0 where
  table : Table → Saved
  text : Bytes → Saved

unfoldable pub save : RouteSet → List (Bytes × Saved)
save rs =
    (codes "fixed", table rs.fixed)
    ∷ (codes "vary", table rs.vary)
    ∷ (codes "file", text rs.file)
    ∷ []

unfoldable pub saved_at : Bytes → List (Bytes × Saved) → Option Saved
unfolding equal
saved_at k [] = none
saved_at k ((j, v) ∷ saved) = if equal j k then some v else saved_at k saved

-- A missing key gives null, the empty array or text.
abbrev table_of : Option Saved → Table
table_of (some (table t)) = t
table_of _ = []

abbrev saved_text : Option Saved → Bytes
saved_text (some (text s)) = s
saved_text _ = []

unfoldable pub load : List (Bytes × Saved) → RouteSet → RouteSet
load hr rs = record rs {
  fixed = table_of (saved_at (codes "fixed") hr);
  vary = table_of (saved_at (codes "vary") hr);
  file = saved_text (saved_at (codes "file") hr);
}

-- Loading what was saved gives the two tables and the file back, and keeps every other member of the
-- object that it is loaded into.
pub load-save :
    (rs old : RouteSet)
    → load (save rs) old ≡ record old { fixed = rs.fixed; vary = rs.vary; file = rs.file }
unfolding load save saved_at
load-save rs old = refl
