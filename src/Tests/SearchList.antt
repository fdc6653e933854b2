-- ===== src/Tests/SearchList.antt =====
-- The results about src/wcc/search_list.cpp at concrete inputs: a path is joined by its bytes, an
-- extension is put behind the leaf, and one file exists.
use zpp_cpp.Common.{
  ℕ, ◌<◌, ◌≡◌, Bool, true, false, List, [], ◌∷◌, ◌++◌, length, get_or, Bytes, codes, equal,
}
use zpp_cpp.RouteSet.{is_empty}
use zpp_cpp.SearchList.{SearchList, has_path, add_paths}
use zpp_cpp.SearchList.Paths.{distinct_paths}
use zpp_cpp.SearchList.Added.{add_paths_cases}

abbrev two_dirs : SearchList
two_dirs = record { paths = codes "a" ∷ codes "b" ∷ [] }

abbrev more : List Bytes
more = codes "b" ∷ codes "c" ∷ []

abbrev joined : Bytes → Bytes → Bytes
joined d f = d ++ b'/' ∷ f

abbrev extended : Bytes → Bytes → Bytes
extended f e = f ++ e

abbrev one_file : Bytes → Bool
one_file p = equal p (codes "a/x.php")

add_paths_cases_example :
    (distinct_paths two_dirs.paths ≡ true → distinct_paths (add_paths more two_dirs).paths ≡ true)
    × ((name : Bytes)
        → has_path two_dirs name ≡ true
        → has_path (add_paths more two_dirs) name ≡ true)
    × ((i : ℕ)
        → i < length more
        → is_empty (get_or more i []) ≡ false
        → has_path (add_paths more two_dirs) (get_or more i []) ≡ true)
add_paths_cases_example = add_paths_cases more two_dirs
