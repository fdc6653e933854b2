-- ===== src/SearchList.antt =====
-- src/wcc/search_list.cpp: a list of directories, the last one searched first. The paths are texts;
-- the join of two paths, the replacement of an extension and the test for a regular file are those
-- of `std::filesystem`, and are parameters.
pub mod Paths
pub mod Added
pub mod Leaf
use zpp_cpp.Common.{
  ℕ, zero, suc, Bool, true, false, List, [], ◌∷◌, ◌++◌, Option, none, some, length, get_or,
  if◌then◌else◌, Bytes,
}
use zpp_cpp.StrPtr.{zs_cmp, is_zero}
use zpp_cpp.RouteSet.{is_empty}

pub record SearchList : Type 0 where
  pub paths : List Bytes

-- `!zs_cmp(test, name)`
unfoldable pub same_path : Bytes → Bytes → Bool
same_path a b = is_zero (zs_cmp (some a) (some b))

-- The loops run from the last index down; `n` is the value of `pcount` before the decrement.
unfoldable pub has_from : ℕ → List Bytes → Bytes → Bool
has_from zero paths name = false
has_from (suc n) paths name =
    let rest = has_from n paths name in if same_path (get_or paths n []) name then true else rest

unfoldable pub has_path : SearchList → Bytes → Bool
has_path o name = has_from (length o.paths) o.paths name

unfoldable pub set_paths : List Bytes → SearchList → SearchList
set_paths list o = record o { paths = list }

unfoldable pub clear : SearchList → SearchList
clear o = record o { paths = [] }

unfoldable pub add_path : Bytes → SearchList → SearchList
add_path p o = if has_path o p then o else record o { paths = o.paths ++ p ∷ [] }

unfoldable pub add_from : ℕ → List Bytes → SearchList → SearchList
add_from zero list o = o
add_from (suc n) list o =
    let test = get_or list n [] in add_from n list (if is_empty test then o else add_path test o)

unfoldable pub add_paths : List Bytes → SearchList → SearchList
add_paths list o = add_from (length list) list o

module _ (is_regular_file : Bytes → Bool) (join replace_extension : Bytes → Bytes → Bytes) where
  abbrev pub try_path : Bytes → Bytes → Option Bytes
  try_path dir file = if is_regular_file (join dir file) then some (join dir file) else none

  -- The loop over the extensions: the leaf that it leaves, and what it found.
  unfoldable pub try_extensions : Bytes → Bytes → List Bytes → Bytes × Option Bytes
  try_extensions dir leaf [] = (leaf, none)
  try_extensions dir leaf (e ∷ exts) =
      let replaced = replace_extension leaf e in
      let rest = try_extensions dir replaced exts in
      elim (try_path dir replaced) [ none ↦ rest | some f ↦ (replaced, some f) ]

  -- The leaf with a replaced extension is what the next directory is searched for.
  unfoldable pub leaf_from : ℕ → List Bytes → Bytes → List Bytes → Option Bytes
  leaf_from zero paths leaf exts = none
  leaf_from (suc n) paths leaf exts =
      let dir = get_or paths n [] in
      let tried = try_extensions dir leaf exts in
      let rest = leaf_from n paths tried.0 exts in
      elim (try_path dir leaf) [
        | some f ↦ some f
        | none ↦ elim tried.1 [ some f ↦ some f | none ↦ rest ]
      ]

  unfoldable pub find_leaf : SearchList → Bytes → List Bytes → Option Bytes
  find_leaf o leaf exts = leaf_from (length o.paths) o.paths leaf exts
