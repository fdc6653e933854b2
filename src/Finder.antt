-- ===== src/Finder.antt =====
-- src/wcc/finder.cpp: the file of a class, by its name space or a table of classes, the file of a leaf in a list
-- of folders, and lists of directories. The tests and listings of the file system, `basename` and the
-- patterns of `glob` are parameters.
pub mod Segments
pub mod Longest
use zpp_cpp.Common.{
  ℤ, pos, negsuc, ℕ, zero, suc, ◌+◌, ◌-◌, Bool, true, false, ◌&&◌, ◌||◌, List, [], ◌∷◌, ◌++◌,
  Option, none, some, ltb, ◌==◌, length, get_or, take, drop, map, equal, if◌then◌else◌, Bytes,
  codes,
}
use zpp_cpp.Php
use zpp_cpp.Php.{Key, name, index, Val, str, Arr, empty, entry, text_of, is_string}
use zpp_cpp.Php.Lists.{push_back, value_index}
use zpp_cpp.StrPtr.{tolower, ends_with, zs_cmp, is_zero}

pub record Finder : Type 0 where
  pub ns_paths : Arr
  pub classes : Arr
  pub folders : Arr

abbrev pub new_finder : Finder
new_finder = record { ns_paths = empty; classes = empty; folders = empty }

-- `Finder::addFolder`, `addPath` and `addClass`
unfoldable pub add_folder : Bytes → Finder → Finder
add_folder dir f = record f { folders = push_back (str dir) f.folders }

unfoldable pub add_ns_path : Bytes → Bytes → Finder → Finder
add_ns_path root path f = record f { ns_paths = Php.set (name root) (str path) f.ns_paths }

unfoldable pub add_class : Bytes → Bytes → Finder → Finder
add_class cname path f = record f { classes = Php.set (name cname) (str path) f.classes }

abbrev key_text : Key → Bytes
key_text (name s) = s
key_text (index i) = []

-- `Finder::addPathArray`, with whether there is an error; the pairs before it are kept.
unfoldable pub add_path_array : Arr → Finder → Finder × Bool
add_path_array empty f = (f, false)
add_path_array (entry k v r) f =
    let rest = add_path_array r (add_ns_path (key_text k) (text_of (some v)) f) in
    if length (key_text k) == 0 || length (text_of (some v)) == 0 then (f, true) else rest

-- The loop of `Finder::addClasses`
unfoldable pub add_entries : Arr → Arr → Arr
add_entries empty classes = classes
add_entries (entry k v r) classes = add_entries r (Php.set k v classes)

unfoldable pub add_classes : Arr → Finder → Finder
add_classes a f = record f { classes = add_entries a f.classes }

abbrev pub backslash : ℕ
backslash = b'\\'

abbrev pub slash : ℕ
slash = b'/'

-- `rfind('\\', epos)` with `n = epos + 1`: the last backslash among the first `n` bytes.
unfoldable pub last_backslash : ℕ → Bytes → Option ℕ
last_backslash zero s = none
last_backslash (suc n) s =
    let before = last_backslash n s in if get_or s n 0 == backslash then some n else before

abbrev pub php_ext : Bytes
php_ext = codes ".php"

abbrev pub text_at : Option Val → Option Bytes
text_at (some (str s)) = some s
text_at _ = none

module _ (exists : Bytes → Bool) where
  -- The loop of `Finder::findLeaf`
  unfoldable pub find_leaf : Bytes → Arr → Option Bytes
  find_leaf leaf empty = none
  find_leaf leaf (entry k v r) =
      let rest = find_leaf leaf r in
      let test = text_of (some v) ++ slash ∷ leaf in if exists test then some test else rest

  -- The file under a name space that is the first `p` bytes of the class, if there is one.
  unfoldable pub ns_file : ℕ → Bytes → Bytes → Arr → Option Bytes
  ns_file p cname behind ns_paths = elim (text_at (Php.get (name (take p cname)) ns_paths)) [
    | none ↦ none
    | some path ↦ if exists (path ++ behind) then some (path ++ behind) else none
  ]

  -- The rounds of `findClass` behind the first: `n` is `epos + 1`, the position of the last backslash that was
  -- found, and `behind` is `sub_path` with `file_name`. The number before it is fuel.
  unfoldable pub ns_loop : ℕ → ℕ → Bytes → Bytes → Arr → Option Bytes
  ns_loop zero n cname behind ns_paths = none
  ns_loop (suc fuel) n cname behind ns_paths = elim (last_backslash n cname) [
    | none ↦ none
    | some zero ↦ none
    | some (suc p) ↦
        let bs = suc p in
        let seg = take (n - suc bs) (drop (suc bs) cname) in
        let behind' = slash ∷ (seg ++ behind) in
        elim (ns_file bs cname behind' ns_paths) [
          | some found ↦ some found
          | none ↦ ns_loop fuel bs cname behind' ns_paths
        ]
  ]

  -- The loop of `Finder::findClass` from its first round on; the name of a class without a name space is not
  -- looked for.
  unfoldable pub find_in_ns : Bytes → Arr → Option Bytes
  find_in_ns cname ns_paths = elim (last_backslash (length cname) cname) [
    | none ↦ none
    | some zero ↦ none
    | some (suc p) ↦
        let bs = suc p in
        let behind = slash ∷ (drop (suc bs) cname ++ php_ext) in
        elim (ns_file bs cname behind ns_paths) [
          | some found ↦ some found
          | none ↦ ns_loop (length cname) bs cname behind ns_paths
        ]
  ]

  -- `Finder::findClass`
  unfoldable pub find_class : Bytes → Finder → Option Bytes
  find_class cname f =
      let listed = text_of (Php.get (name cname) f.classes) in
      if ltb 0 (length listed) then some listed else find_in_ns cname f.ns_paths

-- The last place of a byte in a text, `rfind`
unfoldable pub last_of : ℕ → ℕ → Bytes → Option ℕ
last_of c zero s = none
last_of c (suc n) s = let before = last_of c n s in if get_or s n 0 == c then some n else before

-- `Finder::path_ext`; `base` is `path_base`, PHP's `basename`.
unfoldable pub path_ext : (Bytes → Bytes) → Bytes → Bytes
path_ext base [] = []
path_ext base (c ∷ s) = elim (last_of b'.' (length (base (c ∷ s))) (base (c ∷ s))) [
  | none ↦ []
  | some k ↦ drop (k + 1) (base (c ∷ s))
]

abbrev found_in : ℤ → Bool
found_in (pos i) = true
found_in (negsuc i) = false

-- The loop of `Finder::find_extension` over the paths that `glob` gives; `hash` is the hash of a
-- text key.
unfoldable pub first_extension : (Bytes → Bytes) → (Bytes → ℤ) → Arr → List Bytes → Option Bytes
first_extension base hash exts [] = none
first_extension base hash exts (p ∷ paths) =
    let rest = first_extension base hash exts paths in
    if found_in (value_index hash (path_ext base p) exts) then some p else rest

unfoldable pub find_extension :
    (Bytes → List Bytes) → (Bytes → Bytes) → (Bytes → ℤ) → Bytes → Arr → Option Bytes
find_extension glob base hash fpath exts =
    first_extension base hash exts
      (glob (if ends_with fpath (codes ".*") then fpath else fpath ++ codes ".*"))

abbrev is_dots : Bytes → Bool
is_dots s =
    is_zero (zs_cmp (some s) (some (codes "."))) || is_zero (zs_cmp (some s) (some (codes "..")))

-- The loop of `Finder::dirList_dir` over the entries of a directory
unfoldable pub dir_list_dir : (Bytes → Bool) → Bytes → List Bytes → Arr → Arr
dir_list_dir is_dir path [] list = list
dir_list_dir is_dir path (e ∷ entries) list =
    let full = path ++ slash ∷ e in
    dir_list_dir is_dir path entries
      (if is_dots e then list else (if is_dir full then Php.set (name e) (str full) list else list))

-- The loop of `Finder::dirList_fileExt`; without extensions no entry is listed.
unfoldable pub dir_list_file_ext : (Bytes → Bytes) → (Bytes → ℤ) → Arr → List Bytes → Arr → Arr
dir_list_file_ext base hash exts [] list = list
dir_list_file_ext base hash exts (e ∷ entries) list = dir_list_file_ext base hash exts entries (
    if ltb 0 (Php.size exts) && found_in (value_index hash (map tolower (path_ext base e)) exts)
    then push_back (str e) list
    else list)
