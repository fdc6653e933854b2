-- ===== src/Tests/Finder.antt =====
-- The theorem on the files of classes at a concrete class.
use zpp_cpp.Common.{◌≡◌, Bool, Bytes, codes, equal}
use zpp_cpp.Php.{name, str, Arr, empty, entry}
use zpp_cpp.Finder.{find_in_ns}
use zpp_cpp.Finder.Longest.{longest, find_in_ns-longest}

abbrev only_file : Bytes → Bool
only_file p = equal p (codes "/src/Db/Row.php")

abbrev app_folder : Arr
app_folder = entry (name (codes "App")) (str (codes "/src")) empty

find_in_ns-longest_example :
    find_in_ns only_file (codes "App\\Db\\Row") app_folder
    ≡ longest only_file (codes "App\\Db\\Row") app_folder 10
find_in_ns-longest_example = find_in_ns-longest only_file (codes "App\\Db\\Row") app_folder
