-- ===== src/Sql/Clauses/Store.antt =====
-- The clauses of `Bindings` of src/wcd/bindings.cpp, and how a value is added to one.
use zpp_cpp.Common.{
  ℕ, zero, suc, ◌+◌, Bool, ◌||◌, List, [], ◌∷◌, ◌++◌, map, Option, none, some, ltb, ◌==◌, length,
  if◌then◌else◌, Bytes, codes, pos,
}
use zpp_cpp.Php
use zpp_cpp.Php.{
  Key, name, index, Val, null, bool, long, str, arr, object, Arr, empty, entry, is_string, text_of,
}
use zpp_cpp.Php.Lists
use zpp_cpp.Php.Lists.{push_back}
use zpp_cpp.StrPtr.{tolower, strpos, subview}
use zpp_cpp.Sql.Columns.{
  TableAttr, IColumns, TColumns, new_columns, Split, parts, whole, split_dot, int_max,
}
use zpp_cpp.Sql.Columns
use zpp_cpp.Sql.Joins.{Table, tcols, JoinTables, set_prime}

-- The numbers of the clauses that the code names.
abbrev pub sql_update : ℕ
sql_update = 2

abbrev pub sql_where : ℕ
sql_where = 5

abbrev sql_join : ℕ
sql_join = 6

abbrev sql_from : ℕ
sql_from = 8

abbrev pub sql_order : ℕ
sql_order = 9

abbrev pub sql_limit : ℕ
sql_limit = 10

pub record Clauses : Type 0 where
  pub entries : Arr
  pub tables : List JoinTables

-- `Bindings::construct`
abbrev pub new_clauses : Clauses
new_clauses = record { entries = empty; tables = [] }

abbrev no_tables : JoinTables
no_tables = record {
  by_alias = [];
  results = [];
  conditions = [];
  joins = [];
  orderby = [];
  prime = none;
}

-- `Bindings::get`, and `set` and `unset` in their forms
unfoldable pub get : ℕ → Clauses → Option Val
get key b = Php.get (index key) b.entries

unfoldable pub set : ℕ → Val → Clauses → Clauses
set key v b = record b { entries = Php.set (index key) v b.entries }

unfoldable unset : ℕ → Clauses → Clauses
unset key b = record b { entries = Lists.unset (index key) b.entries }

-- `Bindings::wipe`, for one key and for all, which a key below 0 stands for
unfoldable wipe : Option ℕ → Clauses → Clauses
wipe none b = record b { entries = empty }
wipe (some key) b = unset key b

-- `Bindings::getArray`: an array that is not empty
unfoldable pub get_array : ℕ → Clauses → Option Arr
get_array key b = elim (Php.get (index key) b.entries) [
  | none ↦ none
  | some v ↦ elim v [ arr a ↦ if ltb 0 (Php.size a) then some a else none | _ ↦ none ]
]

-- The list under a key, which is empty where nothing or null stands there; another value is none.
abbrev pub list_at : Option Val → Option Arr
list_at none = some empty
list_at (some null) = some empty
list_at (some (arr a)) = some a
list_at _ = none

-- `Bindings::addToArray`; a value that is no array is a fault.
unfoldable pub add_to_array : ℕ → Val → Clauses → Option Clauses
unfolding set
add_to_array key v b = elim (list_at (Php.get (index key) b.entries)) [
  | none ↦ none
  | some a ↦ some (set key (arr (push_back v a)) b)
]

-- `Bindings::getJoins`: the number of the tables, which are made where there are none.
unfoldable pub get_joins : Clauses → Clauses × ℕ
get_joins b =
    let made : Clauses × ℕ = (
      record b {
        entries = Php.set (index sql_from) (object (length b.tables)) b.entries;
        tables = b.tables ++ no_tables ∷ [];
      },
      length b.tables,
    ) in
    elim (Php.get (index sql_from) b.entries) [
      | none ↦ made
      | some v ↦ elim v [ object n ↦ (b, n) | _ ↦ made ]
    ]

abbrev changed : (JoinTables → JoinTables) → ℕ → List JoinTables → Option (List JoinTables)
changed f n [] = none
changed f zero (t ∷ l) = some (f t ∷ l)
changed f (suc n) (t ∷ l) = elim (changed f n l) [ none ↦ none | some l' ↦ some (t ∷ l') ]

-- `getJoinTables()->setPrime`, and `Bindings::primeJoin`
unfoldable pub prime_join : Table → Clauses → Option Clauses
prime_join t b =
    let (b', n) = get_joins b in
    elim (changed (set_prime t) n b'.tables) [
      | none ↦ none
      | some l ↦ some (record b' { tables = l })
    ]

abbrev is_from : ℕ → Bool
is_from key = key == sql_from || key == sql_join

-- The table and the alias of a text such as "users as u": the parts before and behind the first " as " in
-- lower or upper case.
unfoldable pub split_as : Bytes → Option Bytes × Option Bytes
split_as tname = elim (strpos (some (map tolower tname)) (codes " as ")) [
  | none ↦ (some tname, none)
  | some k ↦ (subview tname (pos 0) (pos k), subview tname (pos (k + 4)) (pos int_max))
]

abbrev new_table : Option Bytes × Option Bytes → Table
new_table (tname, talias) = tcols (
    Columns.construct tname talias (str (codes "*"))
      (record { columns = new_columns; table_name = none; attr_map = [] }))

-- `Bindings::addstr`
unfoldable pub addstr : ℕ → Bytes → Clauses → Option Clauses
addstr key tname b =
    if is_from key
    then prime_join (new_table (split_as tname)) b
    else add_to_array key (str tname) b

-- `Bindings::addarray`
unfoldable pub addarray : ℕ → Arr → Clauses → Option Clauses
addarray key a b = if is_from key then some (set key (arr a) b) else add_to_array key (arr a) b

abbrev text_in : Val → Option Bytes
text_in (str s) = some s
text_in _ = none

-- `Bindings::add`
unfoldable pub add : ℕ → Val → Clauses → Option Clauses
add key v b = elim (text_in v) [
  | some s ↦ addstr key s b
  | none ↦ if is_from key then some (set key v b) else add_to_array key v b
]
