-- ===== src/Sql/Insert.antt =====
-- `ISql::insert_col_params` and `extract_params` of src/wcd/isql.cpp, and `htab_rc::getValues`: the columns of
-- an INSERT statement, and the values of a row for its placeholders.
pub mod Row
use zpp_cpp.Common.{
  ℕ, suc, ◌+◌, Bool, true, false, [], ◌∷◌, ◌++◌, Option, none, some, equal, if◌then◌else◌, Bytes,
  codes,
}
use zpp_cpp.Php
use zpp_cpp.Php.{Key, name, index, Val, null, long, str, arr, Arr, empty, entry, text_of}
use zpp_cpp.Php.Lists.{push_back}
use zpp_cpp.Sql.Params.{positional, IParams, add_param_equals}
use zpp_cpp.Sql.Joins.{key_text}

abbrev pub new_params : IParams
new_params = record { params = empty; sql = none; val_params = empty; ret_values = empty }

-- The text for a value that is an array: its first entry, or, where that says so, its second.
abbrev default_place : Arr → Bytes
default_place a =
    let place = text_of (Php.get (index 0) a) in
    if equal place (codes "default") then text_of (Php.get (index 1) a) else place

abbrev pub array_in : Val → Option Arr
array_in (arr a) = some a
array_in _ = none

abbrev separated : Bool → Bytes → Bytes
separated true s = s
separated false s = codes "," ++ s

module _ (quoted : Bytes → Bytes) (print_int : ℕ → Bytes) (to_zstr : Val → Bytes) where
  abbrev next_param : ℕ → IParams → IParams × Bytes
  next_param pcount p = add_param_equals print_int to_zstr positional (long pcount) p

  abbrev pub place_of : Option Arr → ℕ → IParams → IParams × (ℕ × Bytes)
  place_of (some a) pcount p = (p, (pcount, default_place a))
  place_of none pcount p = let (q, text) = next_param pcount p in (q, (pcount + 1, text))

  -- The loop over the row: the parameters, the texts of the columns and of their places.
  unfoldable pub col_loop : Bool → ℕ → Arr → IParams → IParams × (Bytes × Bytes)
  col_loop first pcount empty p = (p, ([], []))
  col_loop first pcount (entry k v r) p =
      let (q, next) = place_of (array_in v) pcount p in
      let (after, texts) = col_loop false next.0 r q in
      (after, (separated first (quoted (key_text k)) ++ texts.0, separated first next.1 ++ texts.1))

  -- `ISql::insert_col_params`, which begins with new parameters
  unfoldable pub insert_col_params : Arr → IParams × Bytes
  unfolding col_loop
  insert_col_params row =
      let (p, texts) = col_loop true 0 row new_params in
      (p, codes " (" ++ (texts.0 ++ (codes ") VALUES (" ++ (texts.1 ++ codes ")"))))

-- `htab_rc::getValues`
unfoldable pub push_all : Arr → Arr → Arr
push_all empty a = a
push_all (entry k v r) a = push_all r (push_back v a)

unfoldable pub get_values : Arr → Arr
unfolding push_all
get_values row = push_all row empty

abbrev pub or_null : Option Val → Val
or_null none = null
or_null (some v) = v

abbrev pub index_of : ℕ → Key → ℕ
index_of other (name s) = other
index_of other (index i) = i

abbrev pub question : Bytes
question = codes "?"

-- The loop of `extract_params` over the placeholders; the index of a text key is that of the walk, `other`.
unfoldable pub extract_loop : ℕ → Arr → Arr → Arr → Arr
extract_loop other values empty params = params
extract_loop other values (entry k v r) params =
    let rowvalue = or_null (Php.get (index (index_of other k)) values) in
    let pushed = extract_loop other values r (push_back rowvalue params) in
    let named = extract_loop other values r (Php.set (name (text_of (some v))) rowvalue params) in
    if equal (text_of (some v)) question then pushed else named

-- `extract_params`
unfoldable pub extract_params : ℕ → Arr → Arr → Arr → Arr
unfolding extract_loop get_values
extract_params other row plist params = extract_loop other (get_values row) plist params
