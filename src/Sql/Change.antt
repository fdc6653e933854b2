-- ===== src/Sql/Change.antt =====
-- `ISql::deleteSql`, `update`, `truncate`, `setSeqValue` and `tableClass` of src/wcd/isql.cpp. Where the source follows the
-- pointer of a table that is missing, there is no result.
pub mod Stored
use zpp_cpp.Common.{
  ℕ, Bool, true, false, List, [], ◌∷◌, ◌++◌, Option, none, some, ◌==◌, ◌||◌, if◌then◌else◌, Bytes,
  codes,
}
use zpp_cpp.Php.{Val, bool, Arr, empty, entry}
use zpp_cpp.StrPtr.Bytewise.{to_upper}
use zpp_cpp.Sql.Params.{Kind, IParams, add_param_equals}
use zpp_cpp.Sql.Emit.{null_pointer, Text, Emitted, plain, failed, text_or_nil}
use zpp_cpp.Sql.Where.{Conds, no_conds, cond, followed, headed, where_sql}
use zpp_cpp.Sql.Joins.{Table, get_name, columns_of, key_text, JoinTables}
use zpp_cpp.Sql.Select.{Ordered, alias_in, order_part, finished}

abbrev pub first_table : List (Bytes × Table) → Option Table
first_table [] = none
first_table ((n, t) ∷ tables) = some t

-- The pairs of the bindings, or each column of the table with the value false.
abbrev pub set_pairs : Option (List (Bytes × Val)) → Arr → List (Bytes × Val)
set_pairs (some pairs) names = pairs
set_pairs none empty = []
set_pairs none (entry k v r) = (key_text k, bool false) ∷ set_pairs none r

module _ (quoted : Bytes → Bytes) (print_int : ℕ → Bytes) (to_zstr : Val → Bytes) (k : Kind)
    (array_merge : Arr → Arr → Arr) where
  abbrev pub where_word : Conds → Bytes
  where_word no_conds = []
  where_word (cond bop c t cs) = codes " WHERE"

  -- The conditions of a deletion; an empty array is none.
  abbrev pub deleting : JoinTables → Option Conds → IParams → Emitted
  deleting jt none p = (p, plain [])
  deleting jt (some cs) p =
      let e =
        where_sql quoted print_int to_zstr k (alias_in quoted print_int to_zstr k array_merge jt)
          array_merge cs p in
      followed (where_word cs) e (e.0, plain [])

  -- What stands in front of the conditions, and the table that it names.
  abbrev pub delete_head : Option Table → IParams → Emitted
  delete_head none p = (p, null_pointer)
  delete_head (some t) p = (p, plain (codes "DELETE FROM " ++ quoted (text_or_nil (get_name t))))

  -- `ISql::deleteSql`
  unfoldable pub delete_sql : Option Conds → Option (List Ordered) → JoinTables → IParams → Emitted
  delete_sql conds orders jt p =
      let head = delete_head (first_table jt.by_alias) p in
      let cond = deleting jt conds head.0 in
      finished quoted print_int to_zstr k array_merge (
        followed [] head (
          followed [] cond
            (cond.0, plain (order_part quoted print_int to_zstr k array_merge orders))))

  -- The loop over the columns to be set.
  unfoldable pub set_text : Bool → List (Bytes × Val) → IParams → Emitted
  set_text first [] p = (p, plain [])
  set_text first ((n, v) ∷ pairs) p =
      let here =
        headed ((if first then codes " " else codes ", ") ++ (quoted n ++ codes " = "))
          (add_param_equals print_int to_zstr k v p) in
      followed [] here (set_text false pairs here.0)

  abbrev pub updated : Option Table → Option Table → Option (List (Bytes × Val)) → IParams → Emitted
  updated none prime pairs p = (p, failed [] (codes "No update table"))
  updated (some t) prime (some pairs) p =
      let e = set_text true pairs p in
      followed (codes "UPDATE " ++ (quoted (text_or_nil (get_name t)) ++ codes " SET")) e
        (e.0, plain [])
  updated (some t) none none p = (p, null_pointer)
  updated (some t) (some icol) none p =
      let e = set_text true (set_pairs none (columns_of icol).colnames) p in
      followed (codes "UPDATE " ++ (quoted (text_or_nil (get_name t)) ++ codes " SET")) e
        (e.0, plain [])

  abbrev pub updating : JoinTables → Option Conds → IParams → Emitted
  updating jt none p = (p, plain [])
  updating jt (some cs) p =
      let e =
        where_sql quoted print_int to_zstr k (alias_in quoted print_int to_zstr k array_merge jt)
          array_merge cs p in
      followed (codes " WHERE") e (e.0, plain [])

  -- `ISql::update`
  unfoldable pub update_sql :
      Option (List (Bytes × Val)) → Option Conds → JoinTables → IParams → Emitted
  unfolding set_text
  update_sql pairs conds jt p =
      let head = updated (first_table jt.by_alias) jt.prime pairs p in
      finished quoted print_int to_zstr k array_merge (followed [] head (updating jt conds head.0))

-- `ISql::truncate`, with the text of `getTruncateSql`
unfoldable pub truncate : (Bytes → Bytes) → Bytes → Option Table → Text
truncate quoted delete_from none = failed [] (codes "Error: Truncate table not set")
truncate quoted delete_from (some t) =
    plain (delete_from ++ (codes " " ++ quoted (text_or_nil (get_name t))))

-- `ISql::setSeqValue`; the name is the entry "seq" of its array.
unfoldable pub set_seq_value : (ℕ → Bytes) → ℕ → Option Bytes → Text
set_seq_value print_int v none = failed [] (codes "Missing name for setSeqValue")
set_seq_value print_int v (some seq) =
    plain (codes "select setval('" ++ (seq ++ (codes "'," ++ (print_int v ++ codes ")"))))

-- The loop of `ISql::tableClass`: dashes and underscores make the next byte a capital.
unfoldable pub class_loop : Bool → Bytes → Bytes
class_loop upper_next [] = []
class_loop upper_next (c ∷ s) =
    let again = class_loop true s in
    let later = class_loop false s in
    if c == b'-' || c == b'_' then again else (if upper_next then to_upper c else c) ∷ later

-- `ISql::tableClass` and `ISql::entityClass`
unfoldable pub table_class : Bytes → Bytes
unfolding class_loop
table_class s = class_loop true s
