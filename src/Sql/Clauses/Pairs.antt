-- ===== src/Sql/Clauses/Pairs.antt =====
-- `whereKeyValue` of src/wcd/bindings.cpp on a list of columns and a list of values.
use zpp_cpp.Common.{
  ℕ, ◌+◌, ◌≤◌, ◌<◌, ◌≡◌, refl, ◌∙◌, true, false, List, [], ◌∷◌, some, codes, arith,
}
use zpp_cpp.Php
use zpp_cpp.Php.{
  Key, name, index, Val, null, bool, long, str, arr, target_obj, callable, object, Arr, empty,
  entry, key_equal, size,
}
use zpp_cpp.Php.Arrays.{get-set, get-set_same}
use zpp_cpp.Php.Lists.{push_back, is_list, is_list_from}
use zpp_cpp.Sql.Clauses.Store.{Clauses, list_at, add_to_array, sql_where, add, set}
use zpp_cpp.Sql.Clauses.Conditions.{
  condition, equals, where_cond, where_columns, where_key_value, is_null,
}

-- The columns and the values side by side.
abbrev pub paired : Arr → Arr → List (Val × Val)
paired empty values = []
paired (entry k c r) empty = (c, null) ∷ paired r empty
paired (entry k c r) (entry j v s) = (c, v) ∷ paired r s

-- The entries of the condition that a column is equal to a value, joined by AND to the one before. A null value
-- is the text "=".
abbrev compared : Val → Val
compared null = str (codes "=")
compared v = v

abbrev equality : Val → Val → Arr
equality c v = entry (name (codes "column")) c (
    entry (name (codes "value")) (compared v) (
      entry (name (codes "operator")) (str (codes "=")) (
        entry (name (codes "boolean")) (str (codes "AND"))
          (entry (name (codes "type")) (str (codes "basic")) empty))))

-- A list with such a condition behind it for each pair.
abbrev pub pushed : List (Val × Val) → Arr → Arr
pushed [] a = a
pushed ((c, v) ∷ l) a = pushed l (push_back (arr (equality c v)) a)

condition_lem : (c v : Val) → condition c (codes "=") v (codes "AND") ≡ equality c v
unfolding condition
condition_lem c null = refl
condition_lem c (bool b) = refl
condition_lem c (long n) = refl
condition_lem c (str s) = refl
condition_lem c (arr a) = refl
condition_lem c (target_obj cls m p) = refl
condition_lem c callable = refl
condition_lem c (object n) = refl

-- The list of conditions is `a` and all else as in `b`.
pub record Holds (b : Clauses) (a : Arr) (b' : Clauses) : Type 0 where
  pub list : list_at (Php.get (index sql_where) b'.entries) ≡ some a
  pub others :
      (j : Key) → key_equal (index sql_where) j ≡ false → Php.get j b'.entries ≡ Php.get j b.entries
  pub tables : b'.tables ≡ b.tables

equals-Holds :
    (c v : Val) (a : Arr) (b b' : Clauses)
    → Holds b a b'
    → (b2 : Clauses) × (equals c v b' ≡ some b2) × Holds b (pushed ((c, v) ∷ []) a) b2
unfolding where_cond add add_to_array set
equals-Holds c v a b b' h =
    let grown = arr (push_back (arr (equality c v)) a) in
    (
      set sql_where grown b',
      rw (condition_lem c v) (ground (arith, h.list)),
      record {
        list = rw (get-set_same (index sql_where) grown b'.entries);
        others = λ j other.
            ground (arith, other, get-set (index sql_where) j grown b'.entries, h.others j other);
        tables = h.tables;
      },
    )

-- What a lookup finds from a number on depends on the part of a list from there on.
module _ (values : Arr) where
  abbrev AgreesFrom : ℕ → Arr → Type 0
  AgreesFrom n rest = (i : ℕ) → n ≤ i → Php.get (index i) values ≡ Php.get (index i) rest

  where_columns-Holds :
      (n : ℕ) (keys rest : Arr) (a : Arr) (b b' : Clauses)
      → is_list_from n keys ≡ true
      → is_list_from n rest ≡ true
      → size keys ≡ size rest
      → AgreesFrom n rest
      → Holds b a b'
      → (b2 : Clauses) × (where_columns keys values b' ≡ some b2)
        × Holds b (pushed (paired keys rest) a) b2
  unfolding where_columns is_list_from size Php.get key_equal
  where_columns-Holds n empty rest a b b' hk hr same agree h = (b', refl, h)
  where_columns-Holds n (entry k c r) empty a b b' hk hr same agree h =
      absurd (ground (arith, same))
  where_columns-Holds n (entry (name k) c r) (entry j v s) a b b' hk hr same agree h =
      absurd (ground (arith, hk))
  where_columns-Holds n (entry (index k) c r) (entry (name j) v s) a b b' hk hr same agree h =
      absurd (ground (arith, hr))
  where_columns-Holds n (entry (index k) c r) (entry (index j) v s) a b b' hk hr same agree h =
      let at_n : (n ≡ k) × (n ≡ j) = ground (arith, hk, hr) in
      let found : Php.get (index k) values ≡ some v =
        ground (arith, at_n, agree k (omega (arith, at_n.0))) in
      let (b1, sets, h1) = equals-Holds c v a b b' h in
      let (b2, rest_sets, h2) =
        where_columns-Holds (n + 1) r s (push_back (arr (equality c v)) a) b b1 (ground (arith, hk))
          (ground (arith, hr)) (omega (arith, same))
          (λ i later. agree i (omega (arith, later)) ∙ ground (arith, at_n, later)) h1 in
      (b2, rw (found, sets) rest_sets, h2)

size_pos : (values : Arr) {first : Val} → Php.get (index 0) values ≡ some first → 0 < size values
unfolding Php.get size
size_pos empty h = cc
size_pos (entry k v r) h = omega arith

-- With a list of columns and a list of values of one length, the first of which is not null, and a list of
-- conditions, or none, in the bindings, `whereKeyValue` returns no error, and the conditions are as
-- before and then for each column, in their order, one with this column, the operator "=", the
-- connective "AND", and the value beside the column or, where that is null, the text "=". No other clause and no table changes.
pub where_key_value-Holds :
    (keys values : Arr) (first : Val) (a : Arr) (b : Clauses)
    → is_list keys ≡ true
    → is_list values ≡ true
    → size keys ≡ size values
    → Php.get (index 0) values ≡ some first
    → is_null first ≡ false
    → list_at (Php.get (index sql_where) b.entries) ≡ some a
    → (b' : Clauses) × (where_key_value (arr keys) (arr values) b ≡ some (b', false))
      × Holds b (pushed (paired keys values) a) b'
unfolding where_key_value is_list
where_key_value-Holds keys values first a b hk hv same there not_null start =
    let (b', sets, h) =
      where_columns-Holds values 0 keys values a b b hk hv same (λ i _. refl)
        (record { list = start; others = λ j _. refl; tables = refl }) in
    (b', ground (arith, sets, same, there, not_null, size_pos values there), h)
