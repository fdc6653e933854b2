-- ===== src/Sql/Columns/Names.antt =====
-- The names of the columns, and the objects that `attr` keeps.
use zpp_cpp.Common.{
  ◌≡◌, refl, Bool, false, ◌||◌, Option, none, some, Bytes, equal, equal_iff, arith, Option-cases,
  inl, inr, lookup, store, lookup-store, lookup-store_same,
}
use zpp_cpp.Php
use zpp_cpp.Php.{Key, name, index, Val, Arr, empty, entry, key_equal, has_key}
use zpp_cpp.Php.Arrays.{get-set}
use zpp_cpp.Sql.Columns.{
  TableAttr, make_ta, IColumns, named, renamed, add_names, add, has, TColumns, attr_of, shown,
  set_alias,
}

-- The list has an entry of this name.
abbrev pub names_it : Bytes → Arr → Bool
names_it n empty = false
names_it n (entry k v r) = equal (named k v) n || names_it n r

has_key-set :
    (k j : Key) (v : Val) (a : Arr) → has_key j (Php.set k v a) ≡ (key_equal k j || has_key j a)
unfolding has_key
has_key-set k j v a = ground (arith, get-set k j v a)

has_key-add_names :
    (n : Bytes) (columns names : Arr)
    → has_key (name n) (add_names columns names) ≡ (names_it n columns || has_key (name n) names)
unfolding add_names key_equal
has_key-add_names n empty names = refl
has_key-add_names n (entry k v r) names =
    rw
      (
        has_key-add_names n r (Php.set (name (named k v)) (renamed k v) names),
        has_key-set (name (named k v)) (name n) (renamed k v) names,
      )
      (or_swap (names_it n r) (equal (named k v) n) (has_key (name n) names))
  where
    or_swap : (a b c : Bool) → (a || (b || c)) ≡ ((b || a) || c)
    or_swap a b c = ground arith

-- After `add` the columns are those that were there and those that the list names, and no other.
pub has-add :
    (n : Bytes) (columns : Arr) (c : IColumns)
    → has n (add columns c) ≡ (names_it n columns || has n c)
unfolding has add
has-add n columns c = has_key-add_names n columns c.colnames

-- Every object that is kept has the name under which it is kept.
abbrev pub KeepsNames : TColumns → Type 0
KeepsNames tc = (n : Bytes) (ta : TableAttr) → lookup n tc.attr_map ≡ some ta → ta.attr ≡ n

attr_hit :
    (n : Bytes) (tc : TColumns) (ta : TableAttr)
    → lookup n tc.attr_map ≡ some ta
    → attr_of n tc ≡ (tc, ta)
unfolding attr_of
attr_hit n tc ta e = rw (e, attr_of) refl

attr_miss :
    (n : Bytes) (tc : TColumns)
    → lookup n tc.attr_map ≡ none
    → attr_of n tc
      ≡ (record tc { attr_map = store n (make_ta (shown tc) n) tc.attr_map }, make_ta (shown tc) n)
unfolding attr_of
attr_miss n tc e = rw (e, attr_of) refl

attr_of-lookup :
    (n : Bytes) (tc : TColumns) → lookup n (attr_of n tc).0.attr_map ≡ some (attr_of n tc).1
attr_of-lookup n tc = elim (Option-cases (lookup n tc.attr_map)) [
  | inl e ↦ rw (attr_miss n tc e) (lookup-store_same n (make_ta (shown tc) n) tc.attr_map)
  | inr (ta, e) ↦ rw (attr_hit n tc ta e) e
]

-- `attr` gives an object for the column that is asked for, and every object that it keeps stays one for
-- the column under whose name it is kept.
pub attr_of-KeepsNames :
    (n : Bytes) (tc : TColumns)
    → KeepsNames tc
    → KeepsNames (attr_of n tc).0 × ((attr_of n tc).1.attr ≡ n)
attr_of-KeepsNames n tc h = elim (Option-cases (lookup n tc.attr_map)) [
  | inl e ↦ rw (attr_miss n tc e) (
    (λ m ta found.
        ground (
          arith,
          lookup-store n m (make_ta (shown tc) n) tc.attr_map,
          equal_iff n m,
          h m ta,
          found,
        )),
    refl,
  )
  | inr (ta, e) ↦ rw (attr_hit n tc ta e) (h, h n ta e)
]

-- Asked again for a name, with an alias set in between or not, `attr` gives the object of the first time,
-- and keeps its state.
pub attr_of_again :
    (n : Bytes) (alias : Option Bytes) (tc : TColumns)
    → let first = attr_of n tc in
      let later : TColumns = record first.0 { columns = set_alias alias first.0.columns } in
      attr_of n later ≡ (later, first.1)
attr_of_again n alias tc =
    let first = attr_of n tc in
    attr_hit n (record first.0 { columns = set_alias alias first.0.columns }) first.1
      (attr_of-lookup n tc)
