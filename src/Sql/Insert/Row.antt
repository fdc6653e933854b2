-- ===== src/Sql/Insert/Row.antt =====
-- The values that an INSERT statement binds for a row.
use zpp_cpp.Common.{
  ℕ, zero, suc, ◌+◌, ◌<◌, ◌≡◌, refl, sym, ◌∙◌, Bool, true, false, none, some, [], Bytes, equal,
  equal_iff, Bool-cases, inl, inr, arith,
}
use zpp_cpp.Php
use zpp_cpp.Php.{Key, name, index, Val, str, Arr, empty, entry, key_equal, text_of, size}
use zpp_cpp.Php.Lists.{
  push_back, next_index, is_list, is_list_from, push_back-is_list, push_back_before,
}
use zpp_cpp.Sql.Params.{positional, IParams, add_param_equals, list_loop}
use zpp_cpp.Sql.Params.Bound.{value_at, IsExtended, list_loop-IsExtended}
use zpp_cpp.Sql.Insert.{
  new_params, array_in, col_loop, insert_col_params, push_all, get_values, or_null, question,
  extract_loop, extract_params,
}

-- No value of the row is an array.
abbrev pub IsPlainRow : Arr → Type 0
IsPlainRow empty = Unit
IsPlainRow (entry k v r) = (array_in v ≡ none) × IsPlainRow r

-- Every value is the placeholder.
abbrev AllMarks : Arr → Type 0
AllMarks empty = Unit
AllMarks (entry k v r) = (v ≡ str question) × AllMarks r

set-AllMarks : (k : Key) (a : Arr) → AllMarks a → AllMarks (Php.set k (str question) a)
unfolding Php.set
set-AllMarks k empty h = (refl, tt)
set-AllMarks k (entry i w r) h = elim (Bool-cases (key_equal i k)) [
  | inl same ↦ rw same (refl, h.1)
  | inr other ↦ rw other (h.0, set-AllMarks k r h.1)
]

-- Parameters that are a list of so many placeholders.
abbrev IsMarked : ℕ → Arr → Type 0
IsMarked n a = (is_list a ≡ true) × (size a ≡ n) × AllMarks a

push-IsMarked : (n : ℕ) (a : Arr) → IsMarked n a → IsMarked (n + 1) (push_back (str question) a)
unfolding push_back
push-IsMarked n a (list, sized, marks) =
    let (list', grown, last) = push_back-is_list (str question) a list in
    (list', omega (arith, grown, sized), set-AllMarks (index (next_index a)) a marks)

add_zero : (n : ℕ) → n + 0 ≡ n
add_zero n = omega arith

next_place : (n m : ℕ) → n + suc m ≡ n + 1 + m
next_place n m = omega arith

module _ (quoted : Bytes → Bytes) (print_int : ℕ → Bytes) (to_zstr : Val → Bytes) where
  col_loop-IsMarked :
      (first : Bool) (pcount n : ℕ) (row : Arr) (p : IParams)
      → IsPlainRow row
      → IsMarked n p.params
      → IsMarked (n + size row) (col_loop quoted print_int to_zstr first pcount row p).0.params
  unfolding col_loop add_param_equals size
  col_loop-IsMarked first pcount n empty p plain h = rw (add_zero n) h
  col_loop-IsMarked first pcount n (entry k v r) p plain h =
      rw (plain.0, next_place n (size r))
        (col_loop-IsMarked false (pcount + 1) (n + 1) r
          (record p { params = push_back (str question) p.params }) plain.1
          (push-IsMarked n p.params h))

list_push_all :
    (ix : ℕ) (first : Bool) (values a : Arr)
    → (list_loop (λ n. []) (λ v. []) positional ix first values a).0 ≡ push_all values a
unfolding list_loop push_all
list_push_all ix first empty a = refl
list_push_all ix first (entry k v r) a = list_push_all (ix + 1) false r (push_back v a)

get_values-IsExtended : (row : Arr) → IsExtended empty row (get_values row)
unfolding get_values is_list is_list_from
get_values-IsExtended row =
    rw (← list_push_all 0 true row empty)
      (list_loop-IsExtended (λ n. []) (λ v. []) positional 0 true row empty refl)

-- What the loop of `extract_params` adds to a list of `n` values: the values of the row from number `n` on.
abbrev Extracts : Arr → ℕ → Arr → Arr → Arr → Type 0
Extracts values n plist params after =
    (is_list after ≡ true)
    × (size after ≡ n + size plist)
    × ((i : ℕ) → i < n → Php.get (index i) after ≡ Php.get (index i) params)
    × ((i : ℕ)
        → i < size plist
        → Php.get (index (n + i)) after ≡ some (or_null (Php.get (index (n + i)) values)))

extract_loop-Extracts :
    (other n : ℕ) (values plist params : Arr)
    → is_list_from n plist ≡ true
    → AllMarks plist
    → is_list params ≡ true
    → size params ≡ n
    → Extracts values n plist params (extract_loop other values plist params)
unfolding extract_loop is_list_from size
extract_loop-Extracts other n values empty params h marks list sized =
    (list, sized ∙ sym (add_zero n), λ i small. refl, λ i small. absurd (omega (arith, small)))
extract_loop-Extracts other n values (entry (name s) v r) params h marks list sized =
    absurd (ground (arith, h))
extract_loop-Extracts other n values (entry (index j) v r) params h marks list sized =
    let here : j ≡ n = ground (arith, h) in
    let later : is_list_from (n + 1) r ≡ true = ground (arith, h) in
    let marked : equal (text_of (some v)) question ≡ true =
      rw (marks.0) ((equal_iff question question).1 refl) in
    let w : Val = or_null (Php.get (index n) values) in
    let (list', grown, last) = push_back-is_list w params list in
    let (list'', size'', old, new) =
      extract_loop-Extracts other (n + 1) values r (push_back w params) later marks.1 list'
        (omega (arith, grown, sized)) in
    rw (marked, here)
      (
        list'',
        omega (arith, size''),
        λ i small.
            old i (omega (arith, small))
            ∙ push_back_before w params i list (omega (arith, small, sized)),
        elim [
          | zero ↦ λ small. rw (add_zero n) (old n (omega arith) ∙ rw sized at last)
          | suc i ↦ λ small. rw (next_place n i) (new i (omega (arith, small)))
        ],
      )

zero_add : (n : ℕ) → 0 + n ≡ n
zero_add n = omega arith

value_there : (i : ℕ) (a : Arr) → i < size a → (v : Val) × (value_at i a ≡ some v)
unfolding size
value_there i empty h = absurd (omega (arith, h))
value_there zero (entry k v r) h = (v, refl)
value_there (suc i) (entry k v r) h = value_there i r (omega (arith, h))

-- The new parameters of a row without an array, and the values that `extract_params` finds for them in
-- the same row, are a list of the row's values in the row's order, whatever its keys.
pub extract_params-insert_col_params :
    (quoted : Bytes → Bytes) (print_int : ℕ → Bytes) (to_zstr : Val → Bytes) (other : ℕ) (row : Arr)
    → IsPlainRow row
    → let (p, text) = insert_col_params quoted print_int to_zstr row in
      let values = extract_params other row p.params empty in
      (is_list values ≡ true)
      × (size values ≡ size row)
      × ((i : ℕ) → i < size row → Php.get (index i) values ≡ value_at i row)
unfolding insert_col_params extract_params is_list is_list_from size
extract_params-insert_col_params quoted print_int to_zstr other row plain =
    let p : IParams = (col_loop quoted print_int to_zstr true 0 row new_params).0 in
    let (list, sized, marks) =
      col_loop-IsMarked quoted print_int to_zstr true 0 0 row new_params plain (refl, refl, tt) in
    let (list', sized', old, new) =
      extract_loop-Extracts other 0 (get_values row) p.params empty list marks refl refl in
    let (lv, sv, ov, nv) = get_values-IsExtended row in
    (
      list',
      omega (arith, sized', sized),
      λ i small.
          let (v, there) = value_there i row small in
          let seen : Php.get (index i) (get_values row) ≡ value_at i row =
            rw (zero_add i) at (nv i small) in
          let found : Php.get (index i) (extract_loop other (get_values row) p.params empty)
              ≡ some (or_null (Php.get (index i) (get_values row))) =
            rw (zero_add i) at (new i (omega (arith, small, sized))) in
          found ∙ rw (seen, there) refl,
    )
