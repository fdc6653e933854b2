-- ===== src/Sql/Params/Bound.antt =====
-- The values that are found under the placeholders of a statement.
use zpp_cpp.Common.{
  ℕ, zero, suc, ◌+◌, ◌-◌, ◌<◌, ◌≡◌, refl, ◌∙◌, Bool, true, false, ◌++◌, Option, none, some, Bytes,
  codes, arith, if◌then◌else◌, Bool-cases, inl, inr,
}
use zpp_cpp.Php
use zpp_cpp.Php.{Key, name, index, Val, Arr, empty, entry, key_equal, get, has_key, size}
use zpp_cpp.Php.Arrays.{get-set, size-set, key_equal_iff}
use zpp_cpp.Php.Lists.{push_back, is_list, is_list_from, push_back-is_list, push_back_before}
use zpp_cpp.Sql.Params.{
  Kind, named, IParams, param_str, add_param_equals, list_loop, add_param_list, make_loop,
  make_list,
}

-- No name of a later number is in use.
abbrev pub IsNumbered : (ℕ → Bytes) → IParams → Type 0
IsNumbered print_int p =
    (m : ℕ) → size p.params < m → get (name (codes ":p" ++ print_int m)) p.params ≡ none

name_inj : {a b : Bytes} → name a ≡ name b → a ≡ b
name_inj {a} {b} e = ground (arith, e)

names_apart :
    (print_int : ℕ → Bytes) (n m : ℕ)
    → ((a b : ℕ) → print_int a ≡ print_int b → a ≡ b)
    → n < m
    → key_equal (name (codes ":p" ++ print_int n)) (name (codes ":p" ++ print_int m)) ≡ false
names_apart print_int n m inj small =
    elim (Bool-cases
      (key_equal (name (codes ":p" ++ print_int n)) (name (codes ":p" ++ print_int m)))) [
        | inr apart ↦ apart
        | inl same ↦
            let names =
              (key_equal_iff (name (codes ":p" ++ print_int n))
                  (name (codes ":p" ++ print_int m))).0
                same in
            let numbers : print_int n ≡ print_int m = ground (arith, name_inj names) in
            absurd (omega (arith, small, inj n m numbers))
      ]

-- Where no two numbers are written alike, a named parameter is stored under the new name that is returned
-- for it, all others keep their values, and the next number is free again.
pub add_param_equals-IsNumbered :
    (print_int : ℕ → Bytes) (to_zstr : Val → Bytes) (v : Val) (p : IParams)
    → ((a b : ℕ) → print_int a ≡ print_int b → a ≡ b)
    → IsNumbered print_int p
    → let (after, text) = add_param_equals print_int to_zstr named v p in
      (get (name text) after.params ≡ some v)
      × ((j : Key) → key_equal (name text) j ≡ false → get j after.params ≡ get j p.params)
      × (size after.params ≡ size p.params + 1)
      × IsNumbered print_int after
unfolding add_param_equals param_str has_key
add_param_equals-IsNumbered print_int to_zstr v p inj free =
    let text : Bytes = codes ":p" ++ print_int (size p.params + 1) in
    let fresh : get (name text) p.params ≡ none = free (size p.params + 1) (omega arith) in
    let gets : (j : Key)
        → get j (Php.set (name text) v p.params)
          ≡ (if key_equal (name text) j then some v else get j p.params) =
      λ j. get-set (name text) j v p.params in
    let grown : size (Php.set (name text) v p.params) ≡ size p.params + 1 =
      ground (arith, size-set (name text) v p.params, fresh) in
    (
      ground (arith, gets (name text), key_equal_iff (name text) (name text)),
      λ j other. ground (arith, gets j, other),
      grown,
      λ m above.
          let later : size p.params + 1 < m = omega (arith, above, grown) in
          ground (
            arith,
            gets (name (codes ":p" ++ print_int m)),
            names_apart print_int (size p.params + 1) m inj later,
            free m (omega (arith, later)),
          ),
    )

list_loop-make_loop :
    (print_int : ℕ → Bytes) (to_zstr : Val → Bytes) (k : Kind) (ix : ℕ) (first : Bool)
    (values params : Arr)
    → (list_loop print_int to_zstr k ix first values params).1
      ≡ make_loop print_int to_zstr k (size values) (ix + 1) first
unfolding list_loop make_loop size
list_loop-make_loop print_int to_zstr k ix first empty params = refl
list_loop-make_loop print_int to_zstr k ix first (entry j v r) params =
    rw (list_loop-make_loop print_int to_zstr k (ix + 1) false r (push_back v params)) refl

-- The value at a place of an array, in the order of iteration.
abbrev pub value_at : ℕ → Arr → Option Val
value_at i empty = none
value_at zero (entry k v r) = some v
value_at (suc i) (entry k v r) = value_at i r

-- The array is a list that goes on behind the old one with the values.
abbrev pub IsExtended : Arr → Arr → Arr → Type 0
IsExtended old values new =
    (is_list new ≡ true)
    × (size new ≡ size old + size values)
    × ((i : ℕ) → i < size old → get (index i) new ≡ get (index i) old)
    × ((i : ℕ) → i < size values → get (index (size old + i)) new ≡ value_at i values)

pub list_loop-IsExtended :
    (print_int : ℕ → Bytes) (to_zstr : Val → Bytes) (k : Kind) (ix : ℕ) (first : Bool)
    (values params : Arr)
    → is_list params ≡ true
    → IsExtended params values (list_loop print_int to_zstr k ix first values params).0
unfolding list_loop size
list_loop-IsExtended print_int to_zstr k ix first empty params h =
    (h, omega arith, λ i small. refl, λ i small. absurd (omega (arith, small)))
list_loop-IsExtended print_int to_zstr k ix first (entry j v r) params h =
    let (list, grown, last) = push_back-is_list v params h in
    let (list', size', old', new') =
      list_loop-IsExtended print_int to_zstr k (ix + 1) false r (push_back v params) list in
    (
      list',
      omega (arith, size', grown),
      λ i small. old' i (omega (arith, small, grown)) ∙ push_back_before v params i h small,
      elim [
        | zero ↦
            λ small. rw (add_zero (size params)) (old' (size params) (omega (arith, grown)) ∙ last)
        | suc i ↦ λ small.
            rw (← next_place (size (push_back v params)) (size params) i grown)
              (new' i (omega (arith, small)))
      ],
    )
  where
    add_zero : (n : ℕ) → n + 0 ≡ n
    add_zero n = omega arith

    next_place : (n m i : ℕ) → n ≡ m + 1 → n + i ≡ m + suc i
    next_place n m i e = omega (arith, e)

list-get_name : (n : ℕ) (s : Bytes) (a : Arr) → is_list_from n a ≡ true → get (name s) a ≡ none
unfolding is_list_from get key_equal
list-get_name n s empty h = refl
list-get_name n s (entry (name t) v r) h = absurd (ground (arith, h))
list-get_name n s (entry (index i) v r) h = list-get_name (n + 1) s r (ground (arith, h))

-- `addParamList` returns the text that `makeList` makes for the numbers from one behind the parameters that
-- were there on, and parameters that are a list stay one: the values stand behind the old ones, under the
-- numbers that follow, in their order. Of the names, such as a placeholder of named parameters is, none has
-- a value.
pub add_param_list-make_list :
    (print_int : ℕ → Bytes) (to_zstr : Val → Bytes) (k : Kind) (values : Arr) (p : IParams)
    → is_list p.params ≡ true
    → let (after, text) = add_param_list print_int to_zstr k values p in
      (text ≡ make_list print_int to_zstr k (size p.params + 1) (size p.params + size values))
      × IsExtended p.params values after.params
      × ((s : Bytes) → get (name s) after.params ≡ none)
unfolding add_param_list make_list is_list
add_param_list-make_list print_int to_zstr k values p h = (
  rw
      (
        list_loop-make_loop print_int to_zstr k (size p.params) true values p.params,
        rounds (size p.params) (size values),
      )
      refl,
  list_loop-IsExtended print_int to_zstr k (size p.params) true values p.params h,
  λ s.
      list-get_name 0 s (list_loop print_int to_zstr k (size p.params) true values p.params).0
        (list_loop-IsExtended print_int to_zstr k (size p.params) true values p.params h).0,
)
  where
    rounds : (n m : ℕ) → n + m + 1 - (n + 1) ≡ m
    rounds n m = omega arith
