-- ===== src/Sql/Operators.antt =====
-- The operators of `JoinExpr` (src/wcd/sql_ipart.cpp) and the kinds of a join of `JoinInfo`
-- (sql_isql.cpp): their numbers, their texts, and the reading of a text as a number.
use zpp_cpp.Common.{
  ℕ, ◌≡◌, ◌<◌, sym, ◌∙◌, checks_below, checks_below_sound, ◌&&◌, refl, Bool, true, false, List, [],
  ◌∷◌, ◌++◌, Option, none, some, map, length, get_elem?, get_or, ◌==◌, if◌then◌else◌, Bytes, codes,
  equal, ℤ, pos, negsuc, arith,
}
use zpp_cpp.StrPtr.Bytewise.{to_upper}
use zpp_cpp.Sql.{Return}
use zpp_cpp.Sql.Op

-- An element of a vector; `none` is an index outside of it, which the source does not test.
abbrev at_index {ℓ} : {A : Type ℓ} → List A → ℤ → Option A
at_index l (pos n) = get_elem? l n
at_index l (negsuc n) = none

abbrev pub opstr : List Bytes
opstr =
    codes "="
    ∷ codes "<>"
    ∷ codes ">"
    ∷ codes "<"
    ∷ codes ">="
    ∷ codes "<="
    ∷ codes "LIKE"
    ∷ codes "AND"
    ∷ codes "OR"
    ∷ codes "IS NULL"
    ∷ codes "IS NOT NULL"
    ∷ codes " "
    ∷ []

abbrev pub boolstr : List Bytes
boolstr = codes " " ∷ codes "AND" ∷ codes "OR" ∷ []

abbrev pub joinstr : List Bytes
joinstr = codes "INNER" ∷ codes "LEFT" ∷ codes "RIGHT" ∷ codes "FULL" ∷ []

-- `JoinExpr::opStr`, `JoinExpr::boolStr` and `JoinInfo::joinStr`
unfoldable pub op_str : ℤ → Option Bytes
op_str op = at_index opstr op

unfoldable pub bool_str : ℤ → Option Bytes
bool_str nextop = at_index boolstr nextop

unfoldable pub join_str : ℤ → Option Bytes
join_str jid = at_index joinstr jid

abbrev plain : ℤ → Return ℤ
plain n = record { value = n; error = [] }

-- The switch of `toOperator` on the first letter `c1`; `c2` is the second one, `upw` the whole text in
-- upper case, and `size` its size.
unfoldable operator_of : ℕ → ℕ → ℕ → Bytes → Bytes → Return ℤ
unfolding equal
operator_of c1 c2 size upw s =
    let two = size == 2 in
    if c1 == b'='
    then plain Op.eq
    else if c1 == b'<'
    then plain (
        if size == 1
        then Op.lt
        else if two && c2 == b'>'
        then Op.neq
        else if two && c2 == b'='
        then Op.le
        else Op.error)
    else if c1 == b'>'
    then plain (if size == 1 then Op.gt else if two && c2 == b'=' then Op.ge else Op.error)
    else if c1 == b'L'
    then plain (if equal upw (codes "LIKE") then Op.like else Op.error)
    else if c1 == b'A'
    then plain (if equal upw (codes "AND") then Op.and else Op.error)
    else if c1 == b'O'
    then plain (if equal upw (codes "OR") then Op.or else Op.error)
    else if c1 == b'I'
    then plain (
        if equal upw (codes "IS NOT NULL")
        then Op.not_null
        else if equal upw (codes "IS NULL")
        then Op.is_null
        else Op.error)
    else record { value = Op.error; error = codes "Invalid toOperator arg: " ++ s }

-- `JoinExpr::toOperator`. A return without a value has the value 0.
unfoldable pub to_operator : Bytes → Return ℤ
unfolding operator_of
to_operator [] = record { value = pos 0; error = codes "empty string" }
to_operator (c ∷ s) =
    operator_of (to_upper c) (to_upper (get_or s 0 0)) (length (c ∷ s)) (map to_upper (c ∷ s))
      (c ∷ s)

-- `JoinExpr::toLogic`
unfoldable pub to_logic : Bytes → Return ℤ
to_logic [] = record { value = negsuc 0; error = codes " empty string " }
to_logic (c ∷ s) =
    let c1 = to_upper c in
    if c1 == b' '
    then plain (pos 0)
    else if c1 == b'A'
    then plain (pos 1)
    else if c1 == b'O'
    then plain (pos 2)
    else record { value = negsuc 0; error = codes " - invalid toLogic arg: " ++ (c ∷ s) }

-- `JoinInfo::getJoinType`
unfoldable pub get_join_type : Bytes → Return ℤ
get_join_type [] = record {
  value = negsuc 0;
  error = codes "Empty join string" ++ codes "Unknown Join specifier: ";
}
get_join_type (c ∷ s) =
    let c1 = to_upper c in
    if c1 == b'I'
    then plain (pos 0)
    else if c1 == b'L'
    then plain (pos 1)
    else if c1 == b'R'
    then plain (pos 2)
    else if c1 == b'F'
    then plain (pos 3)
    else record { value = negsuc 0; error = codes "Unknown Join specifier: " ++ (c ∷ s) }

to_upper_idem : (c : ℕ) → to_upper (to_upper c) ≡ to_upper c
to_upper_idem c = ground arith

map_idem : (s : Bytes) → map to_upper (map to_upper s) ≡ map to_upper s
map_idem [] = refl
map_idem (c ∷ s) = ground (arith, to_upper_idem c, map_idem s)

length-map : (s : Bytes) → length (map to_upper s) ≡ length s
length-map [] = refl
length-map (c ∷ s) = ground (arith, length-map s)

get_or-map : (s : Bytes) → to_upper (get_or (map to_upper s) 0 0) ≡ to_upper (get_or s 0 0)
get_or-map [] = refl
get_or-map (c ∷ s) = to_upper_idem c

operator_of_value :
    (c1 c2 size : ℕ) (upw s t : Bytes)
    → (operator_of c1 c2 size upw s).value ≡ (operator_of c1 c2 size upw t).value
unfolding operator_of
operator_of_value c1 c2 size upw s t = ground arith

to_operator-to_upper : (s : Bytes) → (to_operator (map to_upper s)).value ≡ (to_operator s).value
unfolding to_operator
to_operator-to_upper [] = refl
to_operator-to_upper (c ∷ s) =
    rw (to_upper_idem c, get_or-map s, length-map s, map_idem s)
      (operator_of_value (to_upper c) (to_upper (get_or s 0 0)) (length (c ∷ s))
        (map to_upper (c ∷ s)) (to_upper c ∷ map to_upper s) (c ∷ s))

abbrev is_pos : ℕ → ℤ → Bool
is_pos k (pos n) = k == n
is_pos k (negsuc n) = false

is_pos_sound : (k : ℕ) (z : ℤ) → is_pos k z ≡ true → z ≡ pos k
is_pos_sound k (pos n) h = ground arith
is_pos_sound k (negsuc n) h = ground arith

abbrev reads_back : ℕ → Bool
unfolding op_str to_operator
reads_back k = elim (op_str (pos k)) [ none ↦ false | some s ↦ is_pos k (to_operator s).value ]

-- A text that is the text of an operator but for upper and lower case of its letters is read as that
-- operator, for each of the eleven operators.
pub to_operator-op_str :
    (k : ℕ) (s t : Bytes)
    → k < 11
    → op_str (pos k) ≡ some t
    → map to_upper s ≡ t
    → (to_operator s).value ≡ pos k
unfolding checks_below reads_back
to_operator-op_str k s t small text same =
    let read : reads_back k ≡ true = checks_below_sound 11 reads_back k refl small in
    let at_text : is_pos k (to_operator t).value ≡ true = rw text at read in
    sym (to_operator-to_upper s) ∙ rw same (is_pos_sound k (to_operator t).value at_text)
