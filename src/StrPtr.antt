-- ===== src/StrPtr.antt =====
-- src/zpp/str_ptr.cxx: the string pointer of zpp. A `zend_string*` is an `Option Bytes`, `none` for
-- the null pointer; sizes are below 2 ^ 31, so that the casts to `int` keep them.
pub mod Compare
pub mod Views
pub mod Find
pub mod Replace
pub mod Bytewise
use zpp_cpp.Common.{
  ℕ, zero, suc, ◌+◌, ◌-◌, ◌%◌, Bool, true, false, not, ◌&&◌, ◌||◌, List, [], ◌∷◌, ◌++◌, Option,
  none, some, length, get_or, take, drop, ltb, leb, ◌==◌, if◌then◌else◌, Bytes, equal, ℤ, pos,
  negsuc,
}

-- The sign of a returned `int`.
pub data Sign : Type 0 where
  less equal_to greater : Sign

abbrev pub is_zero : Sign → Bool
is_zero equal_to = true
is_zero less = false
is_zero greater = false

-- `*ap - *bp` on `char`, which is signed: bytes from 0x80 up are negative.
abbrev pub char_sign : ℕ → ℕ → Sign
char_sign a b =
    let x = (a + 128) % 256 in
    let y = (b + 128) % 256 in if ltb x y then less else if ltb y x then greater else equal_to

-- `tolower` of the C locale.
abbrev pub tolower : ℕ → ℕ
tolower c = if leb b'A' c && leb c b'Z' then c + 32 else c

abbrev pub int_sign : ℕ → ℕ → Sign
int_sign x y = if ltb x y then less else if ltb y x then greater else equal_to

abbrev pub first : Bytes → ℕ
first s = get_or s 0 0

abbrev pub rest_of : Bytes → Bytes
rest_of s = drop 1 s

-- The loops of `zs_cmp` and `zs_cmp_ci`: a zero byte follows the last one, and ends the comparison
-- where both texts have it.
cmp_loop : (ℕ → ℕ → Sign) → Bytes → Bytes → Sign
cmp_loop sign [] b = sign 0 (first b)
cmp_loop sign (x ∷ a) b =
    let later = cmp_loop sign a (rest_of b) in
    elim (sign x (first b)) [
      | equal_to ↦ if x == 0 then equal_to else later
      | less ↦ less
      | greater ↦ greater
    ]

cmp_with : (ℕ → ℕ → Sign) → Option Bytes → Option Bytes → Sign
cmp_with sign none none = equal_to
cmp_with sign none (some b) = less
cmp_with sign (some a) none = greater
cmp_with sign (some a) (some b) = cmp_loop sign a b

unfoldable pub zs_cmp : Option Bytes → Option Bytes → Sign
unfolding cmp_with cmp_loop
zs_cmp a b = cmp_with char_sign a b

unfoldable pub zs_cmp_ci : Option Bytes → Option Bytes → Sign
unfolding cmp_with cmp_loop
zs_cmp_ci a b = cmp_with (λ x y. int_sign (tolower x) (tolower y)) a b

-- `std::string_view::substr`: `none` is the exception `out_of_range`.
abbrev pub sv_substr : Bytes → ℕ → ℕ → Option Bytes
sv_substr s from count = if ltb (length s) from then none else some (take count (drop from s))

-- The start that `subview` computes from its offset.
abbrev pub view_start : ℕ → ℤ → ℕ
view_start slen (pos n) = n
view_start slen (negsuc n) = if ltb (n + 1) slen then slen - (n + 1) else 0

abbrev pub view_from : Bytes → ℕ → ℤ → Option Bytes
view_from s start (pos n) = sv_substr s start n
view_from s start (negsuc n) =
    if ltb (n + 1 + start) (length s)
    then sv_substr s start (length s - (n + 1) - start)
    else some []

-- A negative offset counts from the end, a negative length stops short of it.
unfoldable pub subview : Bytes → ℤ → ℤ → Option Bytes
subview s offset len = view_from s (view_start (length s) offset) len

abbrev is_view : Option Bytes → Bytes → Bool
is_view none m = false
is_view (some v) m = equal v m

unfoldable pub starts_with : Bytes → Bytes → Bool
starts_with s m =
    if length m == 0 || ltb (length s) (length m)
    then false
    else is_view (subview s (pos 0) (pos (length m))) m

unfoldable pub ends_with : Bytes → Bytes → Bool
ends_with s m =
    if length m == 0 || ltb (length s) (length m)
    then false
    else is_view (subview s (pos (length s - length m)) (pos (length m))) m

-- `needle` stands at the head.
unfoldable pub is_prefix : Bytes → Bytes → Bool
is_prefix [] s = true
is_prefix (n ∷ needle) [] = false
is_prefix (n ∷ needle) (c ∷ s) = n == c && is_prefix needle s

-- `std::string_view::find` from the head on: the first place where `needle` stands.
pub sv_find : Bytes → Bytes → Option ℕ
sv_find needle [] = if is_prefix needle [] then some 0 else none
sv_find needle (c ∷ s) =
    let later = sv_find needle s in
    if is_prefix needle (c ∷ s)
    then some 0
    else (elim later [ none ↦ none | some k ↦ some (k + 1) ])

-- `haystack.find(needle, pos)`; from behind the end nothing is found.
abbrev pub sv_find_from : Bytes → Bytes → ℕ → Option ℕ
sv_find_from needle s from =
    if ltb (length s) from
    then none
    else (elim (sv_find needle (drop from s)) [ none ↦ none | some k ↦ some (from + k) ])

-- `str_ptr::find(needle, pos)`: the search starts at `pos` of a haystack that has already lost
-- `pos` bytes, and its result is an index into that haystack. `none` stands for -1.
unfoldable pub find : Option Bytes → Bytes → ℕ → Option ℕ
unfolding sv_find is_prefix
find none needle from = none
find (some s) needle from =
    if ltb (length s) (from + length needle) then none else sv_find_from needle (drop from s) from

unfoldable pub strpos : Option Bytes → Bytes → Option ℕ
strpos s needle = find s needle 0

unfoldable pub contains : Option Bytes → Bytes → Bool
contains s needle = elim (strpos s needle) [ none ↦ false | some k ↦ true ]

-- `str_ptr::find(c, pos)` looks at as many bytes as the whole string has, from `pos` on. Behind the
-- string stands one zero byte; the next one is not the string's.
pub data Found : Type 0 where
  at : ℕ → Found
  missing overrun : Found

find_char_loop : ℕ → Bytes → ℕ → ℕ → Found
find_char_loop zero s c ix = missing
find_char_loop (suc n) [] c ix = overrun
find_char_loop (suc n) (x ∷ s) c ix =
    let later = find_char_loop n s c (ix + 1) in if x == c then at ix else later

unfoldable pub find_char : Option Bytes → ℕ → ℕ → Found
unfolding find_char_loop
find_char none c from = missing
find_char (some s) c from = find_char_loop (length s) (drop from (s ++ 0 ∷ [])) c from

-- The loop of `str_replace` on the part of the subject from `pos` on; `none` when the fuel is used
-- up.
replace_loop : ℕ → Bytes → Bytes → Bytes → Bytes → Option Bytes
replace_loop zero src rep out tail = none
replace_loop (suc fuel) src rep out tail = elim (sv_find src tail) [
  | none ↦ some (out ++ tail)
  | some k ↦ replace_loop fuel src rep (out ++ (take k tail ++ rep)) (drop (k + length src) tail)
]

unfoldable pub str_replace : ℕ → Bytes → Bytes → Bytes → Option Bytes
unfolding replace_loop sv_find is_prefix
str_replace fuel src rep subject = replace_loop fuel src rep [] subject
