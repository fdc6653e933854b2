-- ===== src/Strfns.antt =====
-- `phiz_uncamel` and `phiz_camel` of src/wcc/strfns.cpp, on bytes of the C locale. An empty result is the
-- null string of the source.
use zpp_cpp.Common.{
  ℕ, ◌+◌, ◌≡◌, ◌≢◌, refl, Bool, true, false, ◌&&◌, [], ◌∷◌, ◌++◌, Option, none, some, leb, ◌==◌,
  if◌then◌else◌, Bytes, codes, All, Bool-cases, inl, inr, arith,
}
use zpp_cpp.StrPtr.{tolower}
use zpp_cpp.StrPtr.Bytewise.{to_upper, is_separator}

abbrev pub is_upper : ℕ → Bool
is_upper c = leb b'A' c && leb c b'Z'

-- The first byte of the separator, or the underscore.
abbrev pub sep_char : Option Bytes → ℕ
sep_char none = b'_'
sep_char (some []) = b'_'
sep_char (some (x ∷ sep)) = x

abbrev pub sep_mask : Option Bytes → Bytes
sep_mask none = codes "_-"
sep_mask (some []) = codes "_-"
sep_mask (some (x ∷ sep)) = x ∷ sep

-- The loop of `phiz_uncamel`, which ends at a zero byte; `first` is set for the first byte.
unfoldable pub uncamel_from : ℕ → Bool → Bytes → Bytes
uncamel_from sepch first [] = []
uncamel_from sepch first (c ∷ s) =
    let later = uncamel_from sepch false s in
    if c == 0
    then []
    else if is_upper c
    then (if first then [] else sepch ∷ []) ++ ((c + 32) ∷ later)
    else c ∷ later

unfoldable pub phiz_uncamel : Bytes → Option Bytes → Bytes
unfolding uncamel_from
phiz_uncamel src sep = uncamel_from (sep_char sep) true src

-- The loop of `phiz_camel`.
unfoldable pub camel_from : Bytes → Bool → Bytes → Bytes
camel_from mask found [] = []
camel_from mask found (c ∷ s) =
    let again = camel_from mask true s in
    let later = camel_from mask false s in
    if is_separator mask c then again else (if found then to_upper c else tolower c) ∷ later

unfoldable pub phiz_camel : Bytes → Option Bytes → Bytes
unfolding camel_from
phiz_camel src sep = camel_from (sep_mask sep) true src

-- A byte that stands for itself: not zero, and no separator, neither as it is nor in lower case: with the
-- separator "b", "ABc" becomes "abbc" and then "AC".
abbrev pub IsPlain : Option Bytes → ℕ → Type 0
IsPlain sep c =
    (c ≢ 0)
    × (is_separator (sep_mask sep) c ≡ false)
    × (is_separator (sep_mask sep) (tolower c) ≡ false)

-- The text does not begin with a small letter.
abbrev pub IsCapital : Bytes → Type 0
IsCapital [] = Unit
IsCapital (c ∷ s) = to_upper c ≡ c

sep_known : (sep : Option Bytes) → is_separator (sep_mask sep) (sep_char sep) ≡ true
unfolding is_separator
sep_known none = refl
sep_known (some []) = refl
sep_known (some (x ∷ sep)) = ground arith

not_zero : (c : ℕ) → c ≢ 0 → (c == 0) ≡ false
not_zero c h = ground (arith, h)

camel-uncamel_from :
    (sep : Option Bytes) (s : Bytes)
    → All (IsPlain sep) s
    → camel_from (sep_mask sep) false (uncamel_from (sep_char sep) false s) ≡ s
unfolding camel_from uncamel_from
camel-uncamel_from sep [] h = refl
camel-uncamel_from sep (c ∷ s) ((nz, plain, low), h) = elim (Bool-cases (is_upper c)) [
  | inl upper ↦
      let small : tolower c ≡ c + 32 = ground (arith, upper) in
      let low' : is_separator (sep_mask sep) (c + 32) ≡ false = rw (← small) low in
      let back : to_upper (c + 32) ≡ c = ground (arith, upper) in
      let rest = camel-uncamel_from sep s h in
      rw (not_zero c nz, upper) (rw (sep_known sep) (rw low' (rw (back, rest) refl)))
  | inr other ↦
      let same : tolower c ≡ c = ground (arith, other) in
      rw (not_zero c nz, other) (rw plain (rw (same, camel-uncamel_from sep s h) refl))
]

-- A name that does not begin with a small letter, and of which no byte is zero or a separator or has a
-- separator as its small letter, is taken apart at its capitals and put together again as it was. The
-- text of the separators is any, or none.
pub phiz_camel-phiz_uncamel :
    (sep : Option Bytes) (s : Bytes)
    → IsCapital s
    → All (IsPlain sep) s
    → phiz_camel (phiz_uncamel s sep) sep ≡ s
unfolding phiz_camel phiz_uncamel camel_from uncamel_from
phiz_camel-phiz_uncamel sep [] capital h = refl
phiz_camel-phiz_uncamel sep (c ∷ s) capital ((nz, plain, low), h) = elim (Bool-cases (is_upper c)) [
  | inl upper ↦
      let small : tolower c ≡ c + 32 = ground (arith, upper) in
      let low' : is_separator (sep_mask sep) (c + 32) ≡ false = rw (← small) low in
      let back : to_upper (c + 32) ≡ c = ground (arith, upper) in
      rw (not_zero c nz, upper) (rw low' (rw (back, camel-uncamel_from sep s h) refl))
  | inr other ↦ rw (not_zero c nz, other) (rw plain (rw (capital, camel-uncamel_from sep s h) refl))
]
