-- ===== src/StrPtr/Bytewise.antt =====
-- The byte functions of src/zpp/str_ptr.cxx: `rfind`, `ucfirst` and `uncamel`.
use zpp_cpp.Common.{
  ℕ, zero, suc, ◌+◌, ◌-◌, ◌≤◌, ◌<◌, ◌≡◌, ◌≢◌, Bool, true, false, ◌&&◌, ◌||◌, [], ◌∷◌, Option, none,
  some, length, get_or, leb, ◌==◌, ==_iff, if◌then◌else◌, Bytes, codes, All, All-append, ◌++◌,
  arith, Bool-cases, inl, inr,
}
use zpp_cpp.StrPtr.{tolower}

-- `toupper` of the C locale, and `zend_toupper_ascii`.
abbrev pub to_upper : ℕ → ℕ
to_upper c = if leb b'a' c && leb c b'z' then c - 32 else c

-- The loop of `rfind` from index `n - 1` down; `none` stands for -1.
unfoldable pub rfind_from : ℕ → Bytes → ℕ → Option ℕ
rfind_from zero s c = none
rfind_from (suc n) s c = let rest = rfind_from n s c in if get_or s n 0 == c then some n else rest

-- For the empty string the start wraps around to the byte before it, where the loop ends at once.
unfoldable pub rfind : Option Bytes → ℕ → ℕ → Option ℕ
rfind none c from = none
rfind (some s) c from = rfind_from (if leb (length s) from then length s else from + 1) s c

unfoldable pub ucfirst : Bytes → Bytes
ucfirst [] = []
ucfirst (c ∷ s) = to_upper c ∷ s

-- `memchr(psep, ch, sep_len)`
unfoldable pub is_separator : Bytes → ℕ → Bool
is_separator [] c = false
is_separator (x ∷ sep) c = x == c || is_separator sep c

-- `buf << toupper(ch)` writes an `int`: the format "%d" of `strpprintf` is the parameter `print_int`.
-- The bytes are below 0x80, where `char` is not negative.
module _ (print_int : ℕ → Bytes) where
  unfoldable pub uncamel_loop : Bytes → Bool → Bytes → Bytes
  uncamel_loop sep found [] = []
  uncamel_loop sep found (c ∷ s) =
      let again = uncamel_loop sep true s in
      let later = uncamel_loop sep false s in
      if is_separator sep c
      then again
      else if found
      then print_int (to_upper c) ++ later
      else print_int (tolower c) ++ later

  unfoldable pub uncamel : Option Bytes → Bytes → Bytes
  uncamel none s = uncamel_loop (codes "_-") true s
  uncamel (some sep) s = uncamel_loop sep true s

-- The last index of a byte among the first `n`.
pub IsLast : ℕ → Bytes → ℕ → Option ℕ → Type 0
IsLast n s c none = (j : ℕ) → j < n → get_or s j 0 ≢ c
IsLast n s c (some k) = (k < n) × (get_or s k 0 ≡ c) × ((j : ℕ) → k < j → j < n → get_or s j 0 ≢ c)

IsLast-more :
    (n : ℕ) (s : Bytes) (c : ℕ) (o : Option ℕ)
    → get_or s n 0 ≢ c
    → IsLast n s c o
    → IsLast (suc n) s c o
unfolding IsLast
IsLast-more n s c none other h = λ j small e. elim (Bool-cases (j == n)) [
  | inl same ↦ other (rw (← (==_iff j n).0 same) e)
  | inr below ↦ h j (ground (arith, small, below)) e
]
IsLast-more n s c (some k) other (small, here, later) = (
  omega (arith, small),
  here,
  λ j above bound e. elim (Bool-cases (j == n)) [
    | inl same ↦ other (rw (← (==_iff j n).0 same) e)
    | inr below ↦ later j above (ground (arith, bound, below)) e
  ],
)

rfind_from-IsLast : (n : ℕ) (s : Bytes) (c : ℕ) → IsLast n s c (rfind_from n s c)
unfolding rfind_from IsLast
rfind_from-IsLast zero s c = λ j small e. absurd (omega (arith, small))
rfind_from-IsLast (suc n) s c = elim (Bool-cases (get_or s n 0 == c)) [
  | inl here ↦ rw here (
    omega arith,
    (==_iff (get_or s n 0) c).0 here,
    λ j above bound e. absurd (omega (arith, above, bound)),
  )
  | inr other ↦ rw other (
      IsLast-more n s c (rfind_from n s c) (λ e. ground (arith, other, e))
        (rfind_from-IsLast n s c))
]

-- `rfind` gives the last index of the byte at or before `pos`, or -1 where there is none; a `pos` behind
-- the end is the end.
pub rfind-IsLast :
    (s : Bytes) (c from : ℕ)
    → IsLast (if leb (length s) from then length s else from + 1) s c (rfind (some s) c from)
unfolding rfind
rfind-IsLast s c from = rfind_from-IsLast (if leb (length s) from then length s else from + 1) s c

abbrev pub IsDigit : ℕ → Type 0
IsDigit c = (b'0' ≤ c) × (c ≤ b'9')

uncamel_loop-All :
    (print_int : ℕ → Bytes) (sep : Bytes) (found : Bool) (s : Bytes)
    → ((n : ℕ) → All IsDigit (print_int n))
    → All IsDigit (uncamel_loop print_int sep found s)
unfolding uncamel_loop
uncamel_loop-All print_int sep found [] digits = tt
uncamel_loop-All print_int sep true (c ∷ s) digits = elim (Bool-cases (is_separator sep c)) [
  | inl skipped ↦ rw skipped (uncamel_loop-All print_int sep true s digits)
  | inr kept ↦ rw kept (
      All-append IsDigit (print_int (to_upper c)) (uncamel_loop print_int sep false s)
        (digits (to_upper c)) (uncamel_loop-All print_int sep false s digits))
]
uncamel_loop-All print_int sep false (c ∷ s) digits = elim (Bool-cases (is_separator sep c)) [
  | inl skipped ↦ rw skipped (uncamel_loop-All print_int sep true s digits)
  | inr kept ↦ rw kept (
      All-append IsDigit (print_int (tolower c)) (uncamel_loop print_int sep false s)
        (digits (tolower c)) (uncamel_loop-All print_int sep false s digits))
]

-- Where "%d" prints digits only, `uncamel` writes digits only, whatever the text and the separators:
-- the codes of the letters, not the letters.
pub uncamel-IsDigit :
    (print_int : ℕ → Bytes) (sep : Option Bytes) (s : Bytes)
    → ((n : ℕ) → All IsDigit (print_int n))
    → All IsDigit (uncamel print_int sep s)
unfolding uncamel
uncamel-IsDigit print_int none s digits = uncamel_loop-All print_int (codes "_-") true s digits
uncamel-IsDigit print_int (some sep) s digits = uncamel_loop-All print_int sep true s digits
