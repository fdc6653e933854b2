-- ===== src/StrPtr/Find.antt =====
-- Searching for a text and for a byte.
use zpp_cpp.Common.{
  ℕ, zero, suc, ◌+◌, ◌≤◌, ◌<◌, ◌≡◌, ◌≢◌, ◌↔◌, ◌⊎◌, refl, sym, ◌∙◌, true, false, [], ◌∷◌, ◌++◌, none,
  some, length, drop, get_elem?, ◌==◌, Bytes, arith, Bool-cases, Option-cases, inl, inr,
  length-append,
}
use native.Mathlib.Decide.{dec_lt}
use zpp_cpp.StrPtr.{
  is_prefix, sv_find, find, strpos, Found, at, missing, overrun, find_char, find_char_loop,
}

pub is_prefix_iff : (n s : Bytes) → (is_prefix n s ≡ true) ↔ ((after : Bytes) × (s ≡ n ++ after))
unfolding is_prefix
is_prefix_iff [] s = (λ h. (s, refl), λ h. refl)
is_prefix_iff (x ∷ n) [] = (λ h. cc, λ (after, e). cc)
is_prefix_iff (x ∷ n) (c ∷ s) = (
  λ h. let (after, e) = (is_prefix_iff n s).0 (ground arith) in (after, ground arith),
  λ (after, e). ground (arith, (is_prefix_iff n s).1 (after, ground arith)),
)

-- `needle` stands at index `k` of `s`, and at no index below `k`.
pub record IsFirst (needle s : Bytes) (k : ℕ) : Type 0 where
  pub within : k ≤ length s
  pub here : is_prefix needle (drop k s) ≡ true
  pub before : (j : ℕ) → j < k → is_prefix needle (drop j s) ≡ false

pub sv_find-IsFirst : (needle s : Bytes) {k : ℕ} → sv_find needle s ≡ some k → IsFirst needle s k
unfolding sv_find
sv_find-IsFirst needle [] {k} h =
    let e : k ≡ 0 = ground arith in
    record {
      within = omega arith;
      here = rw e (ground arith);
      before = λ j l. absurd (omega arith);
    }
sv_find-IsFirst needle (c ∷ s) {k} h = elim (Bool-cases (is_prefix needle (c ∷ s))) [
  | inl at_head ↦
      let e : k ≡ 0 = ground arith in
      record { within = omega arith; here = rw e at_head; before = λ j l. absurd (omega arith) }
  | inr later ↦ elim (Option-cases (sv_find needle s)) [
    | inl none_there ↦ ground arith
    | inr (i, found) ↦
        let ih = sv_find-IsFirst needle s found in
        let e : k ≡ suc i = ground arith in
        rw e (record {
          within = omega (arith, ih.within);
          here = ih.here;
          before = elim [ zero ↦ λ l. later | suc j ↦ λ l. ih.before j (omega arith) ];
        })
  ]
]

pub sv_find-none :
    (needle s : Bytes) → sv_find needle s ≡ none → (j : ℕ) → is_prefix needle (drop j s) ≡ false
unfolding sv_find
sv_find-none needle [] h zero = ground arith
sv_find-none needle [] h (suc j) = ground arith
sv_find-none needle (c ∷ s) h zero = ground arith
sv_find-none needle (c ∷ s) h (suc j) = sv_find-none needle s (ground arith) j

pub is_prefix-length : (n s : Bytes) → is_prefix n s ≡ true → length n ≤ length s
is_prefix-length n s h =
    let (after, e) = (is_prefix_iff n s).0 h in rw e (omega (arith, length-append n after))

length-drop_le : (j : ℕ) (s : Bytes) → length (drop j s) ≤ length s
length-drop_le zero s = omega arith
length-drop_le (suc j) [] = omega arith
length-drop_le (suc j) (c ∷ s) = omega (arith, length-drop_le j s)

strpos_lem :
    (s needle : Bytes) → length needle ≤ length s → strpos (some s) needle ≡ sv_find needle s
unfolding strpos find
strpos_lem s needle h = elim (Option-cases (sv_find needle s)) [
  | inl e ↦ ground arith
  | inr (k, e) ↦ ground arith
]

strpos_long : (s needle : Bytes) → length s < length needle → strpos (some s) needle ≡ none
unfolding strpos find
strpos_long s needle h = ground arith

-- `strpos` gives the first index at which the needle stands, and -1 only where it stands nowhere.
pub strpos-IsFirst :
    (s needle : Bytes)
    → ((k : ℕ) → strpos (some s) needle ≡ some k → IsFirst needle s k)
      × (strpos (some s) needle ≡ none → (j : ℕ) → is_prefix needle (drop j s) ≡ false)
strpos-IsFirst s needle = elim (dec_lt (length s) (length needle)) [
  | yes long ↦ (
    λ k h. let e = strpos_long s needle long in cc,
    λ h j. elim (Bool-cases (is_prefix needle (drop j s))) [
      | inr e ↦ e
      | inl e ↦ absurd (omega (arith, is_prefix-length needle (drop j s) e, length-drop_le j s))
    ],
  )
  | no short ↦
      let fits = strpos_lem s needle (omega arith) in
      (
        λ k h. sv_find-IsFirst needle s (sym fits ∙ h),
        λ h j. sv_find-none needle s (sym fits ∙ h) j,
      )
]

-- No byte of the text is `c`.
abbrev pub Absent : ℕ → Bytes → Type 0
Absent c s = (j : ℕ) → get_elem? s j ≢ some c

abbrev pub IsFirstByte : ℕ → Bytes → Found → Type 0
IsFirstByte c s (at k) = (get_elem? s k ≡ some c) × ((j : ℕ) → j < k → get_elem? s j ≢ some c)
IsFirstByte c s missing = Absent c s
IsFirstByte c s overrun = ⊥

abbrev shifted : Found → ℕ → Found
shifted (at k) i = at (i + k)
shifted missing i = missing
shifted overrun i = overrun

loop_shift :
    (n : ℕ) (s : Bytes) (c i : ℕ) → find_char_loop n s c i ≡ shifted (find_char_loop n s c 0) i
unfolding find_char_loop
loop_shift zero s c i = refl
loop_shift (suc n) [] c i = refl
loop_shift (suc n) (x ∷ s) c i =
    ground
      (arith, loop_shift n s c (i + 1), loop_shift n s c 1, found_cases (find_char_loop n s c 0))
  where
    found_cases : (f : Found) → ((k : ℕ) × (f ≡ at k)) ⊎ ((f ≡ missing) ⊎ (f ≡ overrun))
    found_cases (at k) = inl (k, refl)
    found_cases missing = inr (inl refl)
    found_cases overrun = inr (inr refl)

IsFirstByte-shift :
    (c x : ℕ) (s : Bytes) (f : Found)
    → (x == c) ≡ false
    → IsFirstByte c s f
    → IsFirstByte c (x ∷ s) (shifted f 1)
IsFirstByte-shift c x s (at k) ne (here, before) =
    rw (suc_of k) (here, elim [ zero ↦ λ l e. ground arith | suc j ↦ λ l. before j (omega arith) ])
  where
    suc_of : (k : ℕ) → 1 + k ≡ suc k
    suc_of k = omega arith
IsFirstByte-shift c x s missing ne h = elim [ zero ↦ λ e. ground arith | suc j ↦ h j ]
IsFirstByte-shift c x s overrun ne h = h

find_char_loop-IsFirstByte :
    (s t : Bytes) (c : ℕ) → IsFirstByte c s (find_char_loop (length s) (s ++ t) c 0)
unfolding find_char_loop
find_char_loop-IsFirstByte [] t c = λ j e. cc
find_char_loop-IsFirstByte (x ∷ s) t c = elim (Bool-cases (x == c)) [
  | inl same ↦ rw same (ground arith, λ j l. absurd (omega arith))
  | inr other ↦ rw other (
      rw (loop_shift (length s) (s ++ t) c 1) (
        IsFirstByte-shift c x s (find_char_loop (length s) (s ++ t) c 0) other
          (find_char_loop-IsFirstByte s t c)))
]

-- From index 0 the byte search stays inside the string: it gives the first index of the byte, or -1
-- where the byte is absent.
pub find_char-IsFirstByte : (s : Bytes) (c : ℕ) → IsFirstByte c s (find_char (some s) c 0)
unfolding find_char
find_char-IsFirstByte s c = find_char_loop-IsFirstByte s (0 ∷ []) c

Absent-tail : (c x : ℕ) (s : Bytes) → Absent c (x ∷ s) → Absent c s
Absent-tail c x s h j = h (suc j)

loop_overrun :
    (n : ℕ) (t : Bytes) (c i : ℕ)
    → Absent c t
    → c ≢ 0
    → length t + 1 < n
    → find_char_loop n (t ++ 0 ∷ []) c i ≡ overrun
unfolding find_char_loop
loop_overrun zero t c i a ne l = absurd (omega arith)
loop_overrun (suc zero) t c i a ne l = absurd (omega arith)
loop_overrun (suc (suc n)) [] c i a ne l = ground arith
loop_overrun (suc (suc n)) (x ∷ t) c i a ne l =
    ground (arith, a 0, loop_overrun (suc n) t c (i + 1) (Absent-tail c x t a) ne)

drop-append_le : (n : ℕ) (s t : Bytes) → n ≤ length s → drop n (s ++ t) ≡ drop n s ++ t
drop-append_le zero s t h = refl
drop-append_le (suc n) [] t h = absurd (omega arith)
drop-append_le (suc n) (x ∷ s) t h = drop-append_le n s t (omega arith)

length-drop_add : (n : ℕ) (s : Bytes) → n ≤ length s → length (drop n s) + n ≡ length s
length-drop_add zero s h = omega arith
length-drop_add (suc n) [] h = absurd (omega arith)
length-drop_add (suc n) (x ∷ s) h = omega (arith, length-drop_add n s (omega arith))

-- From index 2 on, a search for a byte that does not follow reads memory behind the string.
pub find_char_overrun :
    (s : Bytes) (c from : ℕ)
    → 2 ≤ from
    → from ≤ length s
    → c ≢ 0
    → Absent c (drop from s)
    → find_char (some s) c from ≡ overrun
unfolding find_char
find_char_overrun s c from two fits ne a =
    rw (drop-append_le from s (0 ∷ []) fits) (
      loop_overrun (length s) (drop from s) c from a ne
        (omega (arith, length-drop_add from s fits)))
