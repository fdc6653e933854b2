-- ===== src/StrPtr/Replace.antt =====
-- `str_replace`: termination, its meaning, and the search text that never ends it.
use zpp_cpp.Common.{
  ℕ, zero, suc, ◌+◌, ◌≤◌, ◌<◌, ◌≡◌, refl, sym, ap, ◌∙◌, true, false, [], ◌∷◌, ◌++◌, none, some,
  length, take, drop, Bytes, arith, Option-cases, inl, inr, drop-append,
}
use mathlib.Core.List.{append_assoc}
use native.Mathlib.Nat.{suc-add}
use zpp_cpp.StrPtr.{is_prefix, sv_find, replace_loop, str_replace}
use zpp_cpp.StrPtr.Find.{IsFirst, sv_find-IsFirst, sv_find-none, is_prefix_iff, is_prefix-length}

-- The meaning of a replacement, by recursion on the text: at each place the search text, if it
-- stands there, is replaced and passed over; else the byte is kept.
pub data Replaced (src rep : Bytes) : Bytes → Bytes → Type 0 where
  done : Replaced src rep [] []
  keep :
      {c : ℕ} {s out : Bytes}
      → is_prefix src (c ∷ s) ≡ false
      → Replaced src rep s out
      → Replaced src rep (c ∷ s) (c ∷ out)
  swap :
      {s s' out : Bytes} → s ≡ src ++ s' → Replaced src rep s' out → Replaced src rep s (rep ++ out)

Replaced-none :
    (src rep s : Bytes) → ((j : ℕ) → is_prefix src (drop j s) ≡ false) → Replaced src rep s s
Replaced-none src rep [] h = done
Replaced-none src rep (c ∷ s) h = keep (h 0) (Replaced-none src rep s (λ j. h (suc j)))

prefix_split : (src s : Bytes) → is_prefix src s ≡ true → s ≡ src ++ drop (length src) s
prefix_split src s h =
    let (after, e) = (is_prefix_iff src s).0 h in
    rw e (ap (λ t. src ++ t) (sym (drop-append src after)))

Replaced-first :
    (src rep : Bytes) (k : ℕ) (s : Bytes) {out : Bytes}
    → k ≤ length s
    → is_prefix src (drop k s) ≡ true
    → ((j : ℕ) → j < k → is_prefix src (drop j s) ≡ false)
    → Replaced src rep (drop (length src) (drop k s)) out
    → Replaced src rep s (take k s ++ (rep ++ out))
Replaced-first src rep zero s w h b r = swap (prefix_split src s h) r
Replaced-first src rep (suc k) [] w h b r = absurd (omega arith)
Replaced-first src rep (suc k) (c ∷ s) w h b r =
    keep (b 0 (omega arith))
      (Replaced-first src rep k s (omega arith) h (λ j l. b (suc j) (omega arith)) r)

drop_nil : (n : ℕ) → drop {A = ℕ} n [] ≡ []
drop_nil zero = refl
drop_nil (suc n) = refl

drop_add : (k n : ℕ) (s : Bytes) → drop (k + n) s ≡ drop n (drop k s)
drop_add zero n s = ap (λ m. drop m s) (omega arith)
drop_add (suc k) n [] = rw (drop_nil (suc k + n)) (sym (drop_nil n))
drop_add (suc k) n (c ∷ s) = ap (λ m. drop m (c ∷ s)) (suc-add k n) ∙ drop_add k n s

length-drop_le :
    (k n : ℕ) (s : Bytes) → 0 < n → k + n ≤ length s → length (drop (k + n) s) < length s
length-drop_le zero zero s p h = absurd (omega arith)
length-drop_le zero (suc n) [] p h = absurd (omega arith)
length-drop_le zero (suc n) (c ∷ s) p h = rw (zero_add n) (omega (arith, drop_length_le n s))
  where
    zero_add : (n : ℕ) → zero + suc n ≡ suc n
    zero_add n = omega arith

    drop_length_le : (n : ℕ) (s : Bytes) → length (drop n s) ≤ length s
    drop_length_le zero s = omega arith
    drop_length_le (suc n) [] = omega arith
    drop_length_le (suc n) (c ∷ s) = omega (arith, drop_length_le n s)
length-drop_le (suc k) n [] p h = absurd (omega arith)
length-drop_le (suc k) n (c ∷ s) p h =
    rw (suc-add k n) (omega (arith, length-drop_le k n s p (omega arith)))

first_fits : (src s : Bytes) (k : ℕ) → IsFirst src s k → k + length src ≤ length s
first_fits src s k f =
    omega (arith, is_prefix-length src (drop k s) f.here, length-drop_sum k s f.within, f.within)
  where
    length-drop_sum : (k : ℕ) (s : Bytes) → k ≤ length s → length (drop k s) + k ≡ length s
    length-drop_sum zero s h = omega arith
    length-drop_sum (suc k) [] h = absurd (omega arith)
    length-drop_sum (suc k) (c ∷ s) h = omega (arith, length-drop_sum k s (omega arith))

-- What the loop still owes: it ends, and adds a replacement of the rest to what is written.
abbrev Ends : ℕ → Bytes → Bytes → Bytes → Bytes → Type 0
Ends fuel src rep out tail =
    (more : Bytes) × (replace_loop fuel src rep out tail ≡ some (out ++ more))
    × Replaced src rep tail more

replace_loop-Ends :
    (fuel : ℕ) (src rep out tail : Bytes)
    → 0 < length src
    → length tail < fuel
    → Ends fuel src rep out tail
unfolding replace_loop
replace_loop-Ends zero src rep out tail p l = absurd (omega arith)
replace_loop-Ends (suc fuel) src rep out tail p l = elim (Option-cases (sv_find src tail)) [
  | inl e ↦ (tail, ground arith, Replaced-none src rep tail (sv_find-none src tail e))
  | inr (k, e) ↦
      let f = sv_find-IsFirst src tail e in
      let fits : k + length src ≤ length tail = first_fits src tail k f in
      let (more, ends, meaning) =
        replace_loop-Ends fuel src rep (out ++ (take k tail ++ rep)) (drop (k + length src) tail) p
          (omega (arith, length-drop_le k (length src) tail p fits)) in
      (
        take k tail ++ (rep ++ more),
        rw (e, replace_loop) (ends ∙ simp append_assoc),
        Replaced-first src rep k tail f.within f.here f.before
            (rw (drop_add k (length src) tail) at meaning),
      )
]

-- With fuel for one round more than the subject has bytes, a search text that is not empty is
-- replaced from left to right wherever it stands, and the call returns.
pub str_replace-Replaced :
    (src rep subject : Bytes)
    → 0 < length src
    → (out : Bytes) × (str_replace (suc (length subject)) src rep subject ≡ some out)
      × Replaced src rep subject out
unfolding str_replace
str_replace-Replaced src rep subject p =
    replace_loop-Ends (suc (length subject)) src rep [] subject p (omega arith)

Replaced-self : (src : Bytes) {s out : Bytes} → Replaced src src s out → out ≡ s
Replaced-self src done = refl
Replaced-self src (keep {c} h r) = ap (◌∷◌ c) (Replaced-self src r)
Replaced-self src (swap e r) = ap (λ t. src ++ t) (Replaced-self src r) ∙ sym e

-- Replacing a text by itself changes nothing.
pub str_replace_self :
    (src subject : Bytes)
    → 0 < length src
    → str_replace (suc (length subject)) src src subject ≡ some subject
str_replace_self src subject p =
    let (out, ends, meaning) = str_replace-Replaced src src subject p in
    ends ∙ ap some (Replaced-self src meaning)

sv_find_nil : (s : Bytes) → sv_find [] s ≡ some 0
unfolding sv_find is_prefix
sv_find_nil [] = refl
sv_find_nil (c ∷ s) = refl

loop_nil : (fuel : ℕ) (rep out tail : Bytes) → replace_loop fuel [] rep out tail ≡ none
unfolding replace_loop
loop_nil zero rep out tail = refl
loop_nil (suc fuel) rep out tail =
    rw (sv_find_nil tail, replace_loop) (loop_nil fuel rep (out ++ rep) tail)

-- An empty search text is found at every position and moves none on: no number of rounds ends the
-- loop, whatever the subject.
pub str_replace_nil : (fuel : ℕ) (rep subject : Bytes) → str_replace fuel [] rep subject ≡ none
unfolding str_replace
str_replace_nil fuel rep subject = loop_nil fuel rep [] subject
