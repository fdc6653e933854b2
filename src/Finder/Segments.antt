-- ===== src/Finder/Segments.antt =====
-- Texts cut at their backslashes: what the loops of src/wcc/finder.cpp leave of the name of a class.
use zpp_cpp.Common.{
  ℕ, zero, suc, ◌+◌, ◌-◌, ◌≤◌, ◌<◌, ◌≡◌, refl, sym, ap, true, false, [], ◌∷◌, ◌++◌, map, some, ◌==◌,
  ==_iff, length, get_or, take, drop, if◌then◌else◌, Bytes, arith, Bool-cases, inl, inr,
}
use native.Mathlib.Nat.{zero-add, suc-add}
use zpp_cpp.Finder.{last_backslash, backslash, slash}

abbrev pub slashed_byte : ℕ → ℕ
slashed_byte c = if c == backslash then slash else c

-- A slash for each backslash.
abbrev pub slashed : Bytes → Bytes
slashed s = map slashed_byte s

-- No backslash stands from `p` on and before `n`.
abbrev pub IsClear : Bytes → ℕ → ℕ → Type 0
IsClear s p n = (i : ℕ) → p ≤ i → i < n → (get_or s i 0 == backslash) ≡ false

pub get_or-drop : (n i : ℕ) (s : Bytes) → get_or (drop n s) i 0 ≡ get_or s (n + i) 0
get_or-drop zero i s = ap (λ (k : ℕ). get_or s k 0) (sym (zero-add i))
get_or-drop (suc n) i [] = refl
get_or-drop (suc n) i (c ∷ s) = rw (suc-add n i) (get_or-drop n i s)

drop-nil : (m : ℕ) → drop {A = ℕ} m [] ≡ []
drop-nil zero = refl
drop-nil (suc m) = refl

pub drop-drop : (m n : ℕ) (s : Bytes) → drop m (drop n s) ≡ drop (n + m) s
drop-drop m zero s = ap (λ (k : ℕ). drop k s) (sym (zero-add m))
drop-drop m (suc n) [] = rw (suc-add n m) (drop-nil m)
drop-drop m (suc n) (c ∷ s) = rw (suc-add n m) (drop-drop m n s)

pub drop-at : (n : ℕ) (s : Bytes) → n < length s → drop n s ≡ get_or s n 0 ∷ drop (suc n) s
drop-at n [] h = absurd (omega (arith, h))
drop-at zero (c ∷ s) h = refl
drop-at (suc n) (c ∷ s) h = drop-at n s (omega (arith, h))

-- The part of a text with no backslash is not changed by `slashed`.
pub slashed-clear :
    (k : ℕ) (s : Bytes)
    → ((i : ℕ) → i < k → (get_or s i 0 == backslash) ≡ false)
    → slashed s ≡ take k s ++ slashed (drop k s)
slashed-clear zero s h = refl
slashed-clear (suc k) [] h = refl
slashed-clear (suc k) (c ∷ s) h =
    rw (h 0 (omega arith))
      (ap (◌∷◌ c) (slashed-clear k s (λ i small. h (suc i) (omega (arith, small)))))

pub slashed_all :
    (s : Bytes) → ((i : ℕ) → i < length s → (get_or s i 0 == backslash) ≡ false) → slashed s ≡ s
slashed_all [] h = refl
slashed_all (c ∷ s) h =
    rw (h 0 (omega arith))
      (ap (◌∷◌ c) (slashed_all s (λ i small. h (suc i) (omega (arith, small)))))

pub length-drop : (n : ℕ) (s : Bytes) → length (drop n s) ≡ length s - n
length-drop zero s = omega arith
length-drop (suc n) [] = omega arith
length-drop (suc n) (c ∷ s) = omega (arith, length-drop n s)

pub last_backslash-some :
    (n p : ℕ) (s : Bytes)
    → last_backslash n s ≡ some p
    → (p < n) × ((get_or s p 0 == backslash) ≡ true) × IsClear s (suc p) n
unfolding last_backslash
last_backslash-some zero p s h = cc
last_backslash-some (suc n) p s h = elim (Bool-cases (get_or s n 0 == backslash)) [
  | inl here ↦
      let e : n ≡ p = ground (arith, here, h) in
      rw (← e) (omega arith, here, λ i low high. absurd (omega (arith, low, high)))
  | inr other ↦
      let (low, there, clear) = last_backslash-some n p s (ground (arith, other, h)) in
      (
        omega (arith, low),
        there,
        λ i above below. elim (Bool-cases (i == n)) [
          | inl same ↦ rw ((==_iff i n).0 same) other
          | inr before ↦ clear i above (ground (arith, before, below))
        ],
      )
]
