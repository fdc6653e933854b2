-- ===== src/XmlChar/Search.antt =====
-- The binary search over a table whose numbers ascend finds exactly the values that some pair
-- holds.
use zpp_cpp.Common.{
  ℕ, zero, suc, ◌+◌, ◌-◌, ◌*◌, ◌/◌, ◌%◌, ◌≤◌, ◌<◌, ◌≡◌, Bool, true, false, ◌&&◌, List, [], ◌∷◌,
  length, get_or, ltb, leb, arith, Bool-cases, Bool-eq_of_iff, ◌||◌, inl, inr, refl,
}
use native.Mathlib.Decide.{dec_lt, dec_le}
use zpp_cpp.XmlChar.{search_pairs, in_pairs_table}

-- Each number is at most the next one.
abbrev pub ascending : List ℕ → Bool
ascending [] = true
ascending (x ∷ []) = true
ascending (x ∷ y ∷ rest) = leb x y && ascending (y ∷ rest)

abbrev IsMonotone : List ℕ → Type 0
IsMonotone t = (i j : ℕ) → i ≤ j → j < length t → get_or t i 0 ≤ get_or t j 0

head-le : (x : ℕ) (t : List ℕ) (j : ℕ) → ascending (x ∷ t) ≡ true → j < length t → x ≤ get_or t j 0
head-le x [] j h k = absurd (omega arith)
head-le x (y ∷ t) zero h k = ground arith
head-le x (y ∷ t) (suc j) h k = ground (arith, head-le y t j)

ascending_tail : (x : ℕ) (t : List ℕ) → ascending (x ∷ t) ≡ true → ascending t ≡ true
ascending_tail x [] h = refl
ascending_tail x (y ∷ t) h = ground arith

ascending-IsMonotone : (t : List ℕ) → ascending t ≡ true → IsMonotone t
ascending-IsMonotone [] h i j p q = absurd (omega arith)
ascending-IsMonotone (x ∷ t) h zero zero p q = omega arith
ascending-IsMonotone (x ∷ t) h zero (suc j) p q = head-le x t j h (omega arith)
ascending-IsMonotone (x ∷ t) h (suc i) zero p q = absurd (omega arith)
ascending-IsMonotone (x ∷ t) h (suc i) (suc j) p q =
    ascending-IsMonotone t (ascending_tail x t h) i j (omega arith) (omega arith)

-- The pair at the even index `at`, between `low` and `hi`, holds `c`.
pub record Holds (table : List ℕ) (c low hi : ℕ) : Type 0 where
  pub at : ℕ
  pub even : at % 2 ≡ 0
  pub from : low ≤ at
  pub upto : at + 1 < hi
  pub lower : get_or table at 0 ≤ c
  pub upper : c ≤ get_or table (at + 1) 0

Holds-widen :
    {table : List ℕ} {c l h : ℕ} (low hi : ℕ)
    → Holds table c l h
    → low ≤ l
    → h ≤ hi
    → Holds table c low hi
Holds-widen low hi p a b = record {
  at = p.at;
  even = p.even;
  from = omega arith;
  upto = omega arith;
  lower = p.lower;
  upper = p.upper;
}

-- The middle of a range with even ends is an even index inside it.
middle :
    (low hi : ℕ)
    → low % 2 ≡ 0
    → hi % 2 ≡ 0
    → low < hi
    → ((low + (hi - low) / 2 / 2 * 2) % 2 ≡ 0)
      × (low ≤ low + (hi - low) / 2 / 2 * 2)
      × (low + (hi - low) / 2 / 2 * 2 + 1 < hi)
middle low hi e f h = omega arith

search_sound :
    (fuel : ℕ) (table : List ℕ) (c low hi : ℕ)
    → low % 2 ≡ 0
    → hi % 2 ≡ 0
    → search_pairs fuel table c low hi ≡ true
    → Holds table c low hi
unfolding search_pairs
search_sound zero table c low hi e f h = cc
search_sound (suc fuel) table c low hi e f h =
    let m2 : ℕ = low + (hi - low) / 2 / 2 * 2 in
    let lt : low < hi = ground arith in
    let (even, from, upto) = middle low hi e f lt in
    elim (Bool-cases (ltb c (get_or table m2 0))) [
      | inl small ↦
          Holds-widen low hi (search_sound fuel table c low m2 e even (ground arith)) (omega arith)
            (omega arith)
      | inr big ↦ elim (Bool-cases (ltb (get_or table (m2 + 1) 0) c)) [
        | inl large ↦
            Holds-widen low hi
              (search_sound fuel table c (m2 + 2) hi (omega arith) f (ground arith)) (omega arith)
              (omega arith)
        | inr found ↦ record {
          at = m2;
          even = even;
          from = from;
          upto = upto;
          lower = ground arith;
          upper = ground arith;
        }
      ]
    ]

Holds-within :
    {table : List ℕ} {c l h : ℕ} (l' h' : ℕ) (p : Holds table c l h)
    → l' ≤ p.at
    → p.at + 1 < h'
    → Holds table c l' h'
Holds-within l' h' p a b = record {
  at = p.at;
  even = p.even;
  from = a;
  upto = b;
  lower = p.lower;
  upper = p.upper;
}

module _ (table : List ℕ) (mono : IsMonotone table) (c : ℕ) where
  -- A pair that holds `c` lies on the side of the middle that the two tests choose.
  at_left :
      (m : ℕ) {l h : ℕ} (p : Holds table c l h)
      → m % 2 ≡ 0
      → ltb c (get_or table m 0) ≡ true
      → h ≤ length table
      → p.at + 1 < m
  at_left m p e small k = elim (dec_lt (p.at + 1) m) [
    | yes y ↦ y
    | no n ↦
        let even = p.even in
        let upto = p.upto in
        let lower = p.lower in absurd (ground (arith, mono m p.at (omega arith) (omega arith)))
  ]

  at_right :
      (m : ℕ) {l h : ℕ} (p : Holds table c l h)
      → m % 2 ≡ 0
      → ltb (get_or table (m + 1) 0) c ≡ true
      → m + 1 < length table
      → m + 2 ≤ p.at
  at_right m p e large k = elim (dec_le (m + 2) p.at) [
    | yes y ↦ y
    | no n ↦
        let even = p.even in
        let upper = p.upper in
        absurd (ground (arith, mono (p.at + 1) (m + 1) (omega arith) (omega arith)))
  ]

  search_complete :
      (fuel low hi : ℕ)
      → hi - low ≤ fuel
      → low % 2 ≡ 0
      → hi % 2 ≡ 0
      → hi ≤ length table
      → Holds table c low hi
      → search_pairs fuel table c low hi ≡ true
  unfolding search_pairs
  search_complete zero low hi d e f l p = absurd (omega arith)
  search_complete (suc fuel) low hi d e f l p =
      let m2 : ℕ = low + (hi - low) / 2 / 2 * 2 in
      let lt : low < hi = omega arith in
      let (even, from, upto) = middle low hi e f lt in
      elim (Bool-cases (ltb c (get_or table m2 0))) [
        | inl small ↦
            let p' = Holds-within low m2 p p.from (at_left m2 p even small l) in
            ground (arith, search_complete fuel low m2 (omega arith) e even (omega arith) p')
        | inr big ↦ elim (Bool-cases (ltb (get_or table (m2 + 1) 0) c)) [
          | inl large ↦
              let p' = Holds-within (m2 + 2) hi p (at_right m2 p even large (omega arith)) p.upto in
              ground (arith, search_complete fuel (m2 + 2) hi (omega arith) (omega arith) f l p')
          | inr found ↦ ground arith
        ]
      ]

-- The independent description: some pair of the list, taken two by two, holds `c`.
abbrev pub in_ranges : List ℕ → ℕ → Bool
in_ranges (lo ∷ hi ∷ rest) c = leb lo c && leb c hi || in_ranges rest c
in_ranges _ c = false

Holds-in_ranges :
    (table : List ℕ) (c : ℕ) (i : ℕ)
    → i % 2 ≡ 0
    → i + 1 < length table
    → get_or table i 0 ≤ c
    → c ≤ get_or table (suc i) 0
    → in_ranges table c ≡ true
Holds-in_ranges [] c i e u l r = absurd (omega arith)
Holds-in_ranges (x ∷ []) c i e u l r = absurd (omega arith)
Holds-in_ranges (x ∷ y ∷ t) c zero e u l r = ground arith
Holds-in_ranges (x ∷ y ∷ t) c (suc zero) e u l r = absurd (omega arith)
Holds-in_ranges (x ∷ y ∷ t) c (suc (suc i)) e u l r =
    ground (arith, Holds-in_ranges t c i (omega arith) (omega arith) l r)

in_ranges-Holds :
    (table : List ℕ) (c : ℕ)
    → in_ranges table c ≡ true
    → (i : ℕ) × (i % 2 ≡ 0)
      × (i + 1 < length table)
      × (get_or table i 0 ≤ c)
      × (c ≤ get_or table (suc i) 0)
in_ranges-Holds [] c h = cc
in_ranges-Holds (x ∷ []) c h = cc
in_ranges-Holds (x ∷ y ∷ t) c h = elim (Bool-cases (leb x c && leb c y)) [
  | inl here ↦ (0, omega arith, omega arith, ground arith, ground arith)
  | inr later ↦
      let (i, e, u, l, r) = in_ranges-Holds t c (ground arith) in
      (suc (suc i), omega arith, omega arith, l, r)
]

-- On a table of pairs whose numbers ascend, the binary search answers as the search from end to end.
pub in_table-in_ranges :
    (table : List ℕ) (c : ℕ)
    → ascending table ≡ true
    → length table % 2 ≡ 0
    → in_pairs_table table (length table) c ≡ in_ranges table c
unfolding in_pairs_table
in_table-in_ranges table c asc even =
    Bool-eq_of_iff _ _
      (λ h.
        let p = search_sound (length table) table c 0 (length table) refl even h in
        Holds-in_ranges table c p.at p.even p.upto p.lower (rw (← at_suc p.at) p.upper))
      (λ h.
        let (i, e, u, l, r) = in_ranges-Holds table c h in
        search_complete table (ascending-IsMonotone table asc) c (length table) 0 (length table)
          (omega arith) refl even (omega arith)
          (record {
            at = i;
            even = e;
            from = omega arith;
            upto = u;
            lower = l;
            upper = rw (at_suc i) r;
          }))
  where
    at_suc : (i : ℕ) → i + 1 ≡ suc i
    at_suc i = omega arith
