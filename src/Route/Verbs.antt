-- ===== src/Route/Verbs.antt =====
-- Verb flags and verb names.
use zpp_cpp.Common.{
  ℕ, zero, suc, ◌+◌, ◌*◌, ◌/◌, ◌%◌, ◌^◌, ◌≡◌, ◌≢◌, refl, List, [], ◌∷◌, Option, none, some, map,
  ◌==◌, Bytes, codes, equal, equal_iff, arith, Bool-cases, Option-cases, inl, inr, get_elem?, ap,
  ◌∙◌,
}
use zpp_cpp.Route.{
  verb_names, route_verbs, find_verb, get_verb_int, has_bit, verb_names_loop, get_verb_names,
  verb_loop, get_verb, toupper,
}

-- The flags of a list of verb names, added up.
pub verb_sum : List Bytes → ℕ
verb_sum [] = 0
verb_sum (v ∷ vs) = get_verb_int v + verb_sum vs

-- Each name stands for the bit at its place.
abbrev Weighted : ℕ → List Bytes → Type 0
Weighted mix [] = Unit
Weighted mix (v ∷ vs) = (get_verb_int v ≡ 2 ^ mix) × Weighted (mix + 1) vs

abbrev bit_sum : ℕ → ℕ → List Bytes → ℕ
bit_sum flags mix [] = 0
bit_sum flags mix (v ∷ vs) = flags / 2 ^ mix % 2 * 2 ^ mix + bit_sum flags (mix + 1) vs

verb_sum-bit_sum :
    (flags mix : ℕ) (vs : List Bytes)
    → Weighted mix vs
    → verb_sum (verb_names_loop flags mix vs) ≡ bit_sum flags mix vs
unfolding verb_sum verb_names_loop
verb_sum-bit_sum flags mix [] w = refl
verb_sum-bit_sum flags mix (v ∷ vs) (e, w) = elim (Bool-cases (has_bit flags mix)) [
  | inl set_bit ↦
      let one : flags / 2 ^ mix % 2 ≡ 1 = ground arith in
      rw one (omega (arith, e, verb_sum-bit_sum flags (mix + 1) vs w))
  | inr clear ↦
      let none_set : flags / 2 ^ mix % 2 ≡ 0 = ground arith in
      rw none_set (omega (arith, verb_sum-bit_sum flags (mix + 1) vs w))
]

verb_names-Weighted : Weighted 0 verb_names
unfolding verb_names get_verb_int find_verb route_verbs equal
verb_names-Weighted =
    (refl, (refl, (refl, (refl, (refl, (refl, (refl, (refl, (refl, (refl, tt))))))))))

ten_bits : (flags : ℕ) → bit_sum flags 0 verb_names ≡ flags % 1024
unfolding verb_names
ten_bits flags = omega arith

-- The names that `getVerbNames` lists carry exactly the ten verb bits of the flags: the flags that
-- `getVerbInt` gives back for them add up to the low ten bits.
pub verb_sum-get_verb_names : (flags : ℕ) → verb_sum (get_verb_names flags) ≡ flags % 1024
unfolding get_verb_names
verb_sum-get_verb_names flags =
    verb_sum-bit_sum flags 0 verb_names verb_names-Weighted ∙ ten_bits flags

abbrev OwnFlag : List (Bytes × ℕ) → Type 0
OwnFlag [] = Unit
OwnFlag ((v, flag) ∷ table) = (get_verb_names flag ≡ v ∷ []) × OwnFlag table

find_verb-OwnFlag :
    (k : Bytes) (table : List (Bytes × ℕ)) (flag : ℕ)
    → OwnFlag table
    → find_verb k table ≡ some flag
    → get_verb_names flag ≡ k ∷ []
unfolding find_verb
find_verb-OwnFlag k [] flag o h = cc
find_verb-OwnFlag k ((v, w) ∷ table) flag (here, later) h =
    ground (arith, equal_iff v k, find_verb-OwnFlag k table flag later)

route_verbs-OwnFlag : OwnFlag route_verbs
unfolding route_verbs get_verb_names verb_names
route_verbs-OwnFlag =
    (refl, (refl, (refl, (refl, (refl, (refl, (refl, (refl, (refl, (refl, tt))))))))))

-- A known verb, in any case, is the only name of its own flag.
pub get_verb_names-get_verb_int :
    (s : Bytes) → get_verb_int s ≢ 0 → get_verb_names (get_verb_int s) ≡ map toupper s ∷ []
unfolding get_verb_int
get_verb_names-get_verb_int s h = elim (Option-cases (find_verb (map toupper s) route_verbs)) [
  | inl unknown ↦ absurd (h (rw (unknown, get_verb_int)))
  | inr (flag, known) ↦
      rw (known, get_verb_int)
        (find_verb-OwnFlag (map toupper s) route_verbs flag route_verbs-OwnFlag known)
]

abbrev pub first_name : List Bytes → Option Bytes
first_name [] = none
first_name (v ∷ vs) = some v

-- For `count` bits from `mix` on the flags and their low nine bits agree, and each has its name.
abbrev Agree : ℕ → ℕ → ℕ → List Bytes → Type 0
Agree flags mix zero vs = verb_names_loop (flags % 512) mix vs ≡ []
Agree flags mix (suc count) [] = ⊥
Agree flags mix (suc count) (v ∷ vs) =
    (get_elem? verb_names mix ≡ some v)
    × (has_bit (flags % 512) mix ≡ has_bit flags mix)
    × Agree flags (mix + 1) count vs

verb_loop-Agree :
    (flags mix count : ℕ) (vs : List Bytes)
    → Agree flags mix count vs
    → verb_loop count flags mix ≡ first_name (verb_names_loop (flags % 512) mix vs)
unfolding verb_loop verb_names_loop
verb_loop-Agree flags mix zero vs a = ground arith
verb_loop-Agree flags mix (suc count) [] a = elim a [ ]
verb_loop-Agree flags mix (suc count) (v ∷ vs) (named, bits, later) =
    ground (arith, verb_loop-Agree flags (mix + 1) count vs later)

low_bit : (flags : ℕ) (b w : ℕ) → b ≡ w → (b == 1) ≡ (w == 1)
low_bit flags b w e = ap (λ n. n == 1) e

nine_bits : (flags : ℕ) → Agree flags 0 9 verb_names
unfolding verb_names verb_names_loop
nine_bits flags =
    let bit = λ (b : ℕ) (w : ℕ) (e : b ≡ w). low_bit flags b w e in
    (
      refl,
      bit _ _ (omega arith),
      (
        refl,
        bit _ _ (omega arith),
        (
          refl,
          bit _ _ (omega arith),
          (
            refl,
            bit _ _ (omega arith),
            (
              refl,
              bit _ _ (omega arith),
              (
                refl,
                bit _ _ (omega arith),
                (
                  refl,
                  bit _ _ (omega arith),
                  (refl, bit _ _ (omega arith), (refl, bit _ _ (omega arith), ground arith)),
                ),
              ),
            ),
          ),
        ),
      ),
    )

-- `getVerb` gives the first of the names that `getVerbNames` lists for the low nine bits; so it
-- never gives the tenth, PURGE.
pub get_verb-get_verb_names :
    (flags : ℕ) → get_verb flags ≡ first_name (get_verb_names (flags % 512))
unfolding get_verb get_verb_names
get_verb-get_verb_names flags = verb_loop-Agree flags 0 9 verb_names (nine_bits flags)

-- Flags with no other verb than PURGE have that name, and `getVerb` finds none.
pub get_verb_purge :
    (flags : ℕ)
    → flags % 1024 ≡ 512
    → (get_verb flags ≡ none) × (get_verb_names flags ≡ codes "PURGE" ∷ [])
unfolding get_verb get_verb_names verb_names
get_verb_purge flags h = (ground arith, ground arith)
