-- ===== src/RouteSet/Compile.antt =====
-- What `compile` makes of a route.
use zpp_cpp.Common.{
  ℕ, ◌+◌, ◌≤◌, ◌<◌, ◌≡◌, ◌⊎◌, refl, Bool, true, false, not, ◌&&◌, ◌||◌, List, [], ◌∷◌, ◌++◌, Option,
  none, some, map, ◌==◌, if◌then◌else◌, Bytes, arith, Bool-cases, inl, inr, ap, ◌∙◌, sym, equal,
  pos, negsuc,
}
use zpp_cpp.Php
use zpp_cpp.Php.{Key, name, Val, long, Arr, empty, entry}
use zpp_cpp.Php.Arrays.{get-set, size-set}
use zpp_cpp.StrPtr.{tolower, subview}
use zpp_cpp.RouteSet.{
  Building, is_empty, first_byte, init_pattern, add_param, add_segment, add_segments, view_text,
}

-- The pattern of a route with a prefix or the pattern "/" begins with a slash.
pub init_pattern_slash :
    (url prefix : Bytes)
    → (first_byte (init_pattern url prefix) ≡ b'/')
      ⊎ ((init_pattern url prefix ≡ []) × (prefix ≡ []) × (equal url (b'/' ∷ []) ≡ false))
unfolding init_pattern
init_pattern_slash url [] = elim (Bool-cases (equal url (b'/' ∷ []))) [
  | inl e ↦ inl (rw e)
  | inr e ↦ inr (rw e, refl, e)
]
init_pattern_slash url (c ∷ p) = inl (ground arith)

-- The parameter table as the loop builds it: each name has a number from 1 up that is below the next
-- one, and there are no more names than numbers.
pub record Numbered (b : Building) : Type 0 where
  pub positive : 1 ≤ b.param_ix
  pub few : Php.size b.params + 1 ≤ b.param_ix
  pub bounds :
      (k : Key) (v : Val)
      → Php.get k b.params ≡ some v
      → (i : ℕ) × (v ≡ long i) × (1 ≤ i) × (i < b.param_ix)

add_param-Numbered : (p blob : Bytes) (b : Building) → Numbered b → Numbered (add_param p blob b)
add_param-Numbered p blob b n = record {
  positive = omega (arith, n.positive);
  few = ground (arith, size-set (name p) (long b.param_ix) b.params, n.few);
  bounds = λ k v h. elim (Bool-cases (Php.key_equal (name p) k)) [
    | inl same ↦ (
      b.param_ix,
      ground (arith, get-set (name p) k (long b.param_ix) b.params),
      n.positive,
      omega arith,
    )
    | inr other ↦
        let (i, e, l, u) =
          n.bounds k v (ground (arith, get-set (name p) k (long b.param_ix) b.params)) in
        (i, e, l, omega arith)
  ];
}

-- A segment that starts with ':' or '{' is a parameter.
abbrev pub is_param : Bytes → Bool
is_param seg = first_byte (map tolower seg) == b':' || first_byte (map tolower seg) == b'{'

abbrev pub param_count : List Bytes → ℕ
param_count [] = 0
param_count (seg ∷ segs) = (if is_param seg then 1 else 0) + param_count segs

abbrev add_plain : Bytes → Building → Building
add_plain useg b = record b {
  pattern = b.pattern ++ b'/' ∷ useg;
  compiled = b.compiled ++ b'/' ∷ useg;
}

-- The three ways through one round.
segment_cases :
    (seg : Bytes) (b : Building)
    → ((is_empty seg ≡ true) × (add_segment seg b ≡ none))
      ⊎ ((is_empty seg ≡ false)
            × (is_param seg ≡ true)
            × ((p : Bytes) × (blob : Bytes) × (add_segment seg b ≡ some (add_param p blob b)))
          ⊎ (is_empty seg ≡ false)
            × (is_param seg ≡ false)
            × (add_segment seg b ≡ some (add_plain (map tolower seg) b)))
unfolding add_segment
segment_cases [] b = inl (refl, refl)
segment_cases (c ∷ s) b = elim (Bool-cases (tolower c == b':')) [
  | inl colon ↦
      inr (inl (refl, ground arith, (map tolower s, b'{' ∷ (map tolower s ++ b'}' ∷ []), rw colon)))
  | inr no_colon ↦ elim (Bool-cases (tolower c == b'{')) [
    | inl brace ↦ inr (
        inl (
          refl,
          ground arith,
          (
            view_text (subview (map tolower (c ∷ s)) (pos 1) (negsuc 0)),
            map tolower (c ∷ s),
            rw (no_colon, brace),
          ),
        ))
    | inr no_brace ↦ inr (inr (refl, ground arith, rw (no_colon, no_brace)))
  ]
]

-- After the loop: the table is numbered, and a number was given for each parameter.
pub record Built (segs : List Bytes) (b b' : Building) : Type 0 where
  pub numbered : Numbered b → Numbered b'
  pub numbers : b'.param_ix ≡ b.param_ix + param_count segs
  pub kept : param_count segs ≡ 0 → b'.params ≡ b.params
  pub some_params : 0 < param_count segs ⊎ (0 < Php.size b.params) → 0 < Php.size b'.params

size-set_pos : (k : Key) (v : Val) (a : Arr) → 0 < Php.size (Php.set k v a)
unfolding Php.set Php.size
size-set_pos k v empty = omega arith
size-set_pos k v (entry j w r) = elim (Bool-cases (Php.key_equal j k)) [
  | inl e ↦ rw e (omega arith)
  | inr e ↦ rw e (omega arith)
]

Built-param :
    (seg : Bytes) (segs : List Bytes) (nm blob : Bytes) (b : Building) {b' : Building}
    → is_param seg ≡ true
    → Built segs (add_param nm blob b) b'
    → Built (seg ∷ segs) b b'
Built-param seg segs nm blob b {b'} p rest = record {
  numbered = λ n. rest.numbered (add_param-Numbered nm blob b n);
  numbers = ground (arith, rest.numbers);
  kept = λ z. ground arith;
  some_params = λ _. rest.some_params (inr (size-set_pos (name nm) (long b.param_ix) b.params));
}

Built-plain :
    (seg : Bytes) (segs : List Bytes) (b : Building) {b' : Building}
    → is_param seg ≡ false
    → Built segs (add_plain (map tolower seg) b) b'
    → Built (seg ∷ segs) b b'
Built-plain seg segs b {b'} p rest = record {
  numbered = λ n. rest.numbered record { positive = n.positive; few = n.few; bounds = n.bounds };
  numbers = ground (arith, rest.numbers);
  kept = λ z. rest.kept (ground arith);
  some_params = λ h. rest.some_params (ground arith);
}

or_else : Building → Option Building → Building
or_else b none = b
or_else b (some c) = c

some_inj : {b c : Building} → some b ≡ some c → b ≡ c
unfolding or_else
some_inj {b} h = ap (or_else b) h

Built-refl : (b : Building) → Built [] b b
Built-refl b = record {
  numbered = λ n. n;
  numbers = ground arith;
  kept = λ z. refl;
  some_params = λ h. ground arith;
}

add_segments-none :
    (seg : Bytes) (segs : List Bytes) (b : Building)
    → add_segment seg b ≡ none
    → add_segments (seg ∷ segs) b ≡ none
unfolding add_segments
add_segments-none seg segs b e = rw (add_segments, e)

pub add_segments-some :
    (seg : Bytes) (segs : List Bytes) (b c : Building)
    → add_segment seg b ≡ some c
    → add_segments (seg ∷ segs) b ≡ add_segments segs c
unfolding add_segments
add_segments-some seg segs b c e = rw (add_segments, e)

pub add_segments-Built :
    (segs : List Bytes) (b : Building) {b' : Building}
    → add_segments segs b ≡ some b'
    → Built segs b b'
unfolding add_segments
add_segments-Built [] b {b'} h = rw (← some_inj h) (Built-refl b)
add_segments-Built (seg ∷ segs) b {b'} h = elim (segment_cases seg b) [
  | inl (e, none_here) ↦ absurd (ground (arith, sym (add_segments-none seg segs b none_here) ∙ h))
  | inr (inl (e, p, (nm, blob, next))) ↦ Built-param seg segs nm blob b p (
      add_segments-Built segs (add_param nm blob b) (sym (add_segments-some seg segs b _ next) ∙ h))
  | inr (inr (e, p, next)) ↦ Built-plain seg segs b p (
      add_segments-Built segs (add_plain (map tolower seg) b)
        (sym (add_segments-some seg segs b _ next) ∙ h))
]

abbrev pub no_empty : List Bytes → Bool
no_empty [] = true
no_empty (seg ∷ segs) = not (is_empty seg) && no_empty segs

pub add_segments-error :
    (segs : List Bytes) (b : Building) → no_empty segs ≡ false → add_segments segs b ≡ none
unfolding add_segments
add_segments-error [] b h = absurd (ground (arith, h))
add_segments-error (seg ∷ segs) b h = elim (segment_cases seg b) [
  | inl (e, none_here) ↦ add_segments-none seg segs b none_here
  | inr (inl (e, p, (nm, blob, next))) ↦
      add_segments-some seg segs b _ next
      ∙ add_segments-error segs (add_param nm blob b) (ground (arith, h))
  | inr (inr (e, p, next)) ↦
      add_segments-some seg segs b _ next
      ∙ add_segments-error segs (add_plain (map tolower seg) b) (ground (arith, h))
]
