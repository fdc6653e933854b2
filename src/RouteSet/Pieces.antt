-- ===== src/RouteSet/Pieces.antt =====
-- The pattern, the expression and the parameters that `compile` of src/wcc/route_set.cpp makes of the segments,
-- each as a whole.
use zpp_cpp.Common.{
  codes, drop, ℕ, ◌+◌, ◌≡◌, refl, Bool, true, false, List, [], ◌∷◌, ◌++◌, some, map, ◌==◌,
  if◌then◌else◌, Bytes, arith, Bool-cases, inl, inr, ap, ◌∙◌, pos, negsuc,
}
use mathlib.Core.List.{append-nil, append_assoc}
use zpp_cpp.Php
use zpp_cpp.Php.{Key, name, Val, long, Arr, empty, entry}
use zpp_cpp.StrPtr.{tolower, subview}
use zpp_cpp.RouteSet.{Building, is_empty, first_byte, add_segment, add_segments, view_text}
use zpp_cpp.RouteSet.Compile.{is_param, param_count, no_empty, add_segments-some}

-- What a segment is in the pattern and in the expression, and the name of a parameter. A name behind a colon
-- stands in braces in the pattern.
abbrev pub has_colon : Bytes → Bool
has_colon seg = first_byte (map tolower seg) == b':'

abbrev pub param_name : Bytes → Bytes
param_name seg =
    if has_colon seg
    then drop 1 (map tolower seg)
    else view_text (subview (map tolower seg) (pos 1) (negsuc 0))

abbrev pub shown : Bytes → Bytes
shown seg = b'/' ∷ (if has_colon seg then b'{' ∷ (param_name seg ++ b'}' ∷ []) else map tolower seg)

abbrev pub matched : Bytes → Bytes
matched seg = if is_param seg then codes "/([^/]*)" else b'/' ∷ map tolower seg

unfoldable pub joined : (Bytes → Bytes) → List Bytes → Bytes
joined f [] = []
joined f (seg ∷ segs) = f seg ++ joined f segs

-- The names of the parameters, in their order, with the numbers from `i` on.
unfoldable pub numbered : ℕ → List Bytes → Arr → Arr
numbered i [] a = a
numbered i (seg ∷ segs) a =
    let later = numbered (i + 1) segs (Php.set (name (param_name seg)) (long i) a) in
    let rest = numbered i segs a in if is_param seg then later else rest

abbrev pub whole : List Bytes → Building → Building
whole segs b = record {
  pattern = b.pattern ++ joined shown segs;
  compiled = b.compiled ++ joined matched segs;
  params = numbered b.param_ix segs b.params;
  param_ix = b.param_ix + param_count segs;
}

-- What one segment adds.
abbrev added : Bytes → Building → Building
added seg b = record {
  pattern = b.pattern ++ shown seg;
  compiled = b.compiled ++ matched seg;
  params =
      if is_param seg then Php.set (name (param_name seg)) (long b.param_ix) b.params else b.params;
  param_ix = if is_param seg then b.param_ix + 1 else b.param_ix;
}

add_segment-added :
    (seg : Bytes) (b : Building) → is_empty seg ≡ false → add_segment seg b ≡ some (added seg b)
unfolding add_segment
add_segment-added [] b h = absurd (ground (arith, h))
add_segment-added (c ∷ s) b h = elim (Bool-cases (tolower c == b':')) [
  | inl colon ↦ rw colon refl
  | inr no_colon ↦ elim (Bool-cases (tolower c == b'{')) [
    | inl brace ↦ rw (no_colon, brace) refl
    | inr no_brace ↦ rw (no_colon, no_brace) refl
  ]
]

added-whole :
    (seg : Bytes) (segs : List Bytes) (b : Building)
    → whole segs (added seg b) ≡ whole (seg ∷ segs) b
unfolding joined numbered
added-whole seg segs b =
    rw
      (
        append_assoc b.pattern (shown seg) (joined shown segs),
        append_assoc b.compiled (matched seg) (joined matched segs),
      )
      (elim (Bool-cases (is_param seg)) [
        | inl p ↦ rw (p, counted b.param_ix (param_count segs)) refl
        | inr p ↦ rw (p, none_more (param_count segs)) refl
      ])
  where
    none_more : (n : ℕ) → 0 + n ≡ n
    none_more n = omega arith

    counted : (n m : ℕ) → n + 1 + m ≡ n + (1 + m)
    counted n m = omega arith

pub add_segments-whole :
    (segs : List Bytes) (b : Building)
    → no_empty segs ≡ true
    → add_segments segs b ≡ some (whole segs b)
unfolding add_segments joined numbered
add_segments-whole [] b h =
    rw (append-nil b.pattern, append-nil b.compiled, plus_zero b.param_ix) refl
  where
    plus_zero : (n : ℕ) → n + 0 ≡ n
    plus_zero n = omega arith
add_segments-whole (seg ∷ segs) b h =
    let full : is_empty seg ≡ false = ground (arith, h) in
    add_segments-some seg segs b (added seg b) (add_segment-added seg b full)
    ∙ add_segments-whole segs (added seg b) (ground (arith, h))
    ∙ ap (λ w. some w) (added-whole seg segs b)
