-- ===== src/StrPtr/Views.antt =====
-- Parts of a text: `subview`, `starts_with`, `ends_with`.
use zpp_cpp.Common.{
  take_all, take-append, ℕ, zero, suc, ◌+◌, ◌-◌, ◌≤◌, ◌<◌, ◌≡◌, ◌≢◌, ◌↔◌, refl, sym, ap, ◌∙◌, true,
  [], ◌∷◌, ◌++◌, none, some, length, take, drop, ltb, Bytes, arith, Bool-cases, inl, inr, equal_iff,
  ℤ, pos, negsuc, length-append, drop-append,
}
use mathlib.Core.List.{append-nil}
use zpp_cpp.StrPtr.{sv_substr, view_start, subview, starts_with, ends_with}

take-append-drop : (n : ℕ) (xs : Bytes) → take n xs ++ drop n xs ≡ xs
take-append-drop zero xs = refl
take-append-drop (suc n) [] = refl
take-append-drop (suc n) (x ∷ xs) = ap (◌∷◌ x) (take-append-drop n xs)

nil_of_length : (m : Bytes) → length m ≡ 0 → m ≡ []
nil_of_length [] h = refl
nil_of_length (x ∷ m) h = absurd (omega arith)

length-take : (n : ℕ) (xs : Bytes) → n ≤ length xs → length (take n xs) ≡ n
length-take zero xs h = refl
length-take (suc n) [] h = absurd (omega arith)
length-take (suc n) (x ∷ xs) h = omega (arith, length-take n xs (omega arith))

length-drop : (n : ℕ) (xs : Bytes) → n ≤ length xs → length (drop n xs) + n ≡ length xs
length-drop zero xs h = omega arith
length-drop (suc n) [] h = absurd (omega arith)
length-drop (suc n) (x ∷ xs) h = omega (arith, length-drop n xs (omega arith))

-- A text is the part before a view, the view, and the part behind it.
abbrev pub IsPart : Bytes → Bytes → Type 0
IsPart s v = (before : Bytes) × (after : Bytes) × (s ≡ before ++ (v ++ after))

part_lem :
    (s : Bytes) (from count : ℕ)
    → s ≡ take from s ++ (take count (drop from s) ++ drop count (drop from s))
part_lem s from count = sym (rw (take-append-drop count (drop from s)) (take-append-drop from s))

sv_substr-IsPart :
    (s : Bytes) (from count : ℕ) {v : Bytes} → sv_substr s from count ≡ some v → IsPart s v
sv_substr-IsPart s from count {v} h =
    (take from s, drop count (drop from s), part_lem s from count ∙ rw same)
  where
    same : v ≡ take count (drop from s)
    same = ground arith

-- Whatever the offset and the length, a view that does not throw is a part of the text.
pub subview-IsPart :
    (s : Bytes) (offset len : ℤ) {v : Bytes} → subview s offset len ≡ some v → IsPart s v
unfolding subview
subview-IsPart s offset (pos n) h = sv_substr-IsPart s (view_start (length s) offset) n h
subview-IsPart s offset (negsuc n) {v} h =
    elim (Bool-cases (ltb (n + 1 + view_start (length s) offset) (length s))) [
      | inl more ↦ sv_substr-IsPart s (view_start (length s) offset) _ (rw more at h)
      | inr out ↦ (s, [], ground (arith, append-nil s))
    ]

-- `subview` throws exactly when a start behind the end is given with a length that is not negative.
pub subview-none_iff :
    (s : Bytes) (offset len : ℤ)
    → (subview s offset len ≡ none)
      ↔ ((o : ℕ) × (n : ℕ) × (offset ≡ pos o) × (len ≡ pos n) × (length s < o))
unfolding subview
subview-none_iff s (pos o) (pos n) =
    (λ h. (o, n, refl, refl, ground arith), λ (a, b, e, f, l). ground arith)
subview-none_iff s (pos o) (negsuc n) = (λ h. ground arith, λ (a, b, e, f, l). cc)
subview-none_iff s (negsuc o) (pos n) = (λ h. ground arith, λ (a, b, e, f, l). cc)
subview-none_iff s (negsuc o) (negsuc n) = (λ h. ground arith, λ (a, b, e, f, l). cc)

-- `substr(1, -1)` takes the first and the last byte away.
pub subview_inner : (a b : ℕ) (m : Bytes) → subview (a ∷ (m ++ b ∷ [])) (pos 1) (negsuc 0) ≡ some m
unfolding subview
subview_inner a b m =
    ground (arith, length-append m (b ∷ []), take-append m (b ∷ []), nil_of_length m)

-- The tail of `s` that is as long as `m`.
abbrev tail_of : Bytes → Bytes → Bytes
tail_of s m = take (length m) (drop (length s - length m) s)

tail_split : (s m : Bytes) → length m ≤ length s → s ≡ take (length s - length m) s ++ tail_of s m
tail_split s m h =
    let k : ℕ = length s - length m in
    let len : length (drop k s) ≡ length m = omega (arith, length-drop k s (omega arith)) in
    let whole : take (length m) (drop k s) ≡ drop k s =
      ap (λ n. take n (drop k s)) (sym len)
      ∙ take_all (length (drop k s)) (drop k s) (omega arith) in
    sym (take-append-drop k s) ∙ ap (λ t. take k s ++ t) (sym whole)

tail_of-append : (before m : Bytes) → tail_of (before ++ m) m ≡ m
tail_of-append before m =
    let k : length (before ++ m) - length m ≡ length before =
      omega (arith, length-append before m) in
    rw k (rw drop-append (take_all (length m) m (omega arith)))

-- `ends_with` holds exactly for a suffix that is not empty.
pub ends_with_iff :
    (s m : Bytes) → (ends_with s m ≡ true) ↔ ((m ≢ []) × ((before : Bytes) × (s ≡ before ++ m)))
unfolding ends_with subview
ends_with_iff s m = (
  λ h.
      let same : tail_of s m ≡ m = ground (arith, equal_iff (tail_of s m) m) in
      (
        λ e. ground (arith, ap length e),
        (
          take (length s - length m) s,
          tail_split s m (ground arith) ∙ ap (λ t. take (length s - length m) s ++ t) same,
        ),
      ),
  λ (ne, (before, e)).
      let same : tail_of s m ≡ m = rw e (tail_of-append before m) in
      let fits : length m ≤ length s = rw e (omega (arith, length-append before m)) in
      ground (arith, nil_of_length m, equal_iff (tail_of s m) m),
)

-- `starts_with` holds exactly for a prefix that is not empty.
pub starts_with_iff :
    (s m : Bytes) → (starts_with s m ≡ true) ↔ ((m ≢ []) × ((after : Bytes) × (s ≡ m ++ after)))
unfolding starts_with subview
starts_with_iff s m = (
  λ h.
      let same : take (length m) s ≡ m = ground (arith, equal_iff (take (length m) s) m) in
      (
        λ e. ground (arith, ap length e),
        (
          drop (length m) s,
          sym (take-append-drop (length m) s) ∙ ap (λ t. t ++ drop (length m) s) same,
        ),
      ),
  λ (ne, (after, e)).
      let same : take (length m) s ≡ m = rw e (take-append m after) in
      let fits : length m ≤ length s = rw e (omega (arith, length-append m after)) in
      ground (arith, nil_of_length m, equal_iff (take (length m) s) m),
)
