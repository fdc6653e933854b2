-- ===== src/Marks/Filled.antt =====
-- What the replacement of marks writes.
use zpp_cpp.Common.{
  take_all, take-append, ℕ, ◌+◌, ◌≡◌, refl, sym, ap, ◌∙◌, List, [], ◌∷◌, ◌++◌, some, length, take,
  ltb, Bytes, arith, drop-append, length-append, Bool-cases, inl, inr,
}
use mathlib.Core.List.{append_assoc}
use zpp_cpp.StrPtr.{sv_substr}
use zpp_cpp.Marks.{Mark, gap, added, fill_loop, fill}

-- A text in front of a mark, the name in the mark, and the mark.
pub record Piece : Type 0 where
  pub before : Bytes
  pub key : Bytes
  pub mark : Bytes

-- The text that the pieces and a last part make up.
abbrev pub written : List Piece → Bytes → Bytes
written [] last = last
written (p ∷ pieces) last = p.before ++ (p.mark ++ written pieces last)

-- The same text with the values in place of the marks.
abbrev pub filled : (Bytes → Bytes) → List Piece → Bytes → Bytes
filled value [] last = last
filled value (p ∷ pieces) last = p.before ++ (value p.key ++ filled value pieces last)

-- The marks with their places, where the pieces begin at `start`.
abbrev pub marks_of : ℕ → List Piece → List Mark
marks_of start [] = []
marks_of start (p ∷ pieces) =
    record { key = p.key; mark = p.mark; offset = start + length p.before }
    ∷ marks_of (start + length p.before + length p.mark) pieces

sv_substr_behind :
    (before s : Bytes) (count : ℕ)
    → sv_substr (before ++ s) (length before) count ≡ some (take count s)
sv_substr_behind before s count = ground (arith, length-append before s, drop-append before s)

regroup : (before a b rest : Bytes) → before ++ (a ++ (b ++ rest)) ≡ (before ++ (a ++ b)) ++ rest
regroup before a b rest = simp append_assoc

length_sum :
    (before a b : Bytes) → length (before ++ (a ++ b)) ≡ length before + length a + length b
length_sum before a b = omega (arith, length-append before (a ++ b), length-append a b)

gap_next : (n m : ℕ) → gap n (n + m) ≡ m
gap_next n m = ground arith

fill_loop-written :
    (value : Bytes → Bytes) (before : Bytes) (pieces : List Piece) (last : Bytes)
    → fill_loop value
        (before ++ written pieces last)
        (length before)
        (marks_of (length before) pieces)
      ≡ some (filled value pieces last)
unfolding fill_loop
fill_loop-written value before [] last =
    elim (Bool-cases (ltb (length before) (length (before ++ last)))) [
      | inl more ↦ rw more (
          sv_substr_behind before last (length (before ++ last))
          ∙ ap some
              (take_all (length (before ++ last)) last (omega (arith, length-append before last))))
      | inr ended ↦
          rw ended (ap some (sym (nil_of (ground (arith, ended, length-append before last)))))
    ]
  where
    nil_of : {s : Bytes} → length s ≡ 0 → s ≡ []
    nil_of {s = []} h = refl
    nil_of {s = c ∷ s} h = absurd (omega (arith, h))
fill_loop-written value before (p ∷ pieces) last =
    let rest : Bytes = written pieces last in
    let pre : Bytes = before ++ (p.before ++ p.mark) in
    let place : length before + length p.before + length p.mark ≡ length pre =
      sym (length_sum before p.before p.mark) in
    let piece : sv_substr (before ++ (p.before ++ (p.mark ++ rest))) (length before)
          (gap (length before) (length before + length p.before))
        ≡ some p.before =
      rw (gap_next (length before) (length p.before)) (
        sv_substr_behind before (p.before ++ (p.mark ++ rest)) (length p.before)
        ∙ ap some (take-append p.before (p.mark ++ rest))) in
    let later : fill_loop value (before ++ (p.before ++ (p.mark ++ rest))) (length pre)
          (marks_of (length pre) pieces)
        ≡ some (filled value pieces last) =
      rw (regroup before p.before p.mark rest) (fill_loop-written value pre pieces last) in
    rw (piece, place) (ap (added (some p.before) (value p.key)) later)

-- A text that is made up of parts and marks, matched at the marks, is returned with the value of each name in
-- place of its mark, and all else as it was.
pub fill-written :
    (value : Bytes → Bytes) (pieces : List Piece) (last : Bytes)
    → fill value (written pieces last) (marks_of 0 pieces) ≡ some (filled value pieces last)
unfolding fill
fill-written value [] last = refl
fill-written value (p ∷ pieces) last = fill_loop-written value [] (p ∷ pieces) last
