-- ===== src/Sql/Columns/Attr.antt =====
-- The column of a table: `splitDot` against `toString`.
use zpp_cpp.Common.{
  take_all, take-append, ℕ, zero, suc, ◌+◌, ◌≤◌, ◌<◌, ◌≡◌, ltb, ◌==◌, ==_iff, Bool-cases, inl, inr,
  refl, sym, ap, ◌∙◌, [], ◌∷◌, ◌++◌, some, length, get_elem?, take, drop, Bytes, pos, arith,
  length-append,
}
use native.Mathlib.Nat.{suc-add}
use zpp_cpp.StrPtr.{find_char, Found, at, missing, overrun, subview, sv_substr}
use zpp_cpp.StrPtr.Find.{Absent, IsFirstByte, find_char-IsFirstByte}
use zpp_cpp.Sql.Columns.{make_ta, to_string, parts, split_dot, int_max, dot}

get_elem?-append_len : (t : Bytes) (c : ℕ) (a : Bytes) → get_elem? (t ++ c ∷ a) (length t) ≡ some c
get_elem?-append_len [] c a = refl
get_elem?-append_len (x ∷ t) c a = get_elem?-append_len t c a

get_elem?-append_before :
    (t s : Bytes) (i : ℕ) → i < length t → get_elem? (t ++ s) i ≡ get_elem? t i
get_elem?-append_before [] s i h = absurd (omega (arith, h))
get_elem?-append_before (x ∷ t) s zero h = refl
get_elem?-append_before (x ∷ t) s (suc i) h = get_elem?-append_before t s i (omega (arith, h))

first_at :
    (t : Bytes) (c : ℕ) (a : Bytes) (f : Found)
    → Absent c t
    → IsFirstByte c (t ++ c ∷ a) f
    → f ≡ at (length t)
first_at t c a (at k) gone (here, before) = elim (Bool-cases (k == length t)) [
  | inl same ↦ ap (λ n. at n) ((==_iff k (length t)).0 same)
  | inr other ↦ elim (Bool-cases (ltb k (length t))) [
    | inl early ↦
        absurd (gone k (sym (get_elem?-append_before t (c ∷ a) k (ground (arith, early))) ∙ here))
    | inr late ↦
        absurd (before (length t) (ground (arith, other, late)) (get_elem?-append_len t c a))
  ]
]
first_at t c a missing gone h = absurd (h (length t) (get_elem?-append_len t c a))
first_at t c a overrun gone h = absurd h

subview_head : (t s : Bytes) → subview (t ++ s) (pos 0) (pos (length t)) ≡ some t
unfolding subview
subview_head t s = ground (arith, take-append t s)

drop-append_suc : (t s : Bytes) (c : ℕ) → drop (length t + 1) (t ++ c ∷ s) ≡ s
drop-append_suc [] s c = refl
drop-append_suc (x ∷ t) s c = rw (suc-add (length t) 1) (drop-append_suc t s c)

substr_fits :
    (s : Bytes) (from count : ℕ)
    → from ≤ length s
    → sv_substr s from count ≡ some (take count (drop from s))
substr_fits s from count fits = ground (arith, fits)

subview_tail :
    (t s : Bytes) (c : ℕ)
    → length s ≤ int_max
    → subview (t ++ c ∷ s) (pos (length t + 1)) (pos int_max) ≡ some s
unfolding subview
subview_tail t s c fits =
    substr_fits (t ++ c ∷ s) (length t + 1) int_max (omega (arith, length-append t (c ∷ s)))
    ∙ ap some (rw (drop-append_suc t s c) (take_all int_max s fits))

-- A table that is not empty and has no dot, with a column whose name fits an `int`, is written and
-- split into the same table and column.
pub split_dot-to_string :
    (t a : Bytes)
    → 0 < length t
    → Absent dot t
    → length a ≤ int_max
    → split_dot (to_string (make_ta t a)) ≡ some (parts (make_ta t a))
unfolding split_dot to_string find_char
split_dot-to_string t a some_table gone fits =
    let found : find_char (some (t ++ dot ∷ a)) dot 0 ≡ at (length t) =
      first_at t dot a (find_char (some (t ++ dot ∷ a)) dot 0) gone
        (find_char-IsFirstByte (t ++ dot ∷ a) dot) in
    rw (found, subview_head t (dot ∷ a), subview_tail t a dot fits) (ground (arith, some_table))
