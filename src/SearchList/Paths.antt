-- ===== src/SearchList/Paths.antt =====
-- The directories of a search list: none stands twice.
use zpp_cpp.Common.{
  take_all, ℕ, zero, suc, ◌<◌, ◌≡◌, refl, Bool, true, false, not, ◌&&◌, ◌||◌, List, [], ◌∷◌, ◌++◌,
  length, get_or, take, Bytes, arith, Bool-cases, inl, inr, sym, ◌∙◌, ap,
}
use zpp_cpp.StrPtr.Compare.{zs_cmp_refl}
use zpp_cpp.SearchList.{SearchList, same_path, has_from, has_path, add_path}

-- A path of the list is the same as the name.
abbrev pub listed : Bytes → List Bytes → Bool
listed name [] = false
listed name (p ∷ ps) = same_path p name || listed name ps

abbrev repeated : Bytes → List Bytes → Bool
repeated p [] = false
repeated p (q ∷ ps) = same_path p q || repeated p ps

-- No path is the same as a later one.
abbrev pub distinct_paths : List Bytes → Bool
distinct_paths [] = true
distinct_paths (p ∷ ps) = not (repeated p ps) && distinct_paths ps

listed-take :
    (name : Bytes) (ps : List Bytes) (n : ℕ)
    → n < length ps
    → listed name (take (suc n) ps) ≡ (same_path (get_or ps n []) name || listed name (take n ps))
listed-take name [] n h = absurd (omega (arith, h))
listed-take name (p ∷ ps) zero h = refl
listed-take name (p ∷ ps) (suc n) h = ground (arith, listed-take name ps n (omega (arith, h)))

has_from-listed :
    (n : ℕ) (ps : List Bytes) (name : Bytes)
    → n < suc (length ps)
    → has_from n ps name ≡ listed name (take n ps)
unfolding has_from
has_from-listed zero ps name h = refl
has_from-listed (suc n) ps name h =
    ground (arith, has_from-listed n ps name (omega arith), listed-take name ps n (omega arith))

pub has_path-listed : (o : SearchList) (name : Bytes) → has_path o name ≡ listed name o.paths
unfolding has_path
has_path-listed o name =
    has_from-listed (length o.paths) o.paths name (omega arith)
    ∙ ap (listed name) (take_all (length o.paths) o.paths (omega arith))

same_path_refl : (p : Bytes) → same_path p p ≡ true
unfolding same_path
same_path_refl p = rw (zs_cmp_refl p) refl

listed_last : (p : Bytes) (ps : List Bytes) → listed p (ps ++ p ∷ []) ≡ true
listed_last p [] = ground (arith, same_path_refl p)
listed_last p (q ∷ ps) = ground (arith, listed_last p ps)

listed_more :
    (name p : Bytes) (ps : List Bytes) → listed name ps ≡ true → listed name (ps ++ p ∷ []) ≡ true
listed_more name p [] h = absurd (ground (arith, h))
listed_more name p (q ∷ ps) h = ground (arith, listed_more name p ps)

repeated_last :
    (q p : Bytes) (ps : List Bytes) → repeated q (ps ++ p ∷ []) ≡ (repeated q ps || same_path q p)
repeated_last q p [] = ground arith
repeated_last q p (r ∷ ps) = ground (arith, repeated_last q p ps)

distinct_last :
    (p : Bytes) (ps : List Bytes)
    → distinct_paths ps ≡ true
    → listed p ps ≡ false
    → distinct_paths (ps ++ p ∷ []) ≡ true
distinct_last p [] d h = refl
distinct_last p (q ∷ ps) d h =
    ground (arith, repeated_last q p ps, distinct_last p ps (ground (arith, d)) (ground (arith, h)))

-- What a call leaves of a search list: paths stay listed, and stay distinct.
pub record Kept (o o' : SearchList) : Type 0 where
  pub stay : (name : Bytes) → listed name o.paths ≡ true → listed name o'.paths ≡ true
  pub distinct : distinct_paths o.paths ≡ true → distinct_paths o'.paths ≡ true

pub add_path-Kept : (p : Bytes) (o : SearchList) → Kept o (add_path p o)
unfolding add_path
add_path-Kept p o = elim (Bool-cases (has_path o p)) [
  | inl here ↦ rw here (record { stay = λ name h. h; distinct = λ d. d })
  | inr absent ↦ rw absent (record {
    stay = λ name h. listed_more name p o.paths h;
    distinct = λ d. distinct_last p o.paths d (sym (has_path-listed o p) ∙ absent);
  })
]

pub add_path-listed : (p : Bytes) (o : SearchList) → listed p (add_path p o).paths ≡ true
unfolding add_path
add_path-listed p o = elim (Bool-cases (has_path o p)) [
  | inl here ↦ rw here (sym (has_path-listed o p) ∙ here)
  | inr absent ↦ rw absent (listed_last p o.paths)
]
