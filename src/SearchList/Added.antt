-- ===== src/SearchList/Added.antt =====
-- `addPaths` of src/wcc/search_list.cpp.
use zpp_cpp.Common.{
  refl, ℕ, zero, suc, ◌<◌, ◌≡◌, true, false, List, length, get_or, Bytes, arith, Bool-cases, inl,
  inr, [], ◌==◌, ==_iff, sym, ◌∙◌,
}
use zpp_cpp.RouteSet.{is_empty}
use zpp_cpp.SearchList.{SearchList, add_path, add_from, add_paths, has_path}
use zpp_cpp.SearchList.Paths.{
  listed, distinct_paths, has_path-listed, Kept, add_path-Kept, add_path-listed,
}

add_from-Kept : (n : ℕ) (list : List Bytes) (o : SearchList) → Kept o (add_from n list o)
unfolding add_from
add_from-Kept zero list o = record { stay = λ name h. h; distinct = λ d. d }
add_from-Kept (suc n) list o = elim (Bool-cases (is_empty (get_or list n []))) [
  | inl skipped ↦ rw skipped (add_from-Kept n list o)
  | inr taken ↦
      let first = add_path-Kept (get_or list n []) o in
      let rest = add_from-Kept n list (add_path (get_or list n []) o) in
      rw taken (record {
        stay = λ name h. rest.stay name (first.stay name h);
        distinct = λ d. rest.distinct (first.distinct d);
      })
]

add_from_skip :
    (n : ℕ) (list : List Bytes) (o : SearchList)
    → is_empty (get_or list n []) ≡ true
    → add_from (suc n) list o ≡ add_from n list o
unfolding add_from
add_from_skip n list o e = rw (add_from, e) refl

add_from_take :
    (n : ℕ) (list : List Bytes) (o : SearchList)
    → is_empty (get_or list n []) ≡ false
    → add_from (suc n) list o ≡ add_from n list (add_path (get_or list n []) o)
unfolding add_from
add_from_take n list o e = rw (add_from, e) refl

add_from-listed :
    (n : ℕ) (list : List Bytes) (o : SearchList) (i : ℕ)
    → i < n
    → is_empty (get_or list i []) ≡ false
    → listed (get_or list i []) (add_from n list o).paths ≡ true
add_from-listed zero list o i small full = absurd (omega (arith, small))
add_from-listed (suc n) list o i small full = elim (Bool-cases (is_empty (get_or list n []))) [
  | inl skipped ↦
      rw (add_from_skip n list o skipped)
        (add_from-listed n list o i (ground (arith, small, skipped, full)) full)
  | inr taken ↦ elim (Bool-cases (i == n)) [
    | inl last ↦ rw (add_from_take n list o taken) (
        (add_from-Kept n list (add_path (get_or list n []) o)).stay (get_or list i [])
          (rw ((==_iff i n).0 last) (add_path-listed (get_or list n []) o)))
    | inr before ↦ rw (add_from_take n list o taken) (
        add_from-listed n list (add_path (get_or list n []) o) i (ground (arith, small, before))
          full)
  ]
]

-- After `addPaths` no path of the list is the same as a later one, if none was before; every path
-- that was there is still found by `hasPath`, and so is every path of the argument that is not empty.
pub add_paths_cases :
    (list : List Bytes) (o : SearchList)
    → (distinct_paths o.paths ≡ true → distinct_paths (add_paths list o).paths ≡ true)
      × ((name : Bytes) → has_path o name ≡ true → has_path (add_paths list o) name ≡ true)
      × ((i : ℕ)
          → i < length list
          → is_empty (get_or list i []) ≡ false
          → has_path (add_paths list o) (get_or list i []) ≡ true)
unfolding add_paths
add_paths_cases list o =
    let kept = add_from-Kept (length list) list o in
    (
      kept.distinct,
      λ name h.
          has_path-listed (add_from (length list) list o) name
          ∙ kept.stay name (sym (has_path-listed o name) ∙ h),
      λ i small full.
          has_path-listed (add_from (length list) list o) (get_or list i [])
          ∙ add_from-listed (length list) list o i small full,
    )
