-- ===== src/SearchList/Leaf.antt =====
-- `findLeaf`: which directory a file is found in.
use zpp_cpp.Common.{
  take_all, ℕ, zero, suc, ◌<◌, ◌≡◌, refl, Bool, false, List, [], ◌∷◌, Option, none, some, length,
  get_or, take, Bytes, arith, Bool-cases, inl, inr, ◌∙◌, ap,
}
use zpp_cpp.SearchList.{SearchList, try_path, try_extensions, leaf_from, find_leaf}

module _ (is_regular_file : Bytes → Bool) (join replace_extension : Bytes → Bytes → Bytes) where
  -- The file in the last directory of a list that holds it.
  abbrev pub in_last : Bytes → List Bytes → Option Bytes
  in_last leaf [] = none
  in_last leaf (d ∷ ds) = elim (in_last leaf ds) [
    | some f ↦ some f
    | none ↦ try_path is_regular_file join replace_extension d leaf
  ]

  in_last-take :
      (leaf : Bytes) (ps : List Bytes) (n : ℕ)
      → n < length ps
      → in_last leaf (take (suc n) ps)
        ≡ elim (try_path is_regular_file join replace_extension (get_or ps n []) leaf) [
          | some f ↦ some f
          | none ↦ in_last leaf (take n ps)
        ]
  in_last-take leaf [] n h = absurd (omega (arith, h))
  in_last-take leaf (p ∷ ps) zero h = elim (Bool-cases (is_regular_file (join p leaf))) [
    | inl there ↦ rw there refl
    | inr absent ↦ rw absent refl
  ]
  in_last-take leaf (p ∷ ps) (suc n) h =
      elim (Bool-cases (is_regular_file (join (get_or ps n []) leaf))) [
        | inl there ↦ rw (in_last-take leaf ps n (omega (arith, h)), there) refl
        | inr absent ↦ rw (in_last-take leaf ps n (omega (arith, h)), absent) refl
      ]

  leaf_from-in_last :
      (n : ℕ) (ps : List Bytes) (leaf : Bytes)
      → n < suc (length ps)
      → leaf_from is_regular_file join replace_extension n ps leaf [] ≡ in_last leaf (take n ps)
  unfolding leaf_from try_extensions
  leaf_from-in_last zero ps leaf h = refl
  leaf_from-in_last (suc n) ps leaf h =
      elim (Bool-cases (is_regular_file (join (get_or ps n []) leaf))) [
        | inl there ↦ rw (leaf_from, in_last-take leaf ps n (omega (arith, h)), there) refl
        | inr absent ↦
            rw (leaf_from, in_last-take leaf ps n (omega (arith, h)), absent)
              (leaf_from-in_last n ps leaf (omega (arith, h)))
      ]

  -- Without a list of extensions `findLeaf` gives the file in the directory that was added last among
  -- those that hold it, and null where none does.
  pub find_leaf-in_last :
      (o : SearchList) (leaf : Bytes)
      → find_leaf is_regular_file join replace_extension o leaf [] ≡ in_last leaf o.paths
  unfolding find_leaf
  find_leaf-in_last o leaf =
      leaf_from-in_last (length o.paths) o.paths leaf (omega arith)
      ∙ ap (in_last leaf) (take_all (length o.paths) o.paths (omega arith))

  -- With an extension, a leaf that the last of two directories holds neither as it is nor with the
  -- extension is looked for in the first directory only with its extension replaced: a file of its own
  -- name there is not found.
  pub find_leaf_extension :
      (first last leaf e : Bytes)
      → is_regular_file (join last leaf) ≡ false
      → is_regular_file (join last (replace_extension leaf e)) ≡ false
      → is_regular_file (join first (replace_extension leaf e)) ≡ false
      → is_regular_file (join first (replace_extension (replace_extension leaf e) e)) ≡ false
      → find_leaf is_regular_file join replace_extension
          record { paths = first ∷ last ∷ [] }
          leaf
          (e ∷ [])
        ≡ none
  unfolding find_leaf leaf_from try_extensions
  find_leaf_extension first last leaf e a b c d = ground (arith, a, b, c, d)
