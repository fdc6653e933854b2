-- ===== src/Finder/Longest.antt =====
-- Which file `findClass` of src/wcc/finder.cpp finds: that of the longest name space.
use zpp_cpp.Common.{
  ℕ, zero, suc, ◌+◌, ◌-◌, ◌≤◌, ◌<◌, ◌≡◌, refl, sym, ap, ◌∙◌, Bool, true, ◌&&◌, ◌∷◌, ◌++◌, Option,
  none, some, ◌==◌, ltb, length, get_or, take, drop, if◌then◌else◌, Bytes, arith, Bool-cases, inl,
  inr,
}
use mathlib.Core.List.{append_assoc}
use zpp_cpp.Php.{Arr}
use zpp_cpp.Finder.{last_backslash, backslash, slash, php_ext, ns_file, ns_loop, find_in_ns}
use zpp_cpp.Finder.Segments.{
  slashed, IsClear, slashed-clear, last_backslash-some, drop-at, drop-drop, get_or-drop,
  slashed_all, length-drop,
}

module _ (exists : Bytes → Bool) (cname : Bytes) (ns_paths : Arr) where
  -- The path of the class below the folder of the name space that is its first `p` bytes
  abbrev pub below : ℕ → Bytes
  below p = slash ∷ (slashed (drop (suc p) cname) ++ php_ext)

  -- Where a backslash stands at `p`, not at the start: the file in the folder of the first `p` bytes.
  abbrev pub candidate : ℕ → Option Bytes
  candidate p =
      if ltb 0 p && get_or cname p 0 == backslash
      then ns_file exists p cname (below p) ns_paths
      else none

  -- The candidate of the last place before `n`
  unfoldable pub longest : ℕ → Option Bytes
  longest zero = none
  longest (suc n) = elim (candidate n) [ some f ↦ some f | none ↦ longest n ]

  abbrev from : Option ℕ → Option Bytes
  from none = none
  from (some p) = elim (candidate p) [ some f ↦ some f | none ↦ longest p ]

  longest-from : (n : ℕ) → longest n ≡ from (last_backslash n cname)
  unfolding longest last_backslash
  longest-from zero = refl
  longest-from (suc n) = elim (Bool-cases (get_or cname n 0 == backslash)) [
    | inl here ↦ rw here refl
    | inr other ↦ ground (arith, other, longest-from n)
  ]

  below-step :
      (n p : ℕ)
      → n < length cname
      → (get_or cname n 0 == backslash) ≡ true
      → p < n
      → IsClear cname (suc p) n
      → slash ∷ (take (n - suc p) (drop (suc p) cname) ++ below n) ≡ below p
  below-step n p inside there low clear =
      let k : ℕ = n - suc p in
      let seg = take k (drop (suc p) cname) in
      let at_n : suc p + k ≡ n = omega (arith, low) in
      let tail : slashed (drop k (drop (suc p) cname)) ≡ slash ∷ slashed (drop (suc n) cname) =
        ap slashed
          (drop-drop k (suc p) cname ∙ (ap (λ (j : ℕ). drop j cname) at_n ∙ drop-at n cname inside))
        ∙ rw there refl in
      let whole : slashed (drop (suc p) cname) ≡ seg ++ slash ∷ slashed (drop (suc n) cname) =
        slashed-clear k (drop (suc p) cname) (λ i small.
          rw (get_or-drop (suc p) i cname)
            (clear (suc p + i) (omega arith) (omega (arith, small, low))))
        ∙ ap (◌++◌ seg) tail in
      ap (◌∷◌ slash) (
        sym (
          ap (λ t. t ++ php_ext) whole
          ∙ append_assoc seg (slash ∷ slashed (drop (suc n) cname)) php_ext))

  -- One look at a name space, in the loop and in the specification
  abbrev looked : ℕ → (Bytes → Option Bytes) → Bytes → Option Bytes
  looked p rest behind = elim (ns_file exists (suc p) cname behind ns_paths) [
    | some f ↦ some f
    | none ↦ rest behind
  ]

  look :
      (p : ℕ) (rest : Bytes → Option Bytes) {behind : Bytes}
      → (get_or cname (suc p) 0 == backslash) ≡ true
      → behind ≡ below (suc p)
      → rest (below (suc p)) ≡ longest (suc p)
      → looked p rest behind ≡ from (some (suc p))
  look p rest there e same = ap (looked p rest) e ∙ ground (arith, there, same)

  -- Behind the last backslash nothing is changed.
  plain_end :
      (p : ℕ)
      → IsClear cname (suc p) (length cname)
      → slash ∷ (drop (suc p) cname ++ php_ext) ≡ below p
  plain_end p clear =
      ap (λ t. slash ∷ (t ++ php_ext))
        (sym (
          slashed_all (drop (suc p) cname) (λ i small.
            rw (get_or-drop (suc p) i cname)
              (clear (suc p + i) (omega arith) (omega (arith, small, length-drop (suc p) cname))))))

  abbrev Loops : ℕ → Type 0
  Loops fuel =
      (n : ℕ)
      → n ≤ fuel
      → n < length cname
      → (get_or cname n 0 == backslash) ≡ true
      → ns_loop exists fuel n cname (below n) ns_paths ≡ longest n

  -- A round of the loop, from the last backslash that it finds
  round :
      (fuel n : ℕ) (found : Option ℕ)
      → Loops fuel
      → last_backslash n cname ≡ found
      → n ≤ suc fuel
      → n < length cname
      → (get_or cname n 0 == backslash) ≡ true
      → ns_loop exists (suc fuel) n cname (below n) ns_paths ≡ from found
  unfolding ns_loop longest
  round fuel n none loops e enough inside there = rw (e, ns_loop) refl
  round fuel n (some zero) loops e enough inside there = rw (e, ns_loop) refl
  round fuel n (some (suc p)) loops e enough inside there =
      let (low, here, clear) = last_backslash-some n (suc p) cname e in
      rw (e, ns_loop)
        (look p (λ behind. ns_loop exists fuel (suc p) cname behind ns_paths) here
          (below-step n (suc p) inside there low clear)
          (loops (suc p) (omega (arith, low, enough)) (omega (arith, low, inside)) here))

  ns_loop-longest : (fuel : ℕ) → Loops fuel
  unfolding ns_loop longest
  ns_loop-longest zero zero enough inside there = refl
  ns_loop-longest zero (suc n) enough inside there = absurd (omega (arith, enough))
  ns_loop-longest (suc fuel) n enough inside there =
      round fuel n (last_backslash n cname) (ns_loop-longest fuel) refl enough inside there
      ∙ sym (longest-from n)

  first_round :
      (found : Option ℕ)
      → last_backslash (length cname) cname ≡ found
      → find_in_ns exists cname ns_paths ≡ from found
  unfolding find_in_ns longest
  first_round none e = rw (e, find_in_ns) refl
  first_round (some zero) e = rw (e, find_in_ns) refl
  first_round (some (suc p)) e =
      let (low, here, clear) = last_backslash-some (length cname) (suc p) cname e in
      rw (e, find_in_ns)
        (look p (λ behind. ns_loop exists (length cname) (suc p) cname behind ns_paths) here
          (plain_end (suc p) clear)
          (ns_loop-longest (length cname) (suc p) (omega (arith, low)) low here))

  -- `findClass` finds, for a class that the table of classes does not have, the file of the longest name space
  -- of the class that has a folder and a file in it: below that folder, with a slash for each backslash
  -- of the rest of the name, and with the extension. It finds none where no name space has one.
  pub find_in_ns-longest : find_in_ns exists cname ns_paths ≡ longest (length cname)
  unfolding find_in_ns
  find_in_ns-longest =
      first_round (last_backslash (length cname) cname) refl ∙ sym (longest-from (length cname))
