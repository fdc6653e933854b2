-- ===== src/Sql/Joins/Rows.antt =====
-- The object that `rowSplit` makes of a row.
use zpp_cpp.Common.{
  ◌≡◌, ◌≢◌, ◌⊎◌, refl, some, codes, ◌==◌, if◌then◌else◌, pos, negsuc, arith, Bool-cases,
  Option-cases, inl, inr,
}
use zpp_cpp.StrPtr.{subview}
use zpp_cpp.Sql.Columns.{int_max}
use zpp_cpp.Sql.Emit.{text_or_nil}
use zpp_cpp.Php
use zpp_cpp.Php.{Key, name, index, Val, arr, Arr, empty, entry, key_equal, text_of, size}
use zpp_cpp.Php.Arrays.{get-set, key_equal_iff}
use zpp_cpp.Sql.Joins.{key_text, split_loop, properties, row_split}

-- An array with one entry.
abbrev pub IsOneColumn : Val → Type 0
IsOneColumn v = (a : Arr) × (v ≡ arr a) × (size a ≡ 1)

abbrev AllOne : Arr → Type 0
AllOne empty = Unit
AllOne (entry k v r) = IsOneColumn v × AllOne r

set-AllOne : (k : Key) (v : Val) (a : Arr) → IsOneColumn v → AllOne a → AllOne (Php.set k v a)
unfolding Php.set
set-AllOne k v empty one h = (one, tt)
set-AllOne k v (entry i w r) one h = elim (Bool-cases (key_equal i k)) [
  | inl same ↦ rw same (one, h.1)
  | inr other ↦ rw other (h.0, set-AllOne k v r one h.1)
]

split_loop-AllOne : (row rename rec ok : Arr) → AllOne rec → AllOne (split_loop row rename rec ok).0
unfolding split_loop size Php.set
split_loop-AllOne empty rename rec ok h = h
split_loop-AllOne (entry k v r) rename rec ok h =
    elim (Option-cases (Php.get (name (key_text k)) rename)) [
      | inl e ↦
          rw (e, split_loop) (split_loop-AllOne r rename rec (Php.set (name (key_text k)) v ok) h)
      | inr (orig, e) ↦
          let tail = text_or_nil (subview (key_text k) (negsuc 2) (pos int_max)) in
          let tails = Php.set (name (text_of (some orig))) v empty in
          rw (e, split_loop)
            (split_loop-AllOne r rename (Php.set (name tail) (arr tails) rec) ok
              (set-AllOne (name tail) (arr tails) rec (tails, refl, refl) h))
    ]

-- A property is "ok", or an array with one entry.
abbrev AreSplit : Arr → Type 0
AreSplit obj =
    (k : Key) (v : Val) → Php.get k obj ≡ some v → (k ≡ name (codes "ok")) ⊎ IsOneColumn v

properties-AreSplit : (rec obj : Arr) → AllOne rec → AreSplit obj → AreSplit (properties rec obj)
unfolding properties
properties-AreSplit empty obj h split = split
properties-AreSplit (entry i w r) obj h split =
    properties-AreSplit r (Php.set (name (key_text i)) w obj) h.1 (λ k v found.
      elim (Bool-cases (key_equal (name (key_text i)) k)) [
        | inl same ↦
            let here : w ≡ v = ground (arith, get-set (name (key_text i)) k w obj, same, found) in
            inr (rw (← here) h.0)
        | inr other ↦ split k v (ground (arith, get-set (name (key_text i)) k w obj, other, found))
      ])

-- Whatever the row and the names: every property of the object but "ok" holds one column, however
-- many columns of the row have the tail of its name.
pub row_split_one :
    (row rename : Arr) (k : Key) (v : Val)
    → Php.get k (row_split row rename) ≡ some v
    → (k ≡ name (codes "ok")) ⊎ IsOneColumn v
unfolding row_split Php.get
row_split_one row rename =
    let (rec, ok) = split_loop row rename empty empty in
    properties-AreSplit rec
      (if size ok == 0 then empty else Php.set (name (codes "ok")) (arr ok) empty)
      (split_loop-AllOne row rename empty empty tt) (base ok)
  where
    none_there : (k : Key) (v : Val) → Php.get k empty ≢ some v
    none_there k v e = ground (arith, e)

    base :
        (ok : Arr)
        → AreSplit (if size ok == 0 then empty else Php.set (name (codes "ok")) (arr ok) empty)
    base ok k v found = elim (Bool-cases (key_equal (name (codes "ok")) k)) [
      | inl same ↦ inl (ground (arith, key_equal_iff (name (codes "ok")) k, same))
      | inr other ↦ absurd (
          none_there k v
            (ground (arith, get-set (name (codes "ok")) k (arr ok) empty, other, found)))
    ]
