-- ===== src/Marks.antt =====
-- The replacement of marks in a text: `Replace` of src/wcc/replace.cpp, and the same loop in
-- `htab_ptr::unhive` of src/zpp/htab_ptr.cxx and `Hmap::unhive` of src/wcc/hmap.cpp. The matches of the
-- expression, with their offsets, are the parameter `matches`.
pub mod Filled
use zpp_cpp.Common.{
  ℕ, ◌+◌, ◌-◌, ◌^◌, List, [], ◌∷◌, ◌++◌, Option, none, some, length, ltb, leb, if◌then◌else◌, Bytes,
  codes,
}
use zpp_cpp.Php
use zpp_cpp.Php.{Key, name, Val, Arr, text_of}
use zpp_cpp.StrPtr.{sv_substr}

-- One match: the name inside the mark, the whole mark, and where it begins.
pub record Mark : Type 0 where
  pub key : Bytes
  pub mark : Bytes
  pub offset : ℕ

-- `soffset - ipos` as a `size_t`
abbrev pub gap : ℕ → ℕ → ℕ
gap ipos offset = if leb ipos offset then offset - ipos else 2 ^ 64 + offset - ipos

abbrev pub added : Option Bytes → Bytes → Option Bytes → Option Bytes
added (some piece) value (some rest) = some (piece ++ (value ++ rest))
added _ value _ = none

-- The loop from place `ipos` of the text on; `none` is the exception of `substr`.
unfoldable pub fill_loop : (Bytes → Bytes) → Bytes → ℕ → List Mark → Option Bytes
fill_loop value original ipos [] =
    if ltb ipos (length original) then sv_substr original ipos (length original) else some []
fill_loop value original ipos (m ∷ marks) =
    added (sv_substr original ipos (gap ipos m.offset)) (value m.key)
      (fill_loop value original (m.offset + length m.mark) marks)

-- A text without a match is returned as it is.
unfoldable pub fill : (Bytes → Bytes) → Bytes → List Mark → Option Bytes
unfolding fill_loop
fill value subj [] = some subj
fill value subj (m ∷ marks) = fill_loop value subj 0 (m ∷ marks)

-- The value of a key, as `zstr` gives it: null, which adds nothing, for what is no string.
abbrev pub value_in : Arr → Bytes → Bytes
value_in a k = text_of (Php.get (name k) a)

-- `htab_ptr::unhive`
unfoldable pub unhive : (Bytes → List Mark) → Arr → Bytes → Option Bytes
unfolding fill
unhive matches a subj = fill (value_in a) subj (matches subj)

-- A `Replace` object: the expression, and the object by its properties.
pub record Replace : Type 0 where
  pub expr : Bytes
  pub source : Arr

abbrev pub prop_expr : Bytes
prop_expr = codes "#@([a-zA-Z][\\w\\d]*)#"

-- `Replace::construct`
unfoldable pub construct : Arr → Option Bytes → Replace
construct obj none = record { expr = prop_expr; source = obj }
construct obj (some e) = record { expr = e; source = obj }

-- `Replace::eval`, with the matches of an expression in a text
unfoldable pub eval : (Bytes → Bytes → List Mark) → Replace → Bytes → Option Bytes
unfolding fill
eval matches r subj = fill (value_in r.source) subj (matches r.expr subj)

-- `Replace::property`
unfoldable pub property : (Bytes → Bytes → List Mark) → Arr → Bytes → Option Bytes
unfolding eval construct
property matches obj subj = eval matches (construct obj (some prop_expr)) subj
