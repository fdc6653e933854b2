-- ===== src/Tests/Hmap.antt =====
-- The results about maps, marks and names at concrete inputs.
use zpp_cpp.Common.{suc, ◌≡◌, refl, false, List, [], ◌∷◌, some, none, Bytes, codes, arith}
use zpp_cpp.Php
use zpp_cpp.Php.{name, long, empty, entry, size}
use zpp_cpp.Marks.{fill}
use zpp_cpp.Marks.Filled.{Piece, written, filled, marks_of, fill-written}
use zpp_cpp.Hmap.{Hmap, array_of}
use zpp_cpp.Hmap.Iterator.{create, it_rewind, it_valid}
use zpp_cpp.Hmap.Walk.{entries, walked, walked-create}
use zpp_cpp.Hmap.Spec.{Op, assign_all, add_entries, set_property, unset_property}
use zpp_cpp.StrPtr.Bytewise.{is_separator}
use zpp_cpp.Strfns.{phiz_camel, phiz_uncamel, phiz_camel-phiz_uncamel}

abbrev some_ops : List Op
some_ops =
    set_property (codes "a") (long 1)
    ∷ assign_all (some (entry (name (codes "b")) (long 2) empty))
    ∷ add_entries (entry (name (codes "c")) (long 3) empty)
    ∷ unset_property (codes "b")
    ∷ []

abbrev small : Hmap
small = record { values = some (entry (name (codes "a")) (long 1) empty) }

walked-create_example :
    let (first, last) = walked (suc (size (array_of small.values))) (create small) in
    (first ≡ entries (array_of small.values))
    × (it_valid last ≡ false)
    × ((walked (suc (size (array_of small.values))) (it_rewind last)).0 ≡ first)
walked-create_example = walked-create small

abbrev hello : List Piece
hello = record { before = codes "Hello "; key = codes "you"; mark = codes "#@you#" } ∷ []

abbrev ann : Bytes → Bytes
ann k = codes "Ann"

fill-written_example :
    fill ann (written hello (codes "!")) (marks_of 0 hello) ≡ some (filled ann hello (codes "!"))
fill-written_example = fill-written ann hello (codes "!")

phiz_camel-phiz_uncamel_example : phiz_camel (phiz_uncamel (codes "AbC") none) none ≡ codes "AbC"
unfolding is_separator
phiz_camel-phiz_uncamel_example = phiz_camel-phiz_uncamel none (codes "AbC") refl (
  (λ e. ground (arith, e), refl, refl),
  ((λ e. ground (arith, e), refl, refl), ((λ e. ground (arith, e), refl, refl), tt)),
)
