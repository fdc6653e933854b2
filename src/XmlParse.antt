-- ===== src/XmlParse.antt =====
-- src/wcx/errorstack.cpp and itemreturn.cpp, and `munchSpace` of parsecontext.cpp: the errors of the XML
-- parser, the items that it returns, and the white space that it passes over. Levels are not negative.
use zpp_cpp.Common.{
  ℕ, suc, ◌+◌, ◌≡◌, refl, ◌∙◌, sym, true, false, List, [], ◌∷◌, ◌++◌, map, Option, none, some, ltb,
  if◌then◌else◌, Bytes, All, Bool-cases, inl, inr, arith, drop, take,
}
use mathlib.Core.List.{append-nil, append_assoc}
use zpp_cpp.Php.{Arr}
use zpp_cpp.XmlChar.{is_space}

pub record ErrorStack : Type 0 where
  pub messages : List Bytes
  pub error_level : ℕ

-- `ErrorStack::ErrorStack`
abbrev pub new_errors : ErrorStack
new_errors = record { messages = []; error_level = 0 }

-- `ErrorStack::errorStatus`
unfoldable pub error_status : ℕ → ErrorStack → ErrorStack
error_status level e = record e {
  error_level = if ltb e.error_level level then level else e.error_level;
}

-- `ErrorStack::clear`
unfoldable pub clear : ErrorStack → ErrorStack
clear e = record e { messages = []; error_level = 0 }

-- `ErrorStack::pushMsg`, which returns the level
unfoldable pub push_msg : Bytes → ℕ → ErrorStack → ErrorStack × ℕ
unfolding error_status
push_msg msg level e =
    let after = error_status level (record e { messages = e.messages ++ msg ∷ [] }) in
    (after, after.error_level)

-- `ErrorStack::toString`, with a line end behind each message
unfoldable pub lines_of : List Bytes → Bytes
lines_of [] = []
lines_of (m ∷ ms) = m ++ (b'\n' ∷ lines_of ms)

unfoldable pub to_string : ErrorStack → Bytes
unfolding lines_of
to_string e = lines_of e.messages

-- `ItemReturn` with its two forms of `set`; the first one drops the attributes.
pub record ItemReturn : Type 0 where
  pub itype : ℕ
  pub item : Bytes
  pub attributes : Option Arr

unfoldable pub set_item : ℕ → Bytes → ItemReturn → ItemReturn
set_item t text i = record i { itype = t; item = text; attributes = none }

unfoldable pub set_tag : ℕ → Bytes → Arr → ItemReturn → ItemReturn
set_tag t text attr i = record i { itype = t; item = text; attributes = some attr }

-- `ParseContext::munchSpace` on the characters that are left: their number, and the rest.
unfoldable pub munch_space : List ℕ → ℕ × List ℕ
munch_space [] = (0, [])
munch_space (c ∷ s) =
    let (count, rest) = munch_space s in if is_space c then (count + 1, rest) else (0, c ∷ s)

abbrev pub pushed_all : List (Bytes × ℕ) → ErrorStack → ErrorStack
pushed_all [] e = e
pushed_all ((m, level) ∷ pushed) e = pushed_all pushed (push_msg m level e).0

-- The messages are kept in the order in which they are pushed.
pub messages-pushed_all :
    (pushed : List (Bytes × ℕ)) (e : ErrorStack)
    → (pushed_all pushed e).messages ≡ e.messages ++ map (λ p. p.0) pushed
unfolding push_msg error_status
messages-pushed_all [] e = sym (append-nil e.messages)
messages-pushed_all ((m, level) ∷ pushed) e =
    messages-pushed_all pushed (push_msg m level e).0
    ∙ append_assoc e.messages (m ∷ []) (map (λ p. p.0) pushed)

-- The white space that is passed over is all that stands in front: its number, then the rest, which does not
-- begin with white space.
pub munch_space-take :
    (s : List ℕ)
    → let (count, rest) = munch_space s in
      (rest ≡ drop count s)
      × All (λ c. is_space c ≡ true) (take count s)
      × ((c : ℕ) (after : List ℕ) → rest ≡ c ∷ after → is_space c ≡ false)
unfolding munch_space
munch_space-take [] = (refl, tt, λ c after e. ground (arith, e))
munch_space-take (c ∷ s) =
    let next : (munch_space s).0 + 1 ≡ suc (munch_space s).0 = omega arith in
    let (same, spaces, stop) = munch_space-take s in
    elim (Bool-cases (is_space c)) [
      | inl space ↦ rw space (rw next (same, (space, spaces), stop))
      | inr other ↦ rw other (refl, tt, λ d after e. cc)
    ]
