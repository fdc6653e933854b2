-- ===== src/Sql/Literal.antt =====
-- `Literal` of src/wcd/sql_ipart.cpp: a value as the text of an SQL literal.
use zpp_cpp.Common.{
  ℕ, suc, ◌≡◌, refl, Bool, [], ◌∷◌, ◌++◌, Option, none, some, length, Bytes, arith, All,
}
use zpp_cpp.Php.{Val, str}
use zpp_cpp.Sql.Reading.{
  inside, read_from, read_quoted, IsUnescaped, NoQuoteAhead, read_end, append_last,
}
use zpp_cpp.StrPtr.{str_replace, is_prefix}
use zpp_cpp.StrPtr.Replace.{Replaced, done, keep, swap, str_replace-Replaced}

abbrev pub quote : ℕ
quote = b'\''

pub record Literal : Type 0 where
  pub value : Val

-- `Literal::construct`
abbrev pub construct : Val → Literal
construct v = record { value = v }

-- `Literal::toString`; `to_zstr` is the conversion of PHP for a value that is no string. `none` is a
-- call of `str_replace` that does not return.
unfoldable pub to_string : (Val → Bytes) → Literal → Option Bytes
to_string to_zstr l = elim l.value [
  | str s ↦ elim (str_replace (suc (length s)) (quote ∷ []) (quote ∷ quote ∷ []) s) [
    | none ↦ none
    | some doubled ↦ some (quote ∷ (doubled ++ quote ∷ []))
  ]
  | other ↦ some (to_zstr other)
]

module _ (escapes : Bool) (unescape : ℕ → ℕ) where
  read_from-Replaced :
      {s out : Bytes} (after : Bytes)
      → NoQuoteAhead escapes unescape quote after
      → Replaced (quote ∷ []) (quote ∷ quote ∷ []) s out
      → All (IsUnescaped escapes unescape quote) s
      → read_from escapes unescape quote inside (out ++ quote ∷ after) ≡ some (s, after)
  unfolding read_from is_prefix
  read_from-Replaced after h done a = read_end escapes unescape quote after h
  read_from-Replaced after h (keep other r) (plain, a) =
      ground (arith, other, plain, read_from-Replaced after h r a)
  read_from-Replaced after h (swap e r) a =
      let rest = rw e at a in rw (e, read_from-Replaced after h r rest.1) refl

  -- The text of a string literal is returned, and SQL reads it back as the string, and reads on behind it
  -- with what the statement has there, if that does not begin with a quote. This holds for every
  -- string where a backslash is a byte like another; where it escapes the next byte, it holds for the
  -- strings without a backslash.
  pub read_quoted-to_string :
      (to_zstr : Val → Bytes) (s after : Bytes)
      → NoQuoteAhead escapes unescape quote after
      → All (IsUnescaped escapes unescape quote) s
      → (text : Bytes) × (to_string to_zstr (construct (str s)) ≡ some text)
        × (read_quoted escapes unescape quote (text ++ after) ≡ some (s, after))
  unfolding to_string read_quoted
  read_quoted-to_string to_zstr s after h a =
      let (out, ends, meaning) =
        str_replace-Replaced (quote ∷ []) (quote ∷ quote ∷ []) s (omega arith) in
      (
        quote ∷ (out ++ quote ∷ []),
        rw (ends, to_string) refl,
        rw (append_last out quote after) (read_from-Replaced after h meaning a),
      )
