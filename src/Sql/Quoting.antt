-- ===== src/Sql/Quoting.antt =====
-- The quoting of names: `quoteName` and `quoteAlways` of src/wcd/postgres.cpp beside that of isql.cpp, and what
-- SQL reads in a quoted name. The test of the expression `rex_pgname` is the parameter `matches`.
use zpp_cpp.Common.{
  ◌∙◌, ℕ, ◌≡◌, ◌≢◌, ap, Bool, false, ◌||◌, [], ◌∷◌, ◌++◌, some, ◌==◌, if◌then◌else◌, Bytes, All,
  arith,
}
use zpp_cpp.Sql.Emit.{quote_name}
use zpp_cpp.Sql.Reading.{
  inside, read_from, read_quoted, IsUnescaped, NoQuoteAhead, read_plain, append_last,
}

abbrev double_quoted : Bytes → Bytes
double_quoted s = b'"' ∷ (s ++ b'"' ∷ [])

abbrev kept : ℕ → Bool
kept c = c == b'*' || c == b'"'

-- `Postgres::quoteAlways`; an empty name is looked at as a zero byte.
unfoldable pub pg_quote_always : Bytes → Bytes
pg_quote_always [] = double_quoted []
pg_quote_always (c ∷ s) = if kept c then c ∷ s else double_quoted (c ∷ s)

-- `Postgres::quoteName`
unfoldable pub pg_quote_name : (Bytes → Bool) → Bytes → Bytes
pg_quote_name matches [] = if matches [] then [] else double_quoted []
pg_quote_name matches (c ∷ s) =
    if kept c then c ∷ s else if matches (c ∷ s) then c ∷ s else double_quoted (c ∷ s)

-- A name that is not empty, has no back quote, does not begin with a star and, where a backslash is more than
-- itself, has none, is quoted so that SQL reads the name back, and reads on behind it with what the
-- statement has there, if that does not begin with a back quote.
pub read_quoted-quote_name :
    (escapes : Bool) (unescape : ℕ → ℕ) (c : ℕ) (s after : Bytes)
    → c ≢ b'*'
    → All (λ x. x ≢ b'`') (c ∷ s)
    → All (IsUnescaped escapes unescape b'`') (c ∷ s)
    → NoQuoteAhead escapes unescape b'`' after
    → read_quoted escapes unescape b'`' (quote_name (c ∷ s) ++ after) ≡ some (c ∷ s, after)
unfolding quote_name read_quoted
read_quoted-quote_name escapes unescape c s after star h plain ahead =
    let kept : (c == b'*' || c == b'`') ≡ false = ground (arith, star, h.0) in
    rw kept (
      ap (read_from escapes unescape b'`' inside) (append_last (c ∷ s) b'`' after)
      ∙ read_plain escapes unescape b'`' (c ∷ s) after ahead h plain)
