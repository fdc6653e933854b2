-- ===== src/Sql/Reading.antt =====
-- How SQL reads what stands in quotes: a quote that is doubled stands for one, and another quote ends it. Where
-- the dialect takes it so, a backslash takes the next byte with it.
use zpp_cpp.Common.{
  ℕ, ◌≡◌, ◌≢◌, refl, ap, Bool, false, ◌&&◌, [], ◌∷◌, ◌++◌, Option, none, some, ◌==◌, if◌then◌else◌,
  Bytes, All, arith,
}

pub data Place : Type 0 where
  inside : Place
  behind_quote : Place
  behind_backslash : Place

abbrev pub pushed : ℕ → Option (Bytes × Bytes) → Option (Bytes × Bytes)
pushed c none = none
pushed c (some (value, after)) = some (c ∷ value, after)

-- `escapes` says whether a backslash is special, and `unescape` what it makes of the byte behind it. The
-- result is what is read and the text that follows.
module _ (escapes : Bool) (unescape : ℕ → ℕ) (q : ℕ) where
  unfoldable pub read_from : Place → Bytes → Option (Bytes × Bytes)
  read_from inside [] = none
  read_from behind_quote [] = some ([], [])
  read_from behind_backslash [] = none
  read_from inside (c ∷ s) =
      let closing = read_from behind_quote s in
      let escaped = read_from behind_backslash s in
      let more = pushed c (read_from inside s) in
      if c == q then closing else if escapes && c == b'\\' then escaped else more
  read_from behind_quote (c ∷ s) =
      let doubled = pushed q (read_from inside s) in if c == q then doubled else some ([], c ∷ s)
  read_from behind_backslash (c ∷ s) = pushed (unescape c) (read_from inside s)

  unfoldable pub read_quoted : Bytes → Option (Bytes × Bytes)
  unfolding read_from
  read_quoted [] = none
  read_quoted (c ∷ s) = if c == q then read_from inside s else none

  -- The byte is no backslash that the dialect takes for more than itself.
  abbrev pub IsUnescaped : ℕ → Type 0
  IsUnescaped c = (escapes && c == b'\\') ≡ false

  -- The text does not begin with the quote.
  abbrev pub NoQuoteAhead : Bytes → Type 0
  NoQuoteAhead [] = Unit
  NoQuoteAhead (c ∷ s) = c ≢ q

  pub read_end :
      (after : Bytes) → NoQuoteAhead after → read_from inside (q ∷ after) ≡ some ([], after)
  unfolding read_from
  read_end [] h = ground arith
  read_end (c ∷ s) h = ground (arith, h)

  pub read_plain :
      (s after : Bytes)
      → NoQuoteAhead after
      → All (λ c. c ≢ q) s
      → All IsUnescaped s
      → read_from inside (s ++ q ∷ after) ≡ some (s, after)
  unfolding read_from
  read_plain [] after h a b = read_end after h
  read_plain (c ∷ s) after h (other, a) (plain, b) =
      ground (arith, other, plain, read_plain s after h a b)

pub append_last :
    (s : Bytes) (q : ℕ) (after : Bytes) → ◌++◌ {A = ℕ} (s ++ q ∷ []) after ≡ s ++ q ∷ after
append_last [] q after = refl
append_last (c ∷ s) q after = ap (λ t. c ∷ t) (append_last s q after)
