-- ===== src/Str8/Walk.antt =====
-- Stepping the iterator over a text that is the encoding of a list of codes.
use zpp_cpp.Common.{
  ℕ, zero, suc, ◌<◌, ◌≡◌, refl, sym, ap, ◌∙◌, true, false, List, [], ◌∷◌, ◌++◌, none, some, length,
  take, get_elem?, All, Bytes, arith, length-append, drop-append,
}
use mathlib.Core.List.{append-nil, append_assoc}
use zpp_cpp.Ucode8.{utf32_str8, u8bytes}
use zpp_cpp.Ucode8.RoundTrip.{ucode8_fwd-utf32_str8}
use zpp_cpp.Str8.{Str8Iterator, it_valid, it_forward, it_rewind, it_get_data, it_get_key}

-- The text of a list of codes.
abbrev pub encode : List ℕ → Bytes
encode [] = []
encode (d ∷ ds) = utf32_str8 d ++ encode ds

abbrev pub IsCode : ℕ → Type 0
IsCode d = d < 0x110000

-- `n` calls of `it_forward`.
abbrev pub advance : Bytes → ℕ → Str8Iterator → Str8Iterator
advance s zero it = it
advance s (suc n) it = advance s n (it_forward s it)

u8bytes_pos : (d : ℕ) → IsCode d → 0 < u8bytes d
unfolding u8bytes
u8bytes_pos d h = ground arith

forward-encode :
    (pre : Bytes) (d : ℕ) (ds : List ℕ) (it : Str8Iterator)
    → IsCode d
    → it.next ≡ length pre
    → it_forward (pre ++ encode (d ∷ ds)) it
      ≡ record { current = length pre; next = length (pre ++ utf32_str8 d); value = some d }
unfolding it_forward
forward-encode pre d ds it h e =
    let (decoded, len) = ucode8_fwd-utf32_str8 d (encode ds) h in
    ground (
      arith,
      decoded,
      len,
      e,
      u8bytes_pos d h,
      drop-append pre (encode (d ∷ ds)),
      length-append pre (encode (d ∷ ds)),
      length-append (utf32_str8 d) (encode ds),
      length-append pre (utf32_str8 d),
    )

encode-take_lt :
    (ds : List ℕ) (k : ℕ) {d : ℕ}
    → All IsCode ds
    → get_elem? ds k ≡ some d
    → length (encode (take k ds)) < length (encode (take (suc k) ds))
encode-take_lt [] k h g = cc
encode-take_lt (c ∷ ds) zero (h, hs) g =
    let (decoded, len) = ucode8_fwd-utf32_str8 c [] h in
    omega (arith, u8bytes_pos c h, length-append (utf32_str8 c) [], len)
encode-take_lt (c ∷ ds) (suc k) (h, hs) g = omega (
  arith,
  encode-take_lt ds k hs g,
  length-append (utf32_str8 c) (encode (take k ds)),
  length-append (utf32_str8 c) (encode (take (suc k) ds)),
)

advance-encode :
    (pre : Bytes) (ds : List ℕ) (it : Str8Iterator) (k : ℕ) {d : ℕ}
    → All IsCode ds
    → it.next ≡ length pre
    → get_elem? ds k ≡ some d
    → advance (pre ++ encode ds) (suc k) it ≡ record {
      current = length (pre ++ encode (take k ds));
      next = length (pre ++ encode (take (suc k) ds));
      value = some d;
    }
advance-encode pre [] it k h e g = cc
advance-encode pre (c ∷ ds) it zero {d} (h, hs) e g =
    let same : c ≡ d = ground arith in
    forward-encode pre c ds it h e ∙ rw (append-nil, append-nil, same)
advance-encode pre (c ∷ ds) it (suc k) (h, hs) e g =
    let moved : Str8Iterator = record {
      current = length pre;
      next = length (pre ++ utf32_str8 c);
      value = some c;
    } in
    ap (advance (pre ++ encode (c ∷ ds)) (suc k)) (forward-encode pre c ds it h e)
    ∙ ap (λ s. advance s (suc k) moved) (sym (append_assoc pre (utf32_str8 c) (encode ds)))
    ∙ advance-encode (pre ++ utf32_str8 c) ds moved k hs refl g
    ∙ simp append_assoc

-- After the last code one more step makes the iterator invalid.
advance_end :
    (pre : Bytes) (ds : List ℕ) (it : Str8Iterator)
    → All IsCode ds
    → it.next ≡ length pre
    → it_valid (advance (pre ++ encode ds) (suc (length ds)) it) ≡ false
unfolding it_valid
advance_end pre [] it h e = unfold it_forward in ground (arith, length-append pre [])
advance_end pre (c ∷ ds) it (h, hs) e =
    let moved : Str8Iterator = record {
      current = length pre;
      next = length (pre ++ utf32_str8 c);
      value = some c;
    } in
    ap (λ i. it_valid (advance (pre ++ encode (c ∷ ds)) (suc (length ds)) i))
      (forward-encode pre c ds it h e)
    ∙ ap (λ s. it_valid (advance s (suc (length ds)) moved))
        (sym (append_assoc pre (utf32_str8 c) (encode ds)))
    ∙ advance_end (pre ++ utf32_str8 c) ds moved hs refl

-- On the text of a list of codes, step k + 1 after a rewind stands at code k: its value is that
-- code, its key is the length of the text of the codes before it, and it is valid.
pub it_forward-encode :
    (ds : List ℕ) (it : Str8Iterator) (k : ℕ) {d : ℕ}
    → All IsCode ds
    → get_elem? ds k ≡ some d
    → (it_get_data (advance (encode ds) (suc k) (it_rewind it)) ≡ some d)
      × (it_get_key (advance (encode ds) (suc k) (it_rewind it)) ≡ length (encode (take k ds)))
      × (it_valid (advance (encode ds) (suc k) (it_rewind it)) ≡ true)
unfolding it_get_data it_get_key it_rewind it_valid
it_forward-encode ds it k {d} h g =
    let start : Str8Iterator = record { current = 0; next = 0; value = none } in
    ground (arith, advance-encode [] ds start k h refl g, encode-take_lt ds k h g)

-- Stepping past the last code ends the iteration.
pub it_forward-encode_end :
    (ds : List ℕ) (it : Str8Iterator)
    → All IsCode ds
    → it_valid (advance (encode ds) (suc (length ds)) (it_rewind it)) ≡ false
unfolding it_rewind
it_forward-encode_end ds it h = advance_end [] ds _ h refl

-- Directly after a rewind the iterator is never valid, whatever the text: the first code is
-- decoded only by a call of `it_forward`. A loop that tests before it steps sees no code.
pub it_valid-it_rewind : (it : Str8Iterator) → it_valid (it_rewind it) ≡ false
unfolding it_valid it_rewind
it_valid-it_rewind it = refl
