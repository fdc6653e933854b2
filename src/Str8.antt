-- ===== src/Str8.antt =====
-- src/wcc/str8.cpp and str8.h: the `Str8` object, a text that PHP iterates by code points, and its
-- iterator. `phpit.data` is the current value, `none` for PHP's null; the text that the iterator's
-- object holds is passed along. The engine's part of `foreach` is not modelled.
pub mod Walk
use zpp_cpp.Common.{
  ℕ, ◌+◌, ◌-◌, ◌%◌, Bool, List, [], ◌∷◌, Option, none, some, length, drop, ltb, if◌then◌else◌,
  Bytes,
}
use zpp_cpp.Ucode8.{Decoded, ucode8_fwd, utf32_str8}

pub record Str8Iterator : Type 0 where
  pub current : ℕ
  pub next : ℕ
  pub value : Option ℕ

abbrev pub create : Str8Iterator
create = record { current = 0; next = 0; value = none }

pub it_valid : Str8Iterator → Bool
it_valid it = ltb it.current it.next

pub it_get_data : Str8Iterator → Option ℕ
it_get_data it = it.value

pub it_get_key : Str8Iterator → ℕ
it_get_key it = it.current

-- The three ways through `it_forward`: a decoded code, an undecodable byte, and the end.
pub it_forward : Bytes → Str8Iterator → Str8Iterator
it_forward zstr it =
    let d = ucode8_fwd (drop it.next zstr) in
    let stopped : Str8Iterator = record { current = it.next; next = it.next; value = none } in
    if ltb it.next (length zstr)
    then (if ltb 0 d.units
        then record { current = it.next; next = it.next + d.units; value = some d.code }
        else stopped)
    else stopped

pub it_rewind : Str8Iterator → Str8Iterator
it_rewind it = record { current = 0; next = 0; value = none }

pub it_invalidate : Str8Iterator → Str8Iterator
it_invalidate it = record { current = 0; next = 0; value = none }

-- `Str8::construct`, `toString` and `size` on `zstr_`.
pub record Str8 : Type 0 where
  pub zstr : Bytes

unfoldable pub construct : Str8 → Bytes → Str8
construct o s = record o { zstr = s }

unfoldable pub to_string : Str8 → Bytes
to_string o = o.zstr

unfoldable pub size : Str8 → ℕ
size o = length o.zstr

-- The PHP integer is cut to `char32_t`.
pub ucode8str : ℕ → Bytes
ucode8str ucode = utf32_str8 (ucode % 0x100000000)
