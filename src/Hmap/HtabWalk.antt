-- ===== src/Hmap/HtabWalk.antt =====
-- src/zpp/htab_walk.cxx: the walk along an array. The functions of the engine that move a position and look at it
-- are `move_forward`, `last_place` and `entry_at`; places of removed entries, which they pass over, are not
-- counted.
use zpp_cpp.Common.{
  ℕ, zero, suc, ◌+◌, ◌-◌, Bool, true, false, Option, none, some, ltb, ◌==◌, if◌then◌else◌,
}
use zpp_cpp.Php.{Key, Val, null, Arr, empty, entry, size}

-- `zend_hash_get_current_key_zval_ex` and `zend_hash_get_current_data_ex`
abbrev pub entry_at : ℕ → Arr → Option (Key × Val)
entry_at i empty = none
entry_at zero (entry k v r) = some (k, v)
entry_at (suc i) (entry k v r) = entry_at i r

-- `zend_hash_move_forward_ex`; `none` is its failure.
abbrev pub move_forward : Arr → ℕ → Option ℕ
move_forward a i = if ltb i (size a) then some (i + 1) else none

-- `zend_hash_internal_pointer_end_ex`
abbrev pub last_place : Arr → ℕ
last_place a = if size a == 0 then 0 else size a - 1

pub record HtabWalk : Type 0 where
  pub wrap : Option Arr
  pub iterate : ℕ
  pub ok : Bool
  pub key : Option Key
  pub value : Val

-- `htab_walk::htab_walk`
abbrev pub new_walk : HtabWalk
new_walk = record { wrap = none; iterate = 0; ok = false; key = none; value = null }

-- `htab_walk::release`
abbrev pub release : HtabWalk → HtabWalk
release w = record w { key = none; value = null }

abbrev past_end : Option Arr → ℕ → ℕ
past_end none i = i
past_end (some a) i = elim (move_forward a (last_place a)) [ none ↦ last_place a | some j ↦ j ]

-- `htab_walk::invalid`
unfoldable pub invalid : HtabWalk → HtabWalk
invalid w = record (release w) { ok = false; iterate = past_end w.wrap w.iterate }

-- `htab_walk::getdata`, with its result
unfoldable pub getdata : Arr → HtabWalk → HtabWalk × Bool
unfolding invalid
getdata a w = elim (entry_at w.iterate a) [
  | none ↦ (invalid w, false)
  | some (k, v) ↦ (record w { key = some k; value = v }, true)
]

-- `htab_walk::next`; where `getdata` fails, it has cleared `ok`, and the call of `next` behind it does nothing.
unfoldable pub next : HtabWalk → HtabWalk × Bool
unfolding getdata
next w = elim w.wrap [
  | none ↦ (w, false)
  | some a ↦
      if w.ok
      then (elim (move_forward a w.iterate) [
        | none ↦ (invalid w, false)
        | some i ↦ getdata a (record w { iterate = i })
      ])
      else (w, false)
]

-- `htab_walk::start`
unfoldable pub start : Option Arr → HtabWalk → HtabWalk × Bool
unfolding next
start none w = (invalid (record w { wrap = none }), false)
start (some a) w =
    let (w', found) = getdata a (record w { wrap = some a; ok = true; iterate = 0 }) in
    let again = next w' in if found then (w', true) else again

-- `htab_walk::rewind`
unfoldable pub rewind : HtabWalk → HtabWalk × Bool
unfolding start
rewind w = start w.wrap w
