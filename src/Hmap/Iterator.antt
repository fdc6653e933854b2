-- ===== src/Hmap/Iterator.antt =====
-- The iterator of an `Hmap` of src/wcc/hmap.cpp, by the walk along its array.
use zpp_cpp.Common.{Bool, Option}
use zpp_cpp.Php.{Key, Val, Arr}
use zpp_cpp.Hmap.{Hmap}
use zpp_cpp.Hmap.HtabWalk
use zpp_cpp.Hmap.HtabWalk.{HtabWalk, new_walk, release}

pub record HmapIterator : Type 0 where
  pub htab : Option Arr
  pub walk : HtabWalk

unfoldable pub create : Hmap → HmapIterator
create h = record { htab = h.values; walk = (HtabWalk.start h.values new_walk).0 }

unfoldable pub it_valid : HmapIterator → Bool
it_valid it = it.walk.ok

unfoldable pub it_get_data : HmapIterator → Val
it_get_data it = it.walk.value

unfoldable pub it_get_key : HmapIterator → Option Key
it_get_key it = it.walk.key

unfoldable pub it_forward : HmapIterator → HmapIterator
it_forward it = record it { walk = (HtabWalk.next it.walk).0 }

unfoldable pub it_rewind : HmapIterator → HmapIterator
it_rewind it = record it { walk = (HtabWalk.rewind it.walk).0 }

unfoldable it_invalidate : HmapIterator → HmapIterator
it_invalidate it = record it { walk = release it.walk }
