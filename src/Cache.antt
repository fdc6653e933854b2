-- ===== src/Cache.antt =====
-- `ICacheData` of src/wcc/icachedata.cpp and icachedata.h: an entry of a cache, its expiry and its
-- serialised form. The clock is the argument `now`; times are not negative and below 2 ^ 31.
use zpp_cpp.Common.{ℕ, ◌+◌, ◌≡◌, refl, Bool, true, false, Option, none, some, Bytes, codes}
use zpp_cpp.Php
use zpp_cpp.Php.{Key, name, Val, bool, long, str, Arr, empty, entry, text_of}

pub record ICacheData : Type 0 where
  pub key : Bytes
  pub data_value : Val
  pub ttl : ℕ
  pub stored : ℕ
  pub saved : Bool

-- `ICacheData::construct`
unfoldable pub construct : Bytes → Val → ℕ → ℕ → ICacheData
construct k v ttl now = record { key = k; data_value = v; ttl = ttl; stored = now; saved = false }

-- `ICacheData::setStored`
unfoldable pub set_stored : ℕ → ICacheData → ICacheData
set_stored now d = record d { stored = now; saved = true }

-- `ICacheData::update`, which keeps the time of storing
unfoldable pub update : Val → ℕ → ICacheData → ICacheData
update v ttl d = record d { data_value = v; ttl = ttl; saved = false }

-- `ICacheData::getExpiry`
unfoldable pub get_expiry : ICacheData → ℕ
get_expiry d = d.ttl + d.stored

abbrev put : Bytes → Val → Arr → Arr
put k v a = Php.set (name k) v a

-- `ICacheData::member_info`
unfoldable pub member_info : Bool → ICacheData → Arr → Arr
member_info dinfo d s =
    let members = put (codes "stored") (long d.stored) (
      put (codes "ttl") (long d.ttl) (
        put (codes "data") d.data_value
          (put (codes "key") (str d.key) (put (codes "expiry") (long (d.ttl + d.stored)) s)))) in
    elim dinfo [ true ↦ put (codes "saved") (bool d.saved) members | false ↦ members ]

-- `ICacheData::serialize`
unfoldable pub serialize : ICacheData → Arr
unfolding member_info
serialize d = member_info false d empty

abbrev value_of : Option Val → Val
value_of none = Php.null
value_of (some v) = v

-- A value as a number; a missing value is 0, and a text is not read as a number here.
abbrev number_of : Option Val → ℕ
number_of (some (long n)) = n
number_of (some (bool true)) = 1
number_of _ = 0

abbrev item : Bytes → Arr → Option Val
item k a = Php.get (name k) a

-- `ICacheData::unserialize`
unfoldable pub unserialize : Arr → ICacheData → ICacheData
unserialize s d = record d {
  key = text_of (item (codes "key") s);
  data_value = value_of (item (codes "data") s);
  ttl = number_of (item (codes "ttl") s);
  stored = number_of (item (codes "stored") s);
  saved = true;
}

-- An entry that is serialised and read back, into whatever object, is the same entry with the same
-- expiry, and counts as saved.
pub unserialize-serialize_cached :
    (d e : ICacheData)
    → (unserialize (serialize d) e ≡ record d { saved = true })
      × (get_expiry (unserialize (serialize d) e) ≡ get_expiry d)
unfolding unserialize serialize member_info get_expiry Php.set Php.get Php.key_equal
unserialize-serialize_cached d e = (refl, refl)
