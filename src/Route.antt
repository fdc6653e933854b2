-- ===== src/Route.antt =====
-- src/wcc/route.cpp and route.h: a route, its verb and ajax flags, and the tables of HTTP verbs.
-- Flags are PHP integers; one that is negative is the number with its 64 bits. `flags & (1 << k)` is not zero exactly where
-- `(flags / 2 ^ k) % 2` is 1; a mask of several bits is `bit_and`.
pub mod Verbs
pub mod Serial
pub mod Settings
use zpp_cpp.Common.{
  ℕ, zero, suc, ◌+◌, ◌-◌, ◌*◌, ◌/◌, ◌%◌, ◌^◌, bit_and, Bool, true, false, not, ◌&&◌, List, [], ◌∷◌,
  ◌++◌, Option, none, some, map, get_elem?, length, ltb, leb, ◌==◌, if◌then◌else◌, Bytes, codes,
  equal,
}
use Prim.Native.String.{String}
use zpp_cpp.Php
use zpp_cpp.Php.{Key, name, index, Val, null, long, str, arr, Arr, empty, entry}

-- `html`
abbrev pub v_get : ℕ
v_get = 1

abbrev pub v_post : ℕ
v_post = 2

-- `ajax`
abbrev pub aj_none : ℕ
aj_none = 1

abbrev pub aj_only : ℕ
aj_only = 2

abbrev pub aj_also : ℕ
aj_also = 3

-- `Route_init::verb_names`, filled by `push_back` in ascending order of the bits.
unfoldable pub verb_names : List Bytes
verb_names =
    codes "GET"
    ∷ codes "POST"
    ∷ codes "PUT"
    ∷ codes "PATCH"
    ∷ codes "OPTIONS"
    ∷ codes "DELETE"
    ∷ codes "HEAD"
    ∷ codes "CONNECT"
    ∷ codes "TRACE"
    ∷ codes "PURGE"
    ∷ []

-- `Route_init::route_verbs`
unfoldable pub route_verbs : List (Bytes × ℕ)
route_verbs =
    (codes "GET", 1)
    ∷ (codes "POST", 2)
    ∷ (codes "PUT", 4)
    ∷ (codes "PATCH", 8)
    ∷ (codes "OPTIONS", 16)
    ∷ (codes "DELETE", 32)
    ∷ (codes "HEAD", 64)
    ∷ (codes "CONNECT", 128)
    ∷ (codes "TRACE", 256)
    ∷ (codes "PURGE", 512)
    ∷ []

abbrev pub toupper : ℕ → ℕ
toupper c = if leb b'a' c && leb c b'z' then c - 32 else c

unfoldable pub find_verb : Bytes → List (Bytes × ℕ) → Option ℕ
find_verb k [] = none
find_verb k ((j, v) ∷ table) = if equal j k then some v else find_verb k table

-- `Route::getVerbInt`
unfoldable pub get_verb_int : Bytes → ℕ
get_verb_int sverb = elim (find_verb (map toupper sverb) route_verbs) [ none ↦ 0 | some v ↦ v ]

-- `(flags & (1 << mix)) != 0`
abbrev pub has_bit : ℕ → ℕ → Bool
has_bit flags mix = flags / 2 ^ mix % 2 == 1

-- The loop of `getVerbNames` over the names from bit `mix` on.
verb_names_loop : ℕ → ℕ → List Bytes → List Bytes
verb_names_loop flags mix [] = []
verb_names_loop flags mix (vname ∷ names) =
    let rest = verb_names_loop flags (mix + 1) names in
    if has_bit flags mix then vname ∷ rest else rest

unfoldable pub get_verb_names : ℕ → List Bytes
unfolding verb_names_loop
get_verb_names flags = verb_names_loop flags 0 verb_names

-- The loop of `getVerb`, `count` rounds from bit `mix` on; a null name is `none`.
verb_loop : ℕ → ℕ → ℕ → Option Bytes
verb_loop zero verb mix = none
verb_loop (suc count) verb mix =
    let rest = verb_loop count verb (mix + 1) in
    if has_bit verb mix
    then (elim (get_elem? verb_names mix) [ none ↦ rest | some vname ↦ some vname ])
    else rest

-- `for (mix = 0; mix < 9; mix++)`
unfoldable pub get_verb : ℕ → Option Bytes
unfolding verb_loop
get_verb verb = verb_loop 9 verb 0

-- A route. An empty text is the empty or the null string of the source.
pub record Route : Type 0 where
  pub verbs : ℕ
  pub ajax : ℕ
  pub id : Bytes
  pub pattern : Bytes
  pub compiled : Bytes
  pub target : Val
  pub params : Arr

-- `Route::Route`
abbrev pub new_route : Route
new_route = record {
  verbs = v_get;
  ajax = aj_none;
  id = [];
  pattern = [];
  compiled = [];
  target = null;
  params = empty;
}

unfoldable pub construct : ℕ → Bytes → Val → Route → Route
construct verbs pattern target r = record r { verbs = verbs; pattern = pattern; target = target }

-- The three factories, with their `ajax` argument.
unfoldable pub get : Bytes → Val → ℕ → Route
unfolding construct
get pattern target ajax = record (construct v_get pattern target new_route) { ajax = ajax }

unfoldable pub post : Bytes → Val → ℕ → Route
unfolding construct
post pattern target ajax = record (construct v_post pattern target new_route) { ajax = ajax }

unfoldable pub methods : ℕ → Bytes → Val → ℕ → Route
unfolding construct
methods verbs pattern target ajax = record (construct verbs pattern target new_route) {
  ajax = ajax;
}

unfoldable pub has_params : Route → Bool
has_params r = ltb 0 (Php.size r.params)

-- `hasVerb` and `allow`
unfoldable pub has_verb : Route → ℕ → Bool
has_verb r verb = not (bit_and verb r.verbs == 0)

unfoldable pub allow : Route → ℕ → ℕ → Bool
allow r verb ajax = not (bit_and verb r.verbs == 0) && not (bit_and ajax r.ajax == 0)

abbrev field : String → Key
field s = name (codes s)

-- The cast of a flag to `int`, as a PHP integer again: the lower 32 bits with their sign.
unfoldable pub int_cast : ℕ → ℕ
int_cast n =
    if ltb (n % 4294967296) 2147483648
    then n % 4294967296
    else n % 4294967296 + 18446744069414584320

unfoldable pub serialize : Route → Arr
unfolding int_cast
serialize r = Php.set (field "params") (arr r.params) (
    Php.set (field "target") r.target (
      Php.set (field "compiled") (str r.compiled) (
        Php.set (field "pattern") (str r.pattern) (
          Php.set (field "ajax") (long (int_cast r.ajax)) (
            Php.set (field "verbs") (long (int_cast r.verbs))
              (Php.set (field "id") (str r.id) empty))))))

-- What an assignment from a fetched value leaves: the old text or number where the key is absent or,
-- for the three that are tested, of another type.
abbrev text_or_null : Option Val → Bytes → Bytes
text_or_null none old = old
text_or_null (some (str s)) old = s
text_or_null (some v) old = []

abbrev long_or : Option Val → ℕ → ℕ
long_or (some (long n)) old = n
long_or _ old = old

abbrev text_or : Option Val → Bytes → Bytes
text_or (some (str s)) old = s
text_or _ old = old

abbrev array_or_empty : Option Val → Arr
array_or_empty (some (arr a)) = a
array_or_empty _ = empty

abbrev value_or_null : Option Val → Val
value_or_null (some v) = v
value_or_null none = null

unfoldable pub unserialize : Arr → Route → Route
unserialize htab r = record {
  verbs = long_or (Php.get (field "verbs") htab) r.verbs;
  ajax = long_or (Php.get (field "ajax") htab) r.ajax;
  id = text_or (Php.get (field "id") htab) r.id;
  pattern = text_or_null (Php.get (field "pattern") htab) r.pattern;
  compiled = text_or_null (Php.get (field "compiled") htab) r.compiled;
  target = value_or_null (Php.get (field "target") htab);
  params = array_or_empty (Php.get (field "params") htab);
}
