-- ===== src/Php/Slice.antt =====
-- `htab_ptr::slice` of src/zpp/htab_ptr.cxx. Sizes and offsets are below 2 ^ 31.
use zpp_cpp.Common.{
  ℕ, zero, suc, ◌+◌, ◌-◌, ◌%◌, ◌^◌, ◌≤◌, ◌<◌, ◌≡◌, ◌∙◌, Bool, true, false, ◌&&◌, Option, none, ltb,
  leb, if◌then◌else◌, ℤ, pos, negsuc, arith, Bool-cases, inl, inr,
}
use zpp_cpp.Php.{Key, name, index, Val, Arr, empty, entry, key_equal, get, set, size}
use zpp_cpp.Php.Arrays.{get-set}
use zpp_cpp.Php.Lists.{is_list_from, is_list}

-- The offset as an `unsigned int`: one before the first entry wraps around.
abbrev pub slice_start : ℕ → ℤ → ℕ
slice_start n (pos o) = o
slice_start n (negsuc o) = (2 ^ 32 + n - (o + 1)) % 2 ^ 32

-- The value of `src_len` behind the tests of the length: a positive length is taken as the position
-- behind the last entry.
abbrev pub slice_end : ℕ → ℤ → ℕ
slice_end n (pos zero) = n
slice_end n (pos (suc l)) = suc l
slice_end n (negsuc l) = if ltb (l + 1) n then n - (l + 1) else n

abbrev new_key : Bool → Key → ℕ → Key
new_key true k p = k
new_key false (name s) p = name s
new_key false (index i) p = index p

unfoldable slice_loop : Bool → ℕ → ℕ → ℕ → Arr → Arr → Arr
slice_loop keep start stop p empty out = out
slice_loop keep start stop p (entry k v r) out =
    let taken = slice_loop keep start stop (p + 1) r (set (new_key keep k (p - start)) v out) in
    let passed = slice_loop keep start stop (p + 1) r out in
    if leb start p && ltb p stop then taken else passed

unfoldable pub slice : ℤ → ℤ → Bool → Arr → Arr
unfolding slice_loop
slice offset len keep a =
    let start = slice_start (size a) offset in
    let stop = slice_end (size a) len in
    if ltb stop start then empty else slice_loop keep start stop 0 a empty

abbrev within : ℕ → ℕ → ℕ → Bool
within lo hi j = leb lo j && ltb j hi

-- The entry at a place of the result, when the loop is at place `p`.
abbrev placed : ℕ → ℕ → ℕ → Arr → Arr → ℕ → Option Val
placed start stop p a out i =
    if within p (p + size a) (start + i) && ltb (start + i) stop
    then get (index (start + i)) a
    else get (index i) out

placed_in :
    (start stop p : ℕ) (v : Val) (r out : Arr) (i : ℕ)
    → start ≤ p
    → p < stop
    → placed start stop (p + 1) r (set (index (p - start)) v out) i
      ≡ placed start stop p (entry (index p) v r) out i
unfolding size get key_equal
placed_in start stop p v r out i lo hi =
    ground (arith, lo, hi, get-set (index (p - start)) (index i) v out)

placed_out :
    (start stop p : ℕ) (v : Val) (r out : Arr) (i : ℕ)
    → (leb start p && ltb p stop) ≡ false
    → placed start stop (p + 1) r out i ≡ placed start stop p (entry (index p) v r) out i
unfolding size get key_equal
placed_out start stop p v r out i h = ground (arith, h)

get-slice_loop :
    (start stop p : ℕ) (a out : Arr) (i : ℕ)
    → is_list_from p a ≡ true
    → get (index i) (slice_loop false start stop p a out) ≡ placed start stop p a out i
unfolding slice_loop size is_list_from
get-slice_loop start stop p empty out i h = ground arith
get-slice_loop start stop p (entry (name s) v r) out i h = absurd (ground (arith, h))
get-slice_loop start stop p (entry (index j) v r) out i h =
    let here : j ≡ p = ground (arith, h) in
    let later : is_list_from (p + 1) r ≡ true = ground (arith, h) in
    elim (Bool-cases (leb start p && ltb p stop)) [
      | inl inside ↦ rw inside (
          get-slice_loop start stop (p + 1) r (set (index (p - start)) v out) i later
          ∙ rw here
              (placed_in start stop p v r out i (ground (arith, inside)) (ground (arith, inside))))
      | inr outside ↦ rw outside (
          get-slice_loop start stop (p + 1) r out i later
          ∙ rw here (placed_out start stop p v r out i outside))
    ]

-- The part of a list from an offset that is not negative, renumbered, has at index `i` the entry at
-- `offset + i`, and none where that place is behind the list or not before `length`: a positive length is
-- the place where the part ends, not the number of its entries.
pub get-slice :
    (offset len : ℕ) (a : Arr) (i : ℕ)
    → is_list a ≡ true
    → get (index i) (slice (pos offset) (pos (suc len)) false a) ≡ (
        if ltb (offset + i) (size a) && ltb (offset + i) (suc len)
        then get (index (offset + i)) a
        else none)
unfolding slice is_list get
get-slice offset len a i h = elim (Bool-cases (ltb (suc len) offset)) [
  | inl early ↦ rw early (ground (arith, early))
  | inr late ↦ rw late (ground (arith, get-slice_loop offset (suc len) 0 a empty i h))
]
