-- ===== src/Memory/Small.antt =====
-- `class SmallObjAllocator` of include/utility/SmallObj.h, with its functions in src/SmallObj.cpp:
-- a fixed allocator for each size from one byte to the limit, and `::operator new` above it.
pub mod Sizes
use qth_frame.Base.{
  ℕ, suc, ◌+◌, ◌-◌, Bool, true, false, ◌&&◌, Option, none, some, [], zero, ◌==◌, ltb, if◌then◌else◌,
}
use qth_frame.Memory.Fixed
use qth_frame.Memory.Fixed.{New, Fixed}

-- `pool i` is `pool_[i]`, for `i` below the limit.
pub record Small : Type 0 where
  pub pool : ℕ → Fixed
  pub max_size : ℕ
  pub page_size : ℕ

abbrev pub blank : Fixed
blank = record {
  block_size = 0;
  num_blocks = 0;
  chunks = [];
  alloc_chunk = none;
  dealloc_chunk = none;
  empty = none;
  capacity = 0;
  dangling = false;
}

unfoldable pub create : ℕ → ℕ → Small
create page_size max_size = record {
  pool = λ i. Fixed.initialize (i + 1) page_size blank;
  max_size = max_size;
  page_size = page_size;
}

-- `if (numBytes == 0) numBytes = 1;`
abbrev pub at_least_one : ℕ → ℕ
at_least_one n = if n == 0 then 1 else n

abbrev pub pool_set : ℕ → Fixed → Small → Small
pool_set i f s = record s { pool = λ j. if i == j then f else s.pool j }

-- What a call of `Allocate` comes to.
pub data Place : Type 0 where
  default_new : Place
  block : ℕ → Place
  bad_alloc : Place
  null : Place

-- `place` is what the allocations come to if a chunk has to be made.
pub allocate : New → ℕ → Bool → Small → Place × Small
allocate place n do_throw s =
    let i = at_least_one n - 1 in
    let (p, f) = Fixed.allocate place (s.pool i) in
    if ltb s.max_size n
    then (default_new, s)
    else if p == 0
    then (if do_throw then bad_alloc else null, pool_set i f s)
    else (block p, pool_set i f s)

-- `true` is a block given to `::operator delete`.
pub deallocate : ℕ → ℕ → Small → Bool × Small
deallocate p n s =
    let i = at_least_one n - 1 in
    let (found, f) = Fixed.deallocate p none (s.pool i) in
    if p == 0 then (false, s) else if ltb s.max_size n then (true, s) else (false, pool_set i f s)

-- The first pool from `i` on, of `n` left, with a chunk that holds `p`: its index and the chunk's.
pub owner_from : ℕ → ℕ → ℕ → Small → Option (ℕ × ℕ)
owner_from p zero i s = none
owner_from p (suc n) i s =
    let later = owner_from p n (i + 1) s in
    elim (Fixed.has_block p (s.pool i)) [ none ↦ later | some c ↦ some (i, c) ]

-- `Deallocate(void* p)`, without the size.
pub deallocate_any : ℕ → Small → Bool × Small
deallocate_any p s = if p == 0 then (false, s) else elim (owner_from p s.max_size 0 s) [
  | none ↦ (true, s)
  | some (i, c) ↦ (false, pool_set i (Fixed.deallocate p (some c) (s.pool i)).1 s)
]
