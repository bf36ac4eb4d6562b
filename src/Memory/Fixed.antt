-- ===== src/Memory/Fixed.antt =====
-- `class FixedAllocator` of include/utility/SmallObj.h, with its functions in src/SmallObj.cpp.
-- A `Chunk*` is an index into the vector of chunks, and `none` is NULL. What the two allocations of
-- `MakeNewChunk` come to is an argument.
pub mod Vicinity
pub mod Pool
pub mod Ready
pub mod Pick
pub mod Take
pub mod Move
pub mod Retire
pub mod Return
pub mod Client
use qth_frame.Base.{
  ℕ, zero, suc, ◌+◌, ◌-◌, ◌*◌, ◌/◌, ◌≡◌, Bool, true, false, ◌&&◌, ◌||◌, Option, none, some, List,
  [], ◌∷◌, ◌++◌, length, get_or, set, drop_last, ◌==◌, ltb, if◌then◌else◌,
}
use qth_frame.Memory.Chunk
use qth_frame.Memory.Chunk.{Chunk, empty_chunk}

abbrev pub min_objects_per_chunk : ℕ
min_objects_per_chunk = 8

abbrev pub max_objects_per_chunk : ℕ
max_objects_per_chunk = 255

-- `dangling` tells that `allocChunk_` and `deallocChunk_` point into memory that the vector has left.
pub record Fixed : Type 0 where
  pub block_size : ℕ
  pub num_blocks : ℕ
  pub chunks : List Chunk
  pub alloc_chunk : Option ℕ
  pub dealloc_chunk : Option ℕ
  pub empty : Option ℕ
  pub capacity : ℕ
  pub dangling : Bool

-- What the allocations of `MakeNewChunk` come to: the capacity that `reserve` gives the vector, and
-- the address that `new unsigned char[]` answers; `none` is an exception.
pub record New : Type 0 where
  pub vector : Option ℕ
  pub block : Option ℕ

abbrev pub chunk_at : List Chunk → ℕ → Chunk
chunk_at cs i = get_or cs i empty_chunk

-- Equality of two chunk pointers.
abbrev pub same : Option ℕ → Option ℕ → Bool
same none none = true
same none (some j) = false
same (some i) none = false
same (some i) (some j) = i == j

-- The number of blocks of a chunk, within the two limits.
pub clamp_blocks : ℕ → ℕ
clamp_blocks n =
    if ltb max_objects_per_chunk n
    then max_objects_per_chunk
    else if ltb n min_objects_per_chunk
    then min_objects_per_chunk
    else n

pub initialize : ℕ → ℕ → Fixed → Fixed
initialize block_size page_size s = record s {
  block_size = block_size;
  num_blocks = clamp_blocks (page_size / block_size);
}

abbrev pub chunk_length : Fixed → ℕ
chunk_length s = s.num_blocks * s.block_size

-- The first chunk from index `i` on with a free block.
pub first_available_from : ℕ → List Chunk → Option ℕ
first_available_from i [] = none
first_available_from i (c ∷ cs) =
    if c.blocks_available == 0 then first_available_from (i + 1) cs else some i

-- The vector has moved to new memory; the two chunk pointers stay.
abbrev pub moved : ℕ → Fixed → Fixed
moved capacity s = record s {
  capacity = capacity;
  dangling = if length s.chunks == 0 then s.dangling else true;
}

-- `if (chunks_.capacity() == size)`, with `reserve`, where `none` is its exception.
pub reserve : Option ℕ → Fixed → Option Fixed
reserve vector s =
    if s.capacity == length s.chunks
    then (elim vector [ none ↦ none | some capacity ↦ some (moved capacity s) ])
    else some s

-- `Init`, `push_back` and the two pointers.
pub push_chunk : Option ℕ → Fixed → Bool × Fixed
push_chunk none s = (false, s)
push_chunk (some place) s =
    let (allocated, c) = Chunk.init place s.block_size s.num_blocks empty_chunk in
    if allocated
    then (
      true,
      record s {
        chunks = s.chunks ++ (c ∷ []);
        alloc_chunk = some (length s.chunks);
        dealloc_chunk = some 0;
        dangling = false;
      },
    )
    else (false, s)

abbrev pub push_reserved : Option ℕ → Fixed → Option Fixed → Bool × Fixed
push_reserved block s none = (false, s)
push_reserved block s (some t) = push_chunk block t

pub make_new_chunk : New → Fixed → Bool × Fixed
make_new_chunk new s = push_reserved new.block s (reserve new.vector s)

-- The free blocks of the allocation chunk, 0 at NULL.
abbrev pub available_in : Option ℕ → List Chunk → ℕ
available_in none cs = 0
available_in (some i) cs = (chunk_at cs i).blocks_available

-- The part of `Allocate` that picks the chunk; false is its `return NULL`.
pub pick_chunk : New → Fixed → Bool × Fixed
pick_chunk new s =
    if available_in s.alloc_chunk s.chunks == 0
    then (elim s.empty [
      | some e ↦ (true, record s { alloc_chunk = some e; empty = none })
      | none ↦ elim (first_available_from 0 s.chunks) [
        | some i ↦ (true, record s { alloc_chunk = some i })
        | none ↦ make_new_chunk new s
      ]
    ])
    else (true, if same s.alloc_chunk s.empty then record s { empty = none } else s)

-- `return allocChunk_->Allocate(blockSize_);`
pub allocate_in : Fixed → Option ℕ → ℕ × Fixed
allocate_in s none = (0, s)
allocate_in s (some i) =
    let (p, c) = Chunk.allocate s.block_size (chunk_at s.chunks i) in
    (p, record s { chunks = set s.chunks i c })

pub allocate : New → Fixed → ℕ × Fixed
allocate new s =
    let (picked, t) = pick_chunk new s in if picked then allocate_in t t.alloc_chunk else (0, t)

-- What one round of the loop of `VicinityFind` comes to.
pub data Round : Type 0 where
  found : ℕ → Round
  missing : Round
  again : Option ℕ → Option ℕ → Round

-- The part of the round for `hi`, over `n` chunks.
pub high_round : (ℕ → Bool) → ℕ → Option ℕ → Option ℕ → Round
high_round test n lo none = again lo none
high_round test n lo (some h) =
    if test h
    then found h
    else if h + 1 == n
    then (elim lo [ none ↦ missing | some l ↦ again (some l) none ])
    else again lo (some (h + 1))

pub vicinity_round : (ℕ → Bool) → ℕ → Option ℕ → Option ℕ → Round
vicinity_round test n none hi = high_round test n none hi
vicinity_round test n (some l) hi =
    if test l
    then found l
    else if l == 0
    then (elim hi [ none ↦ missing | some h ↦ high_round test n none (some h) ])
    else high_round test n (some (l - 1)) hi

-- `none` is a loop that has used up its fuel.
pub vicinity_loop : (ℕ → Bool) → ℕ → ℕ → Option ℕ → Option ℕ → Option (Option ℕ)
vicinity_loop test n zero lo hi = none
vicinity_loop test n (suc fuel) lo hi = elim (vicinity_round test n lo hi) [
  | found i ↦ some (some i)
  | missing ↦ some none
  | again lo' hi' ↦ vicinity_loop test n fuel lo' hi'
]

abbrev pub holds_block : ℕ → Fixed → ℕ → Bool
holds_block p s i = Chunk.has_block p (chunk_length s) (chunk_at s.chunks i)

abbrev pub vicinity_from : ℕ → Fixed → ℕ → Option (Option ℕ)
vicinity_from p s d =
    let n = length s.chunks in
    vicinity_loop (holds_block p s) n (n + 1) (some d) (if d + 1 == n then none else some (d + 1))

pub vicinity_find : ℕ → Fixed → Option (Option ℕ)
vicinity_find p s =
    if length s.chunks == 0
    then some none
    else elim s.dealloc_chunk [ none ↦ some none | some d ↦ vicinity_from p s d ]

-- `std::swap` of two chunks of the vector.
pub swap_chunks : List Chunk → ℕ → ℕ → List Chunk
swap_chunks cs i j = set (set cs i (chunk_at cs j)) j (chunk_at cs i)

-- The chunk that goes is moved to the end, unless it is the last one already.
pub move_to_end : ℕ → ℕ → List Chunk → List Chunk
move_to_end e d cs =
    let last = length cs - 1 in
    if last == d then cs else if last == e then cs else swap_chunks cs e last

-- `lastChunk->Release(); chunks_.pop_back();`
pub pop_chunk : List Chunk → List Chunk
pop_chunk cs =
    let last = length cs - 1 in drop_last (set cs last (Chunk.release (chunk_at cs last)))

-- The tail of `DoDeallocate` with two wholly free chunks, `e` and `d`: one goes.
pub retire_chunk : ℕ → ℕ → Fixed → Fixed
retire_chunk e d s =
    let last = length s.chunks - 1 in
    let kept = if last == d then e else d in
    let rest = pop_chunk (move_to_end e d s.chunks) in
    record s {
      chunks = rest;
      alloc_chunk =
          if same s.alloc_chunk (some last) || (available_in s.alloc_chunk rest == 0)
          then some kept
          else s.alloc_chunk;
      dealloc_chunk = some kept;
      empty = some kept;
    }

-- `DoDeallocate` with `deallocChunk_` at `d`.
pub do_deallocate : ℕ → ℕ → Fixed → Fixed
do_deallocate p d s =
    let c = Chunk.deallocate s.block_size p (chunk_at s.chunks d) in
    let t = record s { chunks = set s.chunks d c; dealloc_chunk = some d } in
    if c.blocks_available == s.num_blocks
    then (elim s.empty [ none ↦ record t { empty = some d } | some e ↦ retire_chunk e d t ])
    else t

abbrev pub answer : ℕ → Fixed → Option ℕ → Bool × Fixed
answer p s none = (false, s)
answer p s (some d) = (true, do_deallocate p d s)

-- A search out of fuel counts as no chunk.
abbrev pub searched : Option (Option ℕ) → Option ℕ
searched none = none
searched (some r) = r

-- The hint, or what the search finds.
abbrev pub found_chunk : ℕ → Fixed → Option ℕ → Option ℕ
found_chunk p s none = searched (vicinity_find p s)
found_chunk p s (some d) = some d

pub deallocate : ℕ → Option ℕ → Fixed → Bool × Fixed
deallocate p hint s = answer p s (found_chunk p s hint)

-- The linear search of `HasBlock`.
pub has_block_from : ℕ → ℕ → ℕ → List Chunk → Option ℕ
has_block_from p len i [] = none
has_block_from p len i (c ∷ cs) =
    if Chunk.has_block p len c then some i else has_block_from p len (i + 1) cs

pub has_block : ℕ → Fixed → Option ℕ
has_block p s = has_block_from p (chunk_length s) 0 s.chunks
