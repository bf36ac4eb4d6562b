-- ===== src/Memory/Tests.antt =====
-- Concrete runs of the fixed allocator and of the allocator for small objects.
use qth_frame.Base.{false, ℕ, ◌<◌, ◌≡◌, refl, ◌≢◌, true, none, some, [], ◌∷◌, arith, ◌⊎◌, zero, suc}
use qth_frame.Memory.Chunk
use qth_frame.Memory.Chunk.{Chunk, empty_chunk}
use qth_frame.Memory.Chunk.Free.{IsFreeList, allocate-cons}
use qth_frame.Memory.Chunk.Start.{up_from, init-IsFreeList}
use qth_frame.Memory.Fixed
use qth_frame.Memory.Fixed.{
  New, Fixed, chunk_at, holds_block, vicinity_find, do_deallocate, initialize,
}
use qth_frame.Memory.Fixed.Vicinity.{Answers, vicinity_find-Answers}
use qth_frame.Memory.Fixed.Pool.{Healthy, IsPool, initialize-IsPool}
use qth_frame.Memory.Fixed.Take.{Exhausted, Grants, allocate-Grants}
use qth_frame.Memory.Fixed.Return.{InUse, block_addr}
use qth_frame.Memory.Fixed.Client.Freeing.{Freed, deallocate-Freed}
use qth_frame.Memory.Fixed.Client.Giving.{IsFreed}
use qth_frame.Memory.Small
use qth_frame.Memory.Small.{Small, blank, create}
use qth_frame.Memory.Small.Sizes.{
  IsSmall, Serves, create-IsSmall, allocate-IsSmall, allocate-Serves,
}

-- The vector is given room for eight chunks, and the block is at address 100.
abbrev memory : New
memory = record { vector = some 8; block = some 100 }

abbrev fresh : Fixed
fresh = initialize 4 100 blank

fresh-IsPool : IsPool fresh
fresh-IsPool = initialize-IsPool 4 100 blank (omega arith) refl refl refl refl refl

allocate-Grants_example :
    Exhausted memory fresh (Fixed.allocate memory fresh)
    ⊎ Grants fresh (Fixed.allocate memory fresh)
allocate-Grants_example = allocate-Grants memory fresh fresh-IsPool (omega arith)

abbrev full_chunk : Chunk
full_chunk = (Chunk.init 100 4 8 empty_chunk).1

abbrev used_chunk : Chunk
used_chunk = (Chunk.allocate 4 full_chunk).1

used_chunk-IsFreeList : IsFreeList 4 8 (up_from 1 7) used_chunk
used_chunk-IsFreeList =
    (allocate-cons 4 8 0 (up_from 1 7) full_chunk
      (init-IsFreeList 100 4 8 empty_chunk refl (omega arith) (omega arith) (omega arith)).1).2

-- One chunk, with its first block in use.
abbrev one_used : Fixed
one_used = record {
  block_size = 4;
  num_blocks = 8;
  chunks = used_chunk ∷ [];
  alloc_chunk = some 0;
  dealloc_chunk = some 0;
  empty = none;
  capacity = 8;
  dangling = false;
}

one_used-Healthy : (i : ℕ) → i < 1 → Healthy 4 8 (chunk_at one_used.chunks i)
one_used-Healthy zero h = (up_from 1 7, used_chunk-IsFreeList)
one_used-Healthy (suc i) h = absurd (omega arith)

one_used-available : (i : ℕ) → i < 1 → (chunk_at one_used.chunks i).blocks_available ≢ 8
one_used-available zero h e = omega (arith, used_chunk-IsFreeList.counted)
one_used-available (suc i) h e = absurd (omega arith)

one_used-IsPool : IsPool one_used
one_used-IsPool = record {
  settled = refl;
  sized = omega arith;
  enough = omega arith;
  small = omega arith;
  healthy = one_used-Healthy;
  alloc_in = omega arith;
  dealloc_in = omega arith;
  empty_in = λ e. cc;
  only = λ i h e. absurd (one_used-available i h e);
}

one_used-InUse : InUse one_used 0 0
one_used-InUse = record {
  inside = omega arith;
  index = omega arith;
  free = up_from 1 7;
  listed = used_chunk-IsFreeList;
  absent = ground arith;
}

vicinity_find-Answers_example : Answers (holds_block 104 one_used) 1 (vicinity_find 104 one_used)
vicinity_find-Answers_example = vicinity_find-Answers 104 0 one_used refl (omega arith)

deallocate-Freed_example :
    ((Fixed.deallocate (block_addr one_used 0 0) none one_used).0 ≡ true)
    × IsPool (Fixed.deallocate (block_addr one_used 0 0) none one_used).1
    × Freed one_used 0 0 (up_from 1 7) (Fixed.deallocate (block_addr one_used 0 0) none one_used).1
    × IsFreed one_used 0 0 (Fixed.deallocate (block_addr one_used 0 0) none one_used).1
unfolding one_used-InUse
deallocate-Freed_example =
    deallocate-Freed 0 0 one_used one_used-IsPool (λ i j h k ne. absurd (ne (omega arith)))
      one_used-InUse

allocate-IsSmall_example : IsSmall (Small.allocate memory 5 true (create 8192 64)).1
unfolding create
allocate-IsSmall_example =
    allocate-IsSmall memory 5 true (create 8192 64) (create-IsSmall 8192 64) (omega arith) (λ e. cc)
      (omega arith) (omega arith)

allocate-Serves_example :
    Serves memory 5 true (create 8192 64) (Small.allocate memory 5 true (create 8192 64))
unfolding create
allocate-Serves_example =
    allocate-Serves memory 5 true (create 8192 64) (create-IsSmall 8192 64) (omega arith)
      (omega arith) (omega arith)
