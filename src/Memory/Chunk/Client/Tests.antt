-- ===== src/Memory/Chunk/Client/Tests.antt =====
-- Concrete runs of a chunk and its users.
use qth_frame.Base.{ℕ, refl, List, [], arith, inl, inr}
use qth_frame.Memory.Chunk.{empty_chunk, init, allocate, write, link_blocks}
use qth_frame.Memory.Chunk.Start.{up_from, init-IsFreeList}
use qth_frame.Memory.Chunk.Client.{
  Client, take_block, give_back, takes, returns, writes, Reach, here, next, IsShared,
  Reach-IsShared,
}

abbrev start : Client
start = record { chunk = (init 100 4 3 empty_chunk).1; live = [] }

abbrev taken : Client
taken = take_block 4 (take_block 4 start)

abbrev scribbled : Client
scribbled = record taken { chunk = write 5 77 taken.chunk }

start-IsShared : IsShared 4 3 (up_from 0 3) start
start-IsShared = record {
  free = (init-IsFreeList 100 4 3 empty_chunk refl (omega arith) (omega arith) (omega arith)).1;
  in_use = tt;
  once = tt;
  apart = tt;
  total = refl;
}

taken_run : Reach 4 start (give_back 4 0 scribbled)
unfolding take_block allocate init link_blocks
taken_run =
    next
      (next (next (next here takes) takes) (writes 1 5 77 (inl refl) (omega arith) (omega arith)))
      (returns 0 (inr (inl refl)))

Reach-IsShared_example : (ys : List ℕ) × IsShared 4 3 ys (give_back 4 0 scribbled)
Reach-IsShared_example = Reach-IsShared 4 3 (up_from 0 3) start-IsShared taken_run
