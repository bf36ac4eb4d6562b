-- ===== src/Memory/Fixed/Client/Tests.antt =====
-- A user takes two blocks of 512 bytes, writes into the second and gives the first back.
use qth_frame.Base.{refl, inl, inr, none, some, arith}
use qth_frame.Memory.Chunk
use qth_frame.Memory.Fixed.{
  New, initialize, clamp_blocks, allocate, pick_chunk, allocate_in, make_new_chunk, reserve,
  push_chunk, first_available_from,
}
use qth_frame.Memory.Fixed.Client.{Client, take, give, takes, gives, Reach, here, next}
use qth_frame.Memory.Fixed.Client.Safe.{start, IsSafe, Reach-IsSafe}

-- The vector is given room for eight chunks.
abbrev taken_one : Client
taken_one = take (record { vector = some 8; block = some 100 }) (start 512 4096)

abbrev no_memory : New
no_memory = record { vector = none; block = none }

abbrev taken_two : Client
taken_two = take no_memory taken_one

taken_two-Reach : Reach (start 512 4096) taken_two
unfolding initialize
taken_two-Reach =
    next
      (next here (
        takes (record { vector = some 8; block = some 100 })
          (omega arith, λ i h. absurd (omega arith)) (λ e. cc)))
      (takes no_memory tt (λ e p q. refl))

given-Reach : Reach (start 512 4096) (give 100 taken_two)
unfolding take initialize clamp_blocks allocate pick_chunk allocate_in make_new_chunk reserve
    push_chunk first_available_from Chunk.init Chunk.link_blocks Chunk.allocate
given-Reach = next taken_two-Reach (gives 100 (inr (inl refl)))

Reach-IsSafe_example : IsSafe (give 100 taken_two)
Reach-IsSafe_example = Reach-IsSafe 512 4096 (omega arith) given-Reach
