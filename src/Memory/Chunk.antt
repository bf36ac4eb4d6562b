-- ===== src/Memory/Chunk.antt =====
-- `struct Chunk` of include/utility/SmallObj.h, with its functions in src/SmallObj.cpp.
-- An address is a number and NULL is 0. A chunk owns the bytes behind `data`, so they are a field:
-- `mem o` is the byte at `data + o`. An `unsigned char` wraps at 256.
pub mod Free
pub mod Start
pub mod Client
use qth_frame.Base.{
  ℕ, zero, suc, ◌+◌, ◌-◌, ◌*◌, ◌/◌, ◌%◌, Bool, true, false, ◌&&◌, ◌||◌, ◌==◌, ltb, leb,
  if◌then◌else◌,
}

pub record Chunk : Type 0 where
  pub addr : ℕ
  pub first_available : ℕ
  pub blocks_available : ℕ
  pub mem : ℕ → ℕ

-- A store of one byte.
abbrev pub store : (ℕ → ℕ) → ℕ → ℕ → ℕ → ℕ
store mem o v q = if o == q then v else mem q

abbrev pub empty_chunk : Chunk
empty_chunk = record { addr = 0; first_available = 0; blocks_available = 0; mem = λ o. 0 }

-- `for (i = 0; i != blocks; p += blockSize) *p = ++i;` with `n` rounds left.
unfoldable pub link_blocks : ℕ → ℕ → ℕ → (ℕ → ℕ) → ℕ → ℕ
link_blocks block_size zero i mem = mem
link_blocks block_size (suc n) i mem =
    link_blocks block_size n (i + 1) (store mem (i * block_size) ((i + 1) % 256))

-- `place` is what `new unsigned char[blockSize * blocks]` returned.
unfoldable pub init : ℕ → ℕ → ℕ → Chunk → Bool × Chunk
init place block_size blocks c =
    if c.addr == 0
    then (
      true,
      record {
        addr = place;
        first_available = 0;
        blocks_available = blocks;
        mem = link_blocks block_size blocks 0 c.mem;
      },
    )
    else (false, c)

-- The address handed out, 0 for NULL, and the chunk after the call.
unfoldable pub allocate : ℕ → Chunk → ℕ × Chunk
allocate block_size c =
    let offset = c.first_available * block_size in
    if (c.blocks_available == 0) || (c.addr == 0) then (0, c) else (
      c.addr + offset,
      record c {
        first_available = c.mem offset;
        blocks_available = (c.blocks_available + 255) % 256;
      },
    )

pub deallocate : ℕ → ℕ → Chunk → Chunk
deallocate block_size p c = record c {
  first_available = (p - c.addr) / block_size % 256;
  blocks_available = (c.blocks_available + 1) % 256;
  mem = store c.mem (p - c.addr) c.first_available;
}

pub release : Chunk → Chunk
release c = if c.addr == 0 then c else record c { addr = 0 }

pub has_block : ℕ → ℕ → Chunk → Bool
has_block p chunk_length c = leb c.addr p && ltb p (c.addr + chunk_length)

-- The owner of a block writes a byte of it: no function of the pool, but what happens between its
-- calls.
pub write : ℕ → ℕ → Chunk → Chunk
write o v c = record c { mem = store c.mem o v }
