-- ===== src/Memory/Fixed/Client.antt =====
-- A `FixedAllocator` (src/SmallObj.cpp) and its users: blocks are taken, written by their owners and
-- given back in any order.
pub mod Live
pub mod Taking
pub mod Staying
pub mod Writing
pub mod Giving
pub mod Freeing
pub mod Safe
mod Tests
use qth_frame.Base.{
  ℕ, ◌+◌, ◌*◌, ◌≤◌, ◌<◌, ◌≡◌, ◌≢◌, ◌⊎◌, Option, none, some, List, [], ◌∷◌, length, set, All,
  Distinct, ◌==◌, if◌then◌else◌,
}
use qth_frame.Base.Pigeonhole.{without, Holds}
use qth_frame.Memory.Chunk.{Chunk}
use qth_frame.Memory.Chunk
use qth_frame.Memory.Fixed.{New, Fixed, chunk_at, chunk_length, allocate, deallocate}
use qth_frame.Memory.Fixed.Pool.{IsPool}
use qth_frame.Memory.Fixed.Take.{Settles}
use qth_frame.Memory.Fixed.Return.{InUse, block_addr}

-- The allocator, and the addresses of the blocks in use.
pub record Client : Type 0 where
  pub pool : Fixed
  pub live : List ℕ

abbrev pub addr_at : List Chunk → ℕ → ℕ
addr_at cs i = (chunk_at cs i).addr

-- Two pieces of memory of `n` bytes do not overlap.
abbrev pub Clear : ℕ → ℕ → ℕ → Type 0
Clear n a b = (a + n ≤ b) ⊎ (b + n ≤ a)

-- What `new` answers: no memory, or memory at an address above 0 that no chunk has.
abbrev pub IsFresh : Option ℕ → Fixed → Type 0
IsFresh none s = Unit
IsFresh (some p) s =
    (0 < p) × ((i : ℕ) → i < length s.chunks → Clear (chunk_length s) p (addr_at s.chunks i))

-- `Allocate`, whose block is in use unless it is NULL.
pub take : New → Client → Client
take place t =
    let (p, s) = allocate place t.pool in
    if p == 0 then record { pool = s; live = t.live } else record { pool = s; live = p ∷ t.live }

-- `Deallocate` with no hint.
pub give : ℕ → Client → Client
give a t = record { pool = (deallocate a none t.pool).1; live = without a t.live }

-- A write of byte `o` of chunk `d`.
pub write_byte : ℕ → ℕ → ℕ → Fixed → Fixed
write_byte d o v s = record s { chunks = set s.chunks d (Chunk.write o v (chunk_at s.chunks d)) }

-- One action of a user.
pub data Step (t : Client) : Client → Type 0 where
  takes : (new : New) → IsFresh new.block t.pool → Settles new t.pool → Step t (take new t)
  gives : (a : ℕ) → Holds a t.live → Step t (give a t)
  writes :
      (d x k v : ℕ)
      → d < length t.pool.chunks
      → x < t.pool.num_blocks
      → Holds (block_addr t.pool d x) t.live
      → k < t.pool.block_size
      → Step t (record t { pool = write_byte d (x * t.pool.block_size + k) v t.pool })

pub data Reach (s : Client) : Client → Type 0 where
  here : Reach s s
  next : {t u : Client} → Reach s t → Step t u → Reach s u

-- `a` is the address of a block in use.
pub record Held (s : Fixed) (a : ℕ) : Type 0 where
  pub chunk : ℕ
  pub block : ℕ
  pub at : a ≡ block_addr s chunk block
  pub in_use : InUse s chunk block

-- No two chunks overlap.
abbrev pub Apart : Fixed → Type 0
Apart s =
    (i j : ℕ)
    → i < length s.chunks
    → j < length s.chunks
    → i ≢ j
    → Clear (chunk_length s) (addr_at s.chunks i) (addr_at s.chunks j)

pub record IsClient (t : Client) : Type 0 where
  pub pool : IsPool t.pool
  pub apart : Apart t.pool
  pub held : All (Held t.pool) t.live
  pub once : Distinct t.live
