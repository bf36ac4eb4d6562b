-- ===== src/Memory/Fixed/Pool.antt =====
-- What holds of a fixed allocator between two calls, which the assertions of `Allocate` and
-- `Deallocate` check a part of.
use qth_frame.Base.{
  false, ℕ, ◌≤◌, ◌<◌, ◌/◌, ◌≡◌, refl, subst, sym, ap, ◌≢◌, ◌⊎◌, Option, none, some, List, [], arith,
  length, set, get_or-set_self, get_or-set_ne, ℕ_discrete,
}
use qth_frame.Memory.Chunk.{Chunk, empty_chunk}
use qth_frame.Memory.Chunk.Free.{IsFreeList}
use qth_frame.Memory.Fixed.{Fixed, chunk_at, clamp_blocks, initialize}

-- The chunk has a well-formed list of free blocks.
abbrev pub Healthy : ℕ → ℕ → Chunk → Type 0
Healthy bs n c = (xs : List ℕ) × IsFreeList bs n xs c

-- A chunk pointer is NULL over no chunk, and else points to a chunk.
abbrev pub PointsIn : Option ℕ → List Chunk → Type 0
PointsIn none cs = length cs ≡ 0
PointsIn (some i) cs = i < length cs

abbrev pub available_at : List Chunk → ℕ → ℕ
available_at cs i = (chunk_at cs i).blocks_available

pub record IsPool (s : Fixed) : Type 0 where
  pub sized : 0 < s.block_size
  pub enough : 8 ≤ s.num_blocks
  pub small : s.num_blocks ≤ 255
  pub healthy :
      (i : ℕ) → i < length s.chunks → Healthy s.block_size s.num_blocks (chunk_at s.chunks i)
  pub alloc_in : PointsIn s.alloc_chunk s.chunks
  pub dealloc_in : PointsIn s.dealloc_chunk s.chunks
  pub empty_in :
      (e : ℕ) → s.empty ≡ some e → (e < length s.chunks) × (available_at s.chunks e ≡ s.num_blocks)
  pub settled : s.dangling ≡ false
  pub only :
      (i : ℕ) → i < length s.chunks → available_at s.chunks i ≡ s.num_blocks → s.empty ≡ some i

-- The allocator once `Allocate` has picked chunk `i`, which has a free block.
pub record IsReady (t : Fixed) (i : ℕ) : Type 0 where
  pub sized : 0 < t.block_size
  pub enough : 8 ≤ t.num_blocks
  pub small : t.num_blocks ≤ 255
  pub healthy :
      (j : ℕ) → j < length t.chunks → Healthy t.block_size t.num_blocks (chunk_at t.chunks j)
  pub picked : t.alloc_chunk ≡ some i
  pub inside : i < length t.chunks
  pub room : 0 < available_at t.chunks i
  pub dealloc_in : PointsIn t.dealloc_chunk t.chunks
  pub empty_in :
      (e : ℕ) → t.empty ≡ some e → (e < length t.chunks) × (available_at t.chunks e ≡ t.num_blocks)
  pub apart : t.empty ≢ some i
  pub settled : t.dangling ≡ false
  pub only :
      (j : ℕ)
      → j < length t.chunks
      → available_at t.chunks j ≡ t.num_blocks
      → (t.empty ≡ some j) ⊎ (j ≡ i)

pub chunk_at-set_self :
    (cs : List Chunk) (i : ℕ) (c : Chunk) → i < length cs → chunk_at (set cs i c) i ≡ c
chunk_at-set_self cs i c h = get_or-set_self cs i c empty_chunk h

pub chunk_at-set_ne :
    (cs : List Chunk) (i j : ℕ) (c : Chunk) → i ≢ j → chunk_at (set cs i c) j ≡ chunk_at cs j
chunk_at-set_ne cs i j c h = get_or-set_ne cs i j c empty_chunk h

pub available-set_self :
    (cs : List Chunk) (i : ℕ) (c : Chunk)
    → i < length cs
    → available_at (set cs i c) i ≡ c.blocks_available
available-set_self cs i c h = ap (λ (d : Chunk). d.blocks_available) (chunk_at-set_self cs i c h)

pub available-set_ne :
    (cs : List Chunk) (i j : ℕ) (c : Chunk)
    → i ≢ j
    → available_at (set cs i c) j ≡ available_at cs j
available-set_ne cs i j c h = ap (λ (d : Chunk). d.blocks_available) (chunk_at-set_ne cs i j c h)

-- A property of every chunk survives the change of one chunk that keeps it.
pub healthy-set {κ} :
    (P : Chunk → Type κ) (cs : List Chunk) (i : ℕ) (c : Chunk)
    → i < length cs
    → ((j : ℕ) → j < length cs → P (chunk_at cs j))
    → P c
    → (j : ℕ) → j < length cs
    → P (chunk_at (set cs i c) j)
healthy-set P cs i c h all p j k = elim (ℕ_discrete i j) [
  | yes e ↦ rw (← e, chunk_at-set_self cs i c h) p
  | no e ↦ rw (chunk_at-set_ne cs i j c e) (all j k)
]

pub PointsIn-length :
    (o : Option ℕ) (cs ds : List Chunk) → length ds ≡ length cs → PointsIn o cs → PointsIn o ds
PointsIn-length none cs ds e h = omega arith
PointsIn-length (some i) cs ds e h = omega arith

-- The number of blocks of a chunk stays within 8 and 255, whatever the page size.
pub clamp_blocks_bounds : (n : ℕ) → (8 ≤ clamp_blocks n) × (clamp_blocks n ≤ 255)
unfolding clamp_blocks
clamp_blocks_bounds n = ground arith

pub initialize-block_size : (bs page : ℕ) (s : Fixed) → (initialize bs page s).block_size ≡ bs
unfolding initialize
initialize-block_size bs page s = refl

pub initialize-IsPool :
    (bs page : ℕ) (s : Fixed)
    → 0 < bs
    → s.chunks ≡ []
    → s.alloc_chunk ≡ none
    → s.dealloc_chunk ≡ none
    → s.empty ≡ none
    → s.dangling ≡ false
    → IsPool (initialize bs page s)
unfolding initialize
initialize-IsPool bs page s h e a d m g = record {
  settled = g;
  sized = h;
  enough = (clamp_blocks_bounds (page / bs)).0;
  small = (clamp_blocks_bounds (page / bs)).1;
  healthy = λ i k. absurd (omega (arith, ap length e));
  alloc_in = subst (λ o. PointsIn o s.chunks) (sym a) (ap length e);
  dealloc_in = subst (λ o. PointsIn o s.chunks) (sym d) (ap length e);
  empty_in = λ i k. cc;
  only = λ i k q. absurd (omega (arith, ap length e));
}
