-- ===== src/Memory/Fixed/Client/Writing.antt =====
-- Writes of the users of a `FixedAllocator` (src/SmallObj.cpp) into their blocks.
use qth_frame.Base.{
  ℕ, ◌+◌, ◌*◌, ◌<◌, ◌≡◌, refl, sym, ◌∙◌, subst, List, arith, length-set, set, Lacks, ℕ_discrete,
}
use qth_frame.Memory.Chunk.{Chunk}
use qth_frame.Memory.Chunk
use qth_frame.Memory.Chunk.Free.{IsFreeList, write-IsFreeList, write-addr, write-blocks_available}
use qth_frame.Memory.Fixed.{Fixed, chunk_at}
use qth_frame.Memory.Fixed.Pool.{IsPool, chunk_at-set_self, chunk_at-set_ne, PointsIn-length}
use qth_frame.Memory.Fixed.Return.{InUse}
use qth_frame.Memory.Fixed.Client.{addr_at, write_byte, Held, Apart}
use qth_frame.Memory.Fixed.Client.Live.{Apart-same, IsFreeList-unique}

-- A write into a block in use leaves the allocator and the blocks in use as they are.
module _ (s : Fixed) (d x k v : ℕ) (w : IsPool s) (u : InUse s d x) (small : k < s.block_size) where
  abbrev offset : ℕ
  offset = x * s.block_size + k

  abbrev written : Chunk
  written = Chunk.write offset v (chunk_at s.chunks d)

  abbrev cells : List Chunk
  cells = set s.chunks d written

  -- What holds of a chunk before the write and of `written` holds after it.
  written-at {κ} :
      (P : Chunk → Type κ) (j : ℕ)
      → P (chunk_at s.chunks j)
      → (P (chunk_at s.chunks d) → P written)
      → P (chunk_at cells j)
  written-at P j p f = elim (ℕ_discrete d j) [
    | yes e ↦
        subst (λ i. P (chunk_at cells i)) e
          (subst P (sym (chunk_at-set_self s.chunks d written u.inside))
            (f (subst (λ i. P (chunk_at s.chunks i)) (sym e) p)))
    | no e ↦ subst P (sym (chunk_at-set_ne s.chunks d j written e)) p
  ]

  written_addr : (j : ℕ) → addr_at cells j ≡ addr_at s.chunks j
  written_addr j =
      written-at (λ c. c.addr ≡ addr_at s.chunks j) j refl
        (λ e. write-addr offset v (chunk_at s.chunks d) ∙ e)

  written_available :
      (j : ℕ) → (chunk_at cells j).blocks_available ≡ (chunk_at s.chunks j).blocks_available
  written_available j =
      written-at (λ c. c.blocks_available ≡ (chunk_at s.chunks j).blocks_available) j refl
        (λ e. write-blocks_available offset v (chunk_at s.chunks d) ∙ e)

  written-IsFreeList :
      (xs : List ℕ) (j : ℕ)
      → IsFreeList s.block_size s.num_blocks xs (chunk_at s.chunks j)
      → IsFreeList s.block_size s.num_blocks xs (chunk_at cells j)
  written-IsFreeList xs j f = written-at (IsFreeList s.block_size s.num_blocks xs) j f (λ g.
      write-IsFreeList s.block_size s.num_blocks xs (chunk_at s.chunks d) x offset v g
        (subst (Lacks x)
          (IsFreeList-unique s.block_size s.num_blocks u.free xs (chunk_at s.chunks d) u.listed g)
          u.absent)
        (omega arith) (omega arith))

  pub write_byte-IsPool : IsPool (write_byte d offset v s)
  unfolding write_byte
  write_byte-IsPool =
      let n = length-set s.chunks d written in
      record {
        settled = w.settled;
        sized = w.sized;
        enough = w.enough;
        small = w.small;
        healthy = λ j l. let h = w.healthy j (omega arith) in (h.0, written-IsFreeList h.0 j h.1);
        alloc_in = PointsIn-length s.alloc_chunk s.chunks cells n w.alloc_in;
        dealloc_in = PointsIn-length s.dealloc_chunk s.chunks cells n w.dealloc_in;
        empty_in =
            λ e q. (omega (arith, (w.empty_in e q).0), written_available e ∙ (w.empty_in e q).1);
        only = λ j l q. w.only j (omega arith) (sym (written_available j) ∙ q);
      }

  pub write_byte-Apart : Apart s → Apart (write_byte d offset v s)
  unfolding write_byte
  write_byte-Apart a =
      Apart-same s (write_byte d offset v s) refl (length-set s.chunks d written)
        (λ i l. written_addr i) a

  pub write_byte-Held : (a : ℕ) → Held s a → Held (write_byte d offset v s) a
  unfolding write_byte
  write_byte-Held a h = record {
    chunk = h.chunk;
    block = h.block;
    at = omega (arith, h.at, written_addr h.chunk);
    in_use = record {
      inside = omega (arith, h.in_use.inside, length-set s.chunks d written);
      index = h.in_use.index;
      free = h.in_use.free;
      listed = written-IsFreeList h.in_use.free h.chunk h.in_use.listed;
      absent = h.in_use.absent;
    };
  }
