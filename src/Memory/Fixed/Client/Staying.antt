-- ===== src/Memory/Fixed/Client/Staying.antt =====
-- The blocks in use of a `FixedAllocator` (src/SmallObj.cpp) when another is taken.
use qth_frame.Base.{ℕ, ◌*◌, ◌<◌, ◌≡◌, ◌≢◌, sym, ap, ◌∙◌, subst, ◌∷◌, arith, Lacks, ℕ_discrete}
use qth_frame.Memory.Chunk.Free.{IsFreeList}
use qth_frame.Memory.Fixed.{Fixed, chunk_at}
use qth_frame.Memory.Fixed.Take.{IsFreeList-cong}
use qth_frame.Memory.Fixed.Client.{addr_at, Held}
use qth_frame.Memory.Fixed.Client.Live.{IsFreeList-unique, block_addr_unique}
use qth_frame.Memory.Fixed.Client.Taking.{IsTaken}

-- A block in use stays in use when another is taken, and is not that one.
module _ (s : Fixed) (r : ℕ × Fixed) (k : IsTaken s r) where
  abbrev pub Stays : ℕ → Type 0
  Stays a = (r.0 ≢ a) × Held r.1 a

  Held-other : (a : ℕ) (h : Held s a) → k.chunk ≢ h.chunk → Held r.1 a
  Held-other a h ne = record {
    chunk = h.chunk;
    block = h.block;
    at = omega (arith, h.at, k.addrs h.chunk h.in_use.inside, ap (λ b. h.block * b) k.block_size);
    in_use = record {
      inside = omega (arith, h.in_use.inside, k.longer);
      index = omega (arith, h.in_use.index, k.num_blocks);
      free = h.in_use.free;
      listed =
          IsFreeList-cong h.in_use.free (sym k.block_size) (sym k.num_blocks)
            (sym (k.others h.chunk h.in_use.inside ne)) h.in_use.listed;
      absent = h.in_use.absent;
    };
  }

  taken_absent :
      (a : ℕ) (h : Held s a) → k.chunk ≡ h.chunk → Lacks h.block (k.block ∷ k.in_use.free)
  taken_absent a h e =
      subst (Lacks h.block)
        (IsFreeList-unique s.block_size s.num_blocks h.in_use.free (k.block ∷ k.in_use.free)
          (chunk_at s.chunks h.chunk) h.in_use.listed
          (subst
            (λ i.
              IsFreeList s.block_size s.num_blocks (k.block ∷ k.in_use.free) (chunk_at s.chunks i))
            e (k.was_free (omega (arith, h.in_use.inside)))))
        h.in_use.absent

  Held-same : (a : ℕ) (h : Held s a) → k.chunk ≡ h.chunk → Held r.1 a
  Held-same a h e = record {
    chunk = k.chunk;
    block = h.block;
    at = omega (
      arith,
      h.at,
      k.addrs h.chunk h.in_use.inside,
      ap (addr_at r.1.chunks) e,
      ap (λ b. h.block * b) k.block_size,
    );
    in_use = record {
      inside = k.in_use.inside;
      index = omega (arith, h.in_use.index, k.num_blocks);
      free = k.in_use.free;
      listed = k.in_use.listed;
      absent = (taken_absent a h e).1;
    };
  }

  differs :
      (a : ℕ) (h : Held r.1 a)
      → 0 < s.block_size
      → (h.chunk ≡ k.chunk → h.block ≢ k.block)
      → r.0 ≢ a
  differs a h z ne e =
      let (p, q) =
        block_addr_unique r.1 k.apart h.chunk k.chunk h.block k.block (omega (arith, k.block_size))
          h.in_use.inside k.in_use.inside h.in_use.index k.in_use.index (sym h.at ∙ sym e ∙ k.at) in
      ne p q

  pub Held-Stays : (a : ℕ) → 0 < s.block_size → Held s a → Stays a
  unfolding Held-same Held-other
  Held-Stays a z h = elim (ℕ_discrete k.chunk h.chunk) [
    | yes e ↦ let g = Held-same a h e in (differs a g z (λ p q. (taken_absent a h e).0 (sym q)), g)
    | no ne ↦ let g = Held-other a h ne in (differs a g z (λ p q. ne (sym p)), g)
  ]
