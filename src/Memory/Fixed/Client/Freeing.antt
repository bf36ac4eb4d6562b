-- ===== src/Memory/Fixed/Client/Freeing.antt =====
-- What `FixedAllocator::Deallocate` (src/SmallObj.cpp) makes of a block in use, and of all others.
use qth_frame.Base.{
  ℕ, suc, ◌-◌, ◌<◌, ◌≡◌, refl, sym, ap, ◌∙◌, subst, ◌⊎◌, inl, inr, Bool, true, none, some, List,
  ◌∷◌, arith, length, length-set, ℕ_discrete, Option-cases,
}
use qth_frame.Memory.Chunk.Free.{IsFreeList, deallocate-cons}
use qth_frame.Memory.Fixed.{Fixed, chunk_at, retire_chunk, do_deallocate, deallocate}
use qth_frame.Memory.Fixed.Pool.{available_at, IsPool, chunk_at-set_self}
use qth_frame.Memory.Fixed.Move.{length-pop_chunk, length-move_to_end}
use qth_frame.Memory.Fixed.Return.{
  InUse, block_addr, put_back, do_deallocate-last, do_deallocate-first, do_deallocate-partly,
  deallocate-IsPool,
}
use qth_frame.Memory.Fixed.Client.{Apart}
use qth_frame.Memory.Fixed.Client.Live.{Apart-Disjoint}
use qth_frame.Memory.Fixed.Client.Giving.{IsFreed, do_deallocate-IsFreed}

-- Block `x` of chunk `d` is free: it is at the head of the chunk's free list, or all other blocks of
-- the chunk were free, one wholly free chunk has gone and one is left, which the allocator knows.
abbrev pub Freed : Fixed → (d x : ℕ) → List ℕ → Fixed → Type 0
Freed s d x free t =
    ((length t.chunks ≡ length s.chunks)
      × IsFreeList s.block_size s.num_blocks (x ∷ free) (chunk_at t.chunks d))
    ⊎ ((suc (length t.chunks) ≡ length s.chunks)
        × (suc (length free) ≡ s.num_blocks)
        × (k : ℕ) × (t.empty ≡ some k)
        × (k < length t.chunks)
        × (available_at t.chunks k ≡ s.num_blocks))

module _ (d x : ℕ) (s : Fixed) (u : InUse s d x) where
  put_back-listed :
      IsFreeList s.block_size s.num_blocks
        (x ∷ u.free)
        (chunk_at (put_back (block_addr s d x) d s).chunks d)
  unfolding put_back
  put_back-listed =
      subst (IsFreeList s.block_size s.num_blocks (x ∷ u.free))
        (sym (chunk_at-set_self s.chunks d _ u.inside))
        (deallocate-cons s.block_size s.num_blocks x u.free (chunk_at s.chunks d) u.listed u.index
          u.absent)

  length-put_back : length (put_back (block_addr s d x) d s).chunks ≡ length s.chunks
  unfolding put_back
  length-put_back = length-set s.chunks d _

retire_chunk-length :
    (e d : ℕ) (s : Fixed) → length (retire_chunk e d s).chunks ≡ length s.chunks - 1
unfolding retire_chunk
retire_chunk-length e d s =
    length-pop_chunk _ ∙ ap (λ (n : ℕ). n - 1) (length-move_to_end e d s.chunks)

retire_chunk-empty : (e d : ℕ) (s : Fixed) → (k : ℕ) × ((retire_chunk e d s).empty ≡ some k)
unfolding retire_chunk
retire_chunk-empty e d s = (_, refl)

put_back-num_blocks : (p d : ℕ) (s : Fixed) → (put_back p d s).num_blocks ≡ s.num_blocks
unfolding put_back
put_back-num_blocks p d s = refl

retire_chunk-num_blocks : (e d : ℕ) (s : Fixed) → (retire_chunk e d s).num_blocks ≡ s.num_blocks
unfolding retire_chunk
retire_chunk-num_blocks e d s = refl

do_deallocate-Freed :
    (d x : ℕ) (s : Fixed) (u : InUse s d x)
    → IsPool (do_deallocate (block_addr s d x) d s)
    → Freed s d x u.free (do_deallocate (block_addr s d x) d s)
do_deallocate-Freed d x s u v =
    elim (ℕ_discrete (available_at (put_back p d s).chunks d) s.num_blocks) [
      | yes full ↦ elim (Option-cases s.empty) [
        | inl q ↦
            subst (Freed s d x u.free) (sym (do_deallocate-first p d s full q u.inside))
              (inl (length-put_back d x s u, put_back-listed d x s u))
        | inr (e, q) ↦
            let t = do_deallocate-last p d s full e q u.inside in
            subst (Freed s d x u.free) (sym t) (gone full e (subst IsPool t v))
      ]
      | no part ↦
          subst (Freed s d x u.free) (sym (do_deallocate-partly p d s part u.inside))
            (inl (length-put_back d x s u, put_back-listed d x s u))
    ]
  where
    p : ℕ
    p = block_addr s d x

    gone :
        available_at (put_back p d s).chunks d ≡ s.num_blocks
        → (e : ℕ) → IsPool (retire_chunk e d (put_back p d s))
        → Freed s d x u.free (retire_chunk e d (put_back p d s))
    gone full e w =
        let (k, f) = retire_chunk-empty e d (put_back p d s) in
        let (l, m) = w.empty_in k f in
        inr (
          omega
              (arith, retire_chunk-length e d (put_back p d s), length-put_back d x s u, u.inside),
          omega (arith, full, (put_back-listed d x s u).counted),
          k,
          f,
          l,
          m ∙ retire_chunk-num_blocks e d (put_back p d s) ∙ put_back-num_blocks p d s,
        )

-- In a well-formed allocator whose chunks do not overlap, `Deallocate` with no hint of a block in
-- use answers true and leaves the allocator well formed. The block is then at the head of the free
-- list of its chunk, unless all other blocks of the chunk were free and there was another wholly
-- free chunk: then one chunk has gone, and the one that is left is wholly free. Every other block
-- in use stays in use at its address, and the chunks still do not overlap.
pub deallocate-Freed :
    (d x : ℕ) (s : Fixed)
    → IsPool s
    → Apart s
    → (u : InUse s d x)
    → ((deallocate (block_addr s d x) none s).0 ≡ true)
      × IsPool (deallocate (block_addr s d x) none s).1
      × Freed s d x u.free (deallocate (block_addr s d x) none s).1
      × IsFreed s d x (deallocate (block_addr s d x) none s).1
deallocate-Freed d x s v p u =
    let (e, w) = deallocate-IsPool d x s v (Apart-Disjoint s p) u in
    (
      ap (λ (r : Bool × Fixed). r.0) e,
      w,
      subst (λ (r : Bool × Fixed). Freed s d x u.free r.1) (sym e)
          (do_deallocate-Freed d x s u (subst (λ (r : Bool × Fixed). IsPool r.1) e w)),
      subst (λ (r : Bool × Fixed). IsFreed s d x r.1) (sym e) (do_deallocate-IsFreed d x s v p u),
    )
