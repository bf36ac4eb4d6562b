-- ===== src/Memory/Fixed/Take.antt =====
-- `FixedAllocator::Allocate` of src/SmallObj.cpp: the allocator after it and the block handed out.
use qth_frame.Base.{
  true, false, Bool-cases, ◌==◌, ℕ, ◌+◌, ◌*◌, ◌<◌, ◌≡◌, refl, subst, sym, ap, ◌∙◌, ◌≢◌, ◌⊎◌, inl,
  inr, Option, none, some, List, [], ◌∷◌, Lacks, arith, length, length-set, set, ℕ_discrete,
}
use qth_frame.Base.Pigeonhole.{pigeonhole}
use qth_frame.Memory.Chunk
use qth_frame.Memory.Chunk.{Chunk}
use qth_frame.Memory.Chunk.Free.{IsFreeList, allocate-cons}
use qth_frame.Memory.Fixed.{New, Fixed, chunk_at, pick_chunk, allocate_in, allocate}
use qth_frame.Memory.Fixed.Pool.{
  Healthy, PointsIn, available_at, IsPool, IsReady, chunk_at-set_self, available-set_self,
  available-set_ne, healthy-set, PointsIn-length,
}
use qth_frame.Memory.Fixed.Pick.{Refused, Extends, Picks, pick_chunk-Picks}
use qth_frame.Memory.Fixed.Ready.{Placed}

-- Block `x` of chunk `i` is what the call hands out: free before it, and not after.
abbrev Hands : Fixed → ℕ → ℕ × Fixed → Type 0
Hands t i r =
    (x : ℕ) × (xs : List ℕ) × (i < length r.1.chunks)
    × (r.0 ≡ (chunk_at r.1.chunks i).addr + x * t.block_size)
    × IsFreeList t.block_size t.num_blocks (x ∷ xs) (chunk_at t.chunks i)
    × IsFreeList t.block_size t.num_blocks xs (chunk_at r.1.chunks i)

allocate_in-ready :
    (t : Fixed) (i x : ℕ) (xs : List ℕ)
    → IsReady t i
    → IsFreeList t.block_size t.num_blocks (x ∷ xs) (chunk_at t.chunks i)
    → IsPool (allocate_in t (some i)).1 × Hands t i (allocate_in t (some i))
unfolding allocate_in
allocate_in-ready t i x xs v f = (
  record {
    settled = v.settled;
    sized = v.sized;
    enough = v.enough;
    small = v.small;
    healthy = λ j k.
        healthy-set (Healthy t.block_size t.num_blocks) t.chunks i c v.inside v.healthy
          (xs, after.2) j (omega (arith, kept));
    alloc_in =
        subst (λ o. PointsIn o (set t.chunks i c)) (sym v.picked) (omega (arith, kept, v.inside));
    dealloc_in = PointsIn-length t.dealloc_chunk t.chunks (set t.chunks i c) kept v.dealloc_in;
    empty_in = λ e q.
        let ne : i ≢ e = (λ p. v.apart (q ∙ ap some (sym p))) in
        (
          omega (arith, kept, (v.empty_in e q).0),
          available-set_ne t.chunks i e c ne ∙ (v.empty_in e q).1,
        );
    only = λ j k q. elim (ℕ_discrete i j) [
      | yes e ↦ absurd (
          not_full (
            sym (available-set_self t.chunks i c v.inside)
            ∙ subst (λ m. available_at (set t.chunks i c) m ≡ t.num_blocks) (sym e) q))
      | no e ↦
          still j e (v.only j (omega (arith, kept)) (sym (available-set_ne t.chunks i j c e) ∙ q))
    ];
  },
  (
    x,
    xs,
    omega (arith, kept, v.inside),
    after.0
        ∙ ap (λ a. a + x * t.block_size)
            (sym (ap (λ (d : Chunk). d.addr) (chunk_at-set_self t.chunks i c v.inside) ∙ after.1)),
    f,
    rw (chunk_at-set_self t.chunks i c v.inside) after.2,
  ),
)
  where
    c : Chunk
    c = (Chunk.allocate t.block_size (chunk_at t.chunks i)).1

    kept : length (set t.chunks i c) ≡ length t.chunks
    kept = length-set t.chunks i c

    after :
        ((Chunk.allocate t.block_size (chunk_at t.chunks i)).0
          ≡ (chunk_at t.chunks i).addr + x * t.block_size)
        × (c.addr ≡ (chunk_at t.chunks i).addr)
        × IsFreeList t.block_size t.num_blocks xs c
    after = allocate-cons t.block_size t.num_blocks x xs (chunk_at t.chunks i) f

    not_full : c.blocks_available ≢ t.num_blocks
    not_full e =
        omega (arith, after.2.counted, pigeonhole t.num_blocks (x ∷ xs) f.in_range f.distinct)

    still : (j : ℕ) → i ≢ j → (t.empty ≡ some j) ⊎ (j ≡ i) → t.empty ≡ some j
    still j ne (inl e) = e
    still j ne (inr e) = absurd (ne (sym e))

allocate_in-lem :
    (t : Fixed) (i : ℕ)
    → IsReady t i
    → Healthy t.block_size t.num_blocks (chunk_at t.chunks i)
    → IsPool (allocate_in t (some i)).1 × Hands t i (allocate_in t (some i))
allocate_in-lem t i v ([], f) = absurd (omega (arith, v.room, f.counted))
allocate_in-lem t i v (x ∷ xs, f) = allocate_in-ready t i x xs v f

-- The answer NULL: an allocation has failed, and no chunk has a free block.
abbrev pub Exhausted : New → Fixed → ℕ × Fixed → Type 0
Exhausted place s r =
    (r.0 ≡ 0) × Refused place s r.1 × ((i : ℕ) → i < length s.chunks → available_at s.chunks i ≡ 0)

-- No failure comes after the vector of an allocator with chunks has moved.
abbrev pub Settles : New → Fixed → Type 0
Settles new s =
    new.block ≡ none → s.capacity ≡ length s.chunks → 0 < length s.chunks → new.vector ≡ none

Refused-IsPool : (new : New) (s t : Fixed) → IsPool s → Settles new s → Refused new s t → IsPool t
Refused-IsPool new s t v h (inl (p, q, e)) = subst IsPool (sym e) v
Refused-IsPool new s t v h (inr (inl (p, q, e))) = subst IsPool (sym e) v
Refused-IsPool new s t v h (inr (inr (c, p, q, r, e))) = elim (Bool-cases (length s.chunks == 0)) [
  | inl z ↦ subst IsPool (sym e) (record {
    settled = rw z v.settled;
    sized = v.sized;
    enough = v.enough;
    small = v.small;
    healthy = v.healthy;
    alloc_in = v.alloc_in;
    dealloc_in = v.dealloc_in;
    empty_in = v.empty_in;
    only = v.only;
  })
  | inr z ↦
      let some_chunk : 0 < length s.chunks = ground arith in
      let vector : new.vector ≡ none = h r p some_chunk in cc (vector, q)
]

-- The answer is block `x` of chunk `i`, which leaves the chunk's free list; the chunk is one that
-- the allocator had, with `x` first on its free list, or a new one.
abbrev pub Grants : Fixed → ℕ × Fixed → Type 0
Grants s r =
    (i : ℕ) × (x : ℕ) × (xs : List ℕ) × (i < length r.1.chunks)
    × (r.0 ≡ (chunk_at r.1.chunks i).addr + x * s.block_size)
    × (i < length s.chunks → IsFreeList s.block_size s.num_blocks (x ∷ xs) (chunk_at s.chunks i))
    × IsFreeList s.block_size s.num_blocks xs (chunk_at r.1.chunks i)
    × Lacks x xs
    × (x < s.num_blocks)

pub allocate-none :
    (new : New) (s t : Fixed) → pick_chunk new s ≡ (false, t) → allocate new s ≡ (0, t)
unfolding allocate
allocate-none new s t e = rw (allocate, e) refl

pub allocate-some :
    (new : New) (s t : Fixed) (i : ℕ)
    → pick_chunk new s ≡ (true, t)
    → t.alloc_chunk ≡ some i
    → allocate new s ≡ allocate_in t (some i)
unfolding allocate
allocate-some new s t i e q = rw (allocate, e) (ap (allocate_in t) q)

pub IsFreeList-cong :
    {bs bs' n n' : ℕ} {c c' : Chunk} (xs : List ℕ)
    → bs ≡ bs'
    → n ≡ n'
    → c ≡ c'
    → IsFreeList bs n xs c
    → IsFreeList bs' n' xs c'
IsFreeList-cong {bs' = bs'} {n} {n'} {c} xs p q e f =
    subst (λ d. IsFreeList bs' n' xs d) e
      (subst (λ m. IsFreeList bs' m xs c) q (subst (λ b. IsFreeList b n xs c) p f))

Hands-Grants :
    (place : New) (s t : Fixed) (i : ℕ) (r : ℕ × Fixed)
    → Extends place.block s t
    → Hands t i r
    → Grants s r
Hands-Grants place s t i r ext (x, xs, k, e, f, g) = (
  i,
  x,
  xs,
  k,
  e ∙ ap (λ b. (chunk_at r.1.chunks i).addr + x * b) ext.block_size,
  (λ k. IsFreeList-cong (x ∷ xs) ext.block_size ext.num_blocks (ext.chunks i k) f),
  IsFreeList-cong xs ext.block_size ext.num_blocks refl g,
  f.distinct.0,
  omega (arith, f.in_range.0, ext.num_blocks),
)

allocate-picked :
    (new : New) (s : Fixed)
    → IsPool s
    → Picks new s
    → (Settles new s → IsPool (allocate new s).1)
      × (Exhausted new s (allocate new s) ⊎ Grants s (allocate new s))
allocate-picked new s v (inl (t, e, f, full)) =
    subst (λ (r : ℕ × Fixed). (Settles new s → IsPool r.1) × (Exhausted new s r ⊎ Grants s r))
      (sym (allocate-none new s t e)) ((λ h. Refused-IsPool new s t v h f), inl (refl, f, full))
allocate-picked new s v (inr (t, i, e, ready, ext)) =
    subst (λ (r : ℕ × Fixed). (Settles new s → IsPool r.1) × (Exhausted new s r ⊎ Grants s r))
      (sym (allocate-some new s t i e ready.picked))
      (let (p, h) = allocate_in-lem t i ready (ready.healthy i ready.inside) in
        ((λ _. p), inr (Hands-Grants new s t i (allocate_in t (some i)) ext h)))

-- `Allocate` keeps a well-formed allocator well formed, where a new chunk would have an address
-- above 0 or there is no memory for it, and where no allocation fails after the vector of an
-- allocator with chunks has moved.
pub allocate-IsPool :
    (new : New) (s : Fixed)
    → IsPool s
    → Placed new.block
    → Settles new s
    → IsPool (allocate new s).1
allocate-IsPool new s v h k = (allocate-picked new s v (pick_chunk-Picks new s v h)).0 k

-- In a well-formed allocator, where a new chunk would have an address above 0 or there is no memory
-- for it, `Allocate` either answers NULL or hands out a block. It answers NULL only if no chunk has
-- a free block and an allocation of `MakeNewChunk` fails, and the allocator is then as it was,
-- unless the vector had no room for a chunk, `reserve` has moved it and then the block's allocation
-- has failed: then the capacity is the new one and, if there are chunks, the chunk pointers dangle.
-- Otherwise the block is at the head of the free list of one chunk, old or new, which is then off
-- that list.
pub allocate-Grants :
    (new : New) (s : Fixed)
    → IsPool s
    → Placed new.block
    → Exhausted new s (allocate new s) ⊎ Grants s (allocate new s)
allocate-Grants new s v h = (allocate-picked new s v (pick_chunk-Picks new s v h)).1

allocate_in-block_size : (t : Fixed) (o : Option ℕ) → (allocate_in t o).1.block_size ≡ t.block_size
unfolding allocate_in
allocate_in-block_size t none = refl
allocate_in-block_size t (some i) = refl

Refused-block_size : (new : New) (s t : Fixed) → Refused new s t → t.block_size ≡ s.block_size
Refused-block_size new s t (inl (p, q, e)) = ap (λ (u : Fixed). u.block_size) e
Refused-block_size new s t (inr (inl (p, q, e))) = ap (λ (u : Fixed). u.block_size) e
Refused-block_size new s t (inr (inr (c, p, q, r, e))) = ap (λ (u : Fixed). u.block_size) e

pub allocate-block_size :
    (new : New) (s : Fixed)
    → IsPool s
    → Placed new.block
    → (allocate new s).1.block_size ≡ s.block_size
allocate-block_size new s v h = go (pick_chunk-Picks new s v h)
  where
    go : Picks new s → (allocate new s).1.block_size ≡ s.block_size
    go (inl (t, e, f, full)) =
        ap (λ (r : ℕ × Fixed). r.1.block_size) (allocate-none new s t e)
        ∙ Refused-block_size new s t f
    go (inr (t, i, e, ready, ext)) =
        ap (λ (r : ℕ × Fixed). r.1.block_size) (allocate-some new s t i e ready.picked)
        ∙ allocate_in-block_size t (some i)
        ∙ ext.block_size
