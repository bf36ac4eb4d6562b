-- ===== src/Memory/Fixed/Return.antt =====
-- `FixedAllocator::Deallocate` of src/SmallObj.cpp: the allocator after it.
use qth_frame.Base.{
  ℕ, ◌+◌, ◌*◌, ◌<◌, ◌≡◌, refl, subst, sym, ap, ◌∙◌, ◌≢◌, ◌⊎◌, inl, inr, Bool, true, Option, none,
  some, List, ◌∷◌, Lacks, arith, length, length-set, set, ℕ_discrete, ==_iff, Option-cases,
}
use qth_frame.Base.Pigeonhole.{pigeonhole}
use qth_frame.Memory.Chunk
use qth_frame.Memory.Chunk.{Chunk}
use qth_frame.Memory.Chunk.Free.{IsFreeList, deallocate-cons, has_block-own}
use qth_frame.Memory.Fixed.{
  Fixed, chunk_at, retire_chunk, do_deallocate, holds_block, searched, vicinity_find, answer,
  deallocate,
}
use qth_frame.Memory.Fixed.Pool.{
  Healthy, PointsIn, available_at, IsPool, available-set_self, available-set_ne, healthy-set,
  PointsIn-length,
}
use qth_frame.Memory.Fixed.Vicinity.{Answers, vicinity_find-Answers}
use qth_frame.Memory.Fixed.Retire.{IsBack, retire_chunk-IsPool}

-- Block `x` of chunk `d` is in use: the chunk has a free list without it.
pub record InUse (s : Fixed) (d x : ℕ) : Type 0 where
  pub inside : d < length s.chunks
  pub index : x < s.num_blocks
  pub free : List ℕ
  pub listed : IsFreeList s.block_size s.num_blocks free (chunk_at s.chunks d)
  pub absent : Lacks x free

-- The address of block `x` of chunk `d`.
abbrev pub block_addr : Fixed → ℕ → ℕ → ℕ
block_addr s d x = (chunk_at s.chunks d).addr + x * s.block_size

unfoldable pub put_back : ℕ → ℕ → Fixed → Fixed
put_back p d s = record s {
  chunks = set s.chunks d (Chunk.deallocate s.block_size p (chunk_at s.chunks d));
  dealloc_chunk = some d;
}

pub put_back-IsBack :
    (d x : ℕ) (s : Fixed) → IsPool s → InUse s d x → IsBack (put_back (block_addr s d x) d s) d
unfolding put_back
put_back-IsBack d x s v u = record {
  settled = v.settled;
  sized = v.sized;
  enough = v.enough;
  small = v.small;
  healthy = λ j k.
      healthy-set (Healthy s.block_size s.num_blocks) s.chunks d c u.inside v.healthy
        (x ∷ u.free, after) j (omega (arith, kept));
  alloc_in = PointsIn-length s.alloc_chunk s.chunks (set s.chunks d c) kept v.alloc_in;
  inside = omega (arith, kept, u.inside);
  picked = refl;
  empty_in = λ e q.
      let ne : d ≢ e = (λ p. not_empty (q ∙ ap some (sym p))) in
      (
        omega (arith, kept, (v.empty_in e q).0),
        available-set_ne s.chunks d e c ne ∙ (v.empty_in e q).1,
      );
  apart = not_empty;
  only = λ j k q. elim (ℕ_discrete d j) [
    | yes e ↦ inr (sym e)
    | no e ↦ inl (v.only j (omega (arith, kept)) (sym (available-set_ne s.chunks d j c e) ∙ q))
  ];
}
  where
    c : Chunk
    c = Chunk.deallocate s.block_size (block_addr s d x) (chunk_at s.chunks d)

    kept : length (set s.chunks d c) ≡ length s.chunks
    kept = length-set s.chunks d c

    after : IsFreeList s.block_size s.num_blocks (x ∷ u.free) c
    after =
        deallocate-cons s.block_size s.num_blocks x u.free (chunk_at s.chunks d) u.listed u.index
          u.absent

    not_empty : s.empty ≢ some d
    not_empty q = omega (
      arith,
      (v.empty_in d q).1,
      u.listed.counted,
      pigeonhole s.num_blocks (x ∷ u.free) (u.index, u.listed.in_range)
          (u.absent, u.listed.distinct),
    )

pub do_deallocate-last :
    (p d : ℕ) (s : Fixed)
    → available_at (put_back p d s).chunks d ≡ s.num_blocks
    → (e : ℕ) → s.empty ≡ some e
    → d < length s.chunks
    → do_deallocate p d s ≡ retire_chunk e d (put_back p d s)
unfolding do_deallocate put_back
do_deallocate-last p d s full e q h =
    let f = sym (available-set_self s.chunks d _ h) ∙ full in simp ((==_iff _ s.num_blocks).1 f, q)

pub do_deallocate-first :
    (p d : ℕ) (s : Fixed)
    → available_at (put_back p d s).chunks d ≡ s.num_blocks
    → s.empty ≡ none
    → d < length s.chunks
    → do_deallocate p d s ≡ record (put_back p d s) { empty = some d }
unfolding do_deallocate put_back
do_deallocate-first p d s full q h =
    let f = sym (available-set_self s.chunks d _ h) ∙ full in simp ((==_iff _ s.num_blocks).1 f, q)

pub do_deallocate-partly :
    (p d : ℕ) (s : Fixed)
    → available_at (put_back p d s).chunks d ≢ s.num_blocks
    → d < length s.chunks
    → do_deallocate p d s ≡ put_back p d s
unfolding do_deallocate put_back
do_deallocate-partly p d s part h =
    ground (
      arith,
      available-set_self s.chunks d (Chunk.deallocate s.block_size p (chunk_at s.chunks d)) h,
    )

back-IsPool : (s : Fixed) (d : ℕ) → IsBack s d → available_at s.chunks d ≢ s.num_blocks → IsPool s
back-IsPool s d v part = record {
  settled = v.settled;
  sized = v.sized;
  enough = v.enough;
  small = v.small;
  healthy = v.healthy;
  alloc_in = v.alloc_in;
  dealloc_in = subst (λ o. PointsIn o s.chunks) (sym v.picked) v.inside;
  empty_in = v.empty_in;
  only = λ j k q. still j q (v.only j k q);
}
  where
    still :
        (j : ℕ)
        → available_at s.chunks j ≡ s.num_blocks
        → (s.empty ≡ some j) ⊎ (j ≡ d)
        → s.empty ≡ some j
    still j q (inl e) = e
    still j q (inr e) = absurd (part (subst (λ b. available_at s.chunks b ≡ s.num_blocks) e q))

first-IsPool :
    (s : Fixed) (d : ℕ)
    → IsBack s d
    → available_at s.chunks d ≡ s.num_blocks
    → s.empty ≡ none
    → IsPool (record s { empty = some d })
first-IsPool s d v full q = record {
  settled = v.settled;
  sized = v.sized;
  enough = v.enough;
  small = v.small;
  healthy = v.healthy;
  alloc_in = v.alloc_in;
  dealloc_in = subst (λ o. PointsIn o s.chunks) (sym v.picked) v.inside;
  empty_in = λ e p.
      let p' : d ≡ e = cc in
      subst (λ b. (b < length s.chunks) × (available_at s.chunks b ≡ s.num_blocks)) p'
        (v.inside, full);
  only = λ j k p. ap some (sym (of_only j (v.only j k p)));
}
  where
    of_only : (j : ℕ) → (s.empty ≡ some j) ⊎ (j ≡ d) → j ≡ d
    of_only j (inl e) = cc
    of_only j (inr e) = e

do_deallocate-IsPool :
    (d x : ℕ) (s : Fixed) → IsPool s → InUse s d x → IsPool (do_deallocate (block_addr s d x) d s)
unfolding put_back
do_deallocate-IsPool d x s v u =
    elim (ℕ_discrete (available_at (put_back p d s).chunks d) s.num_blocks) [
      | yes full ↦ elim (Option-cases s.empty) [
        | inl q ↦
            subst IsPool (sym (do_deallocate-first p d s full q u.inside))
              (first-IsPool (put_back p d s) d back full q)
        | inr (e, q) ↦
            subst IsPool (sym (do_deallocate-last p d s full e q u.inside))
              (retire_chunk-IsPool e d (put_back p d s) back q full)
      ]
      | no part ↦
          subst IsPool (sym (do_deallocate-partly p d s part u.inside))
            (back-IsPool (put_back p d s) d back part)
    ]
  where
    p : ℕ
    p = block_addr s d x

    back : IsBack (put_back p d s) d
    back = put_back-IsBack d x s v u

-- No address lies in two chunks.
abbrev pub Disjoint : Fixed → Type 0
Disjoint s =
    (i j a : ℕ)
    → i < length s.chunks
    → j < length s.chunks
    → holds_block a s i ≡ true
    → holds_block a s j ≡ true
    → i ≡ j

found_by_search :
    (d a : ℕ) (s : Fixed) (r : Option (Option ℕ))
    → Disjoint s
    → d < length s.chunks
    → holds_block a s d ≡ true
    → vicinity_find a s ≡ r
    → Answers (holds_block a s) (length s.chunks) r
    → vicinity_find a s ≡ some (some d)
found_by_search d a s none apart h k e ans = absurd ans
found_by_search d a s (some none) apart h k e ans = cc (ans d h)
found_by_search d a s (some (some i)) apart h k e ans =
    e ∙ ap (λ t. some (some t)) (apart i d a ans.0 h ans.1 k)

-- The search finds the chunk that a block in use belongs to.
pub vicinity_find-InUse :
    (d x : ℕ) (s : Fixed)
    → IsPool s
    → Disjoint s
    → InUse s d x
    → vicinity_find (block_addr s d x) s ≡ some (some d)
vicinity_find-InUse d x s v apart u = elim (Option-cases s.dealloc_chunk) [
  | inl q ↦ absurd (omega (arith, subst (λ o. PointsIn o s.chunks) q v.dealloc_in, u.inside))
  | inr (e, q) ↦
      found_by_search d (block_addr s d x) s _ apart u.inside
        (has_block-own s.block_size s.num_blocks x (chunk_at s.chunks d) v.sized u.index) refl
        (vicinity_find-Answers (block_addr s d x) e s q
          (subst (λ o. PointsIn o s.chunks) q v.dealloc_in))
]

deallocate-found :
    (p d : ℕ) (s : Fixed)
    → vicinity_find p s ≡ some (some d)
    → deallocate p none s ≡ (true, do_deallocate p d s)
unfolding deallocate
deallocate-found p d s e = ap (λ r. answer p s (searched r)) e

-- In a well-formed allocator whose chunks do not overlap, `Deallocate` with no hint of a block in
-- use answers true, gives the block back to the chunk that it is a block of, and leaves the
-- allocator well formed.
pub deallocate-IsPool :
    (d x : ℕ) (s : Fixed)
    → IsPool s
    → Disjoint s
    → InUse s d x
    → (deallocate (block_addr s d x) none s ≡ (true, do_deallocate (block_addr s d x) d s))
      × IsPool (deallocate (block_addr s d x) none s).1
deallocate-IsPool d x s v apart u =
    let e = deallocate-found (block_addr s d x) d s (vicinity_find-InUse d x s v apart u) in
    (e, subst (λ (r : Bool × Fixed). IsPool r.1) (sym e) (do_deallocate-IsPool d x s v u))
