-- ===== src/Memory/Small/Sizes.antt =====
-- `SmallObjAllocator` of src/SmallObj.cpp: the pool that serves each size.
use qth_frame.Base.{
  List, ◌∷◌, length, Lacks, true, ℕ, ◌+◌, ◌-◌, ◌*◌, ◌≤◌, ◌<◌, ◌≡◌, refl, subst, sym, ap, ◌∙◌,
  ==_iff, ◌⊎◌, inl, inr, Bool, false, none, arith, ◌==◌, ltb, Bool-cases, if◌then◌else◌,
}
use qth_frame.Memory.Fixed
use qth_frame.Memory.Chunk.Free.{IsFreeList}
use qth_frame.Memory.Fixed.Pick.{Refused}
use qth_frame.Memory.Fixed.{New, Fixed, chunk_at}
use qth_frame.Memory.Fixed.Pool.{IsPool, initialize-IsPool, initialize-block_size}
use qth_frame.Memory.Fixed.Ready.{Placed}
use qth_frame.Memory.Fixed.Take.{
  Exhausted, Settles, Grants, allocate-IsPool, allocate-Grants, allocate-block_size,
}
use qth_frame.Memory.Small.{
  Small, Place, block, bad_alloc, null, blank, create, at_least_one, pool_set, allocate,
}

-- Every pool up to the limit is well formed and has the block size of its place.
pub record IsSmall (s : Small) : Type 0 where
  pub pools : (i : ℕ) → i < s.max_size → IsPool (s.pool i)
  pub sizes : (i : ℕ) → i < s.max_size → (s.pool i).block_size ≡ i + 1

-- The constructor makes a well-formed pool for each size up to the limit, with the block size of
-- its place, whatever the page size.
pub create-IsSmall : (page limit : ℕ) → IsSmall (create page limit)
unfolding create
create-IsSmall page limit = record {
  pools = λ i h. initialize-IsPool (i + 1) page blank (omega arith) refl refl refl refl refl;
  sizes = λ i h. initialize-block_size (i + 1) page blank;
}

pool_set-IsSmall :
    (k : ℕ) (f : Fixed) (s : Small)
    → IsSmall s
    → IsPool f
    → f.block_size ≡ k + 1
    → IsSmall (pool_set k f s)
pool_set-IsSmall k f s v p e = record {
  pools = λ i h. elim (Bool-cases (k == i)) [ inl q ↦ rw q p | inr q ↦ rw q (v.pools i h) ];
  sizes = λ i h. elim (Bool-cases (k == i)) [
    | inl q ↦ rw q (e ∙ ap (λ (t : ℕ). t + 1) ((==_iff k i).0 q))
    | inr q ↦ rw q (v.sizes i h)
  ];
}

-- The request is served from the pool of index `size_index n`.
abbrev pub size_index : ℕ → ℕ
size_index n = at_least_one n - 1

size_index-lt : (n m : ℕ) → 0 < m → n ≤ m → size_index n < m
size_index-lt n m h k = ground arith

allocate-pool :
    (place : New) (n : ℕ) (do_throw : Bool) (s : Small)
    → n ≤ s.max_size
    → (allocate place n do_throw s).1
      ≡ pool_set (size_index n) (Fixed.allocate place (s.pool (size_index n))).1 s
unfolding allocate
allocate-pool place n do_throw s h =
    let e : ltb s.max_size n ≡ false = ground arith in
    elim (Bool-cases ((Fixed.allocate place (s.pool (size_index n))).0 == 0)) [
      | inl q ↦ rw (e, q)
      | inr q ↦ rw (e, q)
    ]

-- A request of at most the limit, which is above 0, leaves every pool of a well-formed allocator
-- for small objects well formed, also where the request fails, unless an allocation fails after the
-- vector of a pool with chunks has moved. A new chunk is taken to have an address above 0.
pub allocate-IsSmall :
    (place : New) (n : ℕ) (do_throw : Bool) (s : Small)
    → IsSmall s
    → Placed place.block
    → Settles place (s.pool (size_index n))
    → n ≤ s.max_size
    → 0 < s.max_size
    → IsSmall (allocate place n do_throw s).1
allocate-IsSmall place n do_throw s v h w k m =
    let i : ℕ = size_index n in
    let l : i < s.max_size = size_index-lt n s.max_size m k in
    subst IsSmall (sym (allocate-pool place n do_throw s k)) (
      pool_set-IsSmall i (Fixed.allocate place (s.pool i)).1 s v
        (allocate-IsPool place (s.pool i) (v.pools i l) h w)
        (allocate-block_size place (s.pool i) (v.pools i l) h ∙ v.sizes i l))

-- `p` is a block of the size asked for in a chunk of the pool `t`, which was the pool `f` before: the
-- block's number is one of the chunk's, it is not on the chunk's free list, and if the pool had the
-- chunk before, it was there.
abbrev pub IsServed : ℕ → ℕ → Fixed → Fixed → Type 0
IsServed n p f t =
    (i : ℕ) × (x : ℕ) × (xs : List ℕ) × (i < length t.chunks)
    × (x < f.num_blocks)
    × (p ≡ (chunk_at t.chunks i).addr + x * at_least_one n)
    × IsFreeList f.block_size f.num_blocks xs (chunk_at t.chunks i)
    × Lacks x xs
    × (i < length f.chunks → IsFreeList f.block_size f.num_blocks (x ∷ xs) (chunk_at f.chunks i))

-- What a request comes to: a block of the pool of its size, or a failure as the caller chose, where
-- an allocation has failed.
abbrev pub Serves : New → ℕ → Bool → Small → Place × Small → Type 0
Serves place n do_throw s r =
    ((p : ℕ) × (r.0 ≡ block p) × IsServed n p (s.pool (size_index n)) (r.1.pool (size_index n)))
    ⊎ (((place.vector ≡ none) ⊎ (place.block ≡ none))
        × (r.0 ≡ (if do_throw then bad_alloc else null)))

allocate-granted :
    (place : New) (n : ℕ) (do_throw : Bool) (s : Small)
    → n ≤ s.max_size
    → 0 < (Fixed.allocate place (s.pool (size_index n))).0
    → (allocate place n do_throw s).0 ≡ block (Fixed.allocate place (s.pool (size_index n))).0
unfolding allocate
allocate-granted place n do_throw s h k = ground arith

allocate-refused :
    (place : New) (n : ℕ) (do_throw : Bool) (s : Small)
    → n ≤ s.max_size
    → (Fixed.allocate place (s.pool (size_index n))).0 ≡ 0
    → (allocate place n do_throw s).0 ≡ (if do_throw then bad_alloc else null)
unfolding allocate
allocate-refused place n do_throw s h k = ground arith

pool_set_self : (i : ℕ) (f : Fixed) (s : Small) → (pool_set i f s).pool i ≡ f
pool_set_self i f s = let e : (i == i) ≡ true = (==_iff i i).1 refl in rw e refl

Refused-failed :
    (new : New) (f t : Fixed) → Refused new f t → (new.vector ≡ none) ⊎ (new.block ≡ none)
Refused-failed new f t (inl (p, q, e)) = inl q
Refused-failed new f t (inr (inl (p, q, e))) = inr q
Refused-failed new f t (inr (inr (c, p, q, r, e))) = inr r

-- In a well-formed allocator for small objects, a request of at most the limit, which is above 0,
-- gets a block of the size asked for (one byte for zero), which is one of the numbered blocks of a
-- chunk of the pool for that size, is no longer free, and was free before if the chunk is not new;
-- or, where an allocation has failed, it gets the failure that the caller chose. A new chunk is
-- taken to have an address above 0.
pub allocate-Serves :
    (place : New) (n : ℕ) (do_throw : Bool) (s : Small)
    → IsSmall s
    → Placed place.block
    → n ≤ s.max_size
    → 0 < s.max_size
    → Serves place n do_throw s (allocate place n do_throw s)
allocate-Serves place n do_throw s v h k m = go (allocate-Grants place (s.pool i) (v.pools i l) h)
  where
    i : ℕ
    i = size_index n

    l : i < s.max_size
    l = size_index-lt n s.max_size m k

    size : (s.pool i).block_size ≡ at_least_one n
    size = v.sizes i l ∙ ground arith

    after : (allocate place n do_throw s).1.pool i ≡ (Fixed.allocate place (s.pool i)).1
    after =
        ap (λ (t : Small). t.pool i) (allocate-pool place n do_throw s k)
        ∙ pool_set_self i (Fixed.allocate place (s.pool i)).1 s

    go :
        Exhausted place (s.pool i) (Fixed.allocate place (s.pool i))
          ⊎ Grants (s.pool i) (Fixed.allocate place (s.pool i))
        → Serves place n do_throw s (allocate place n do_throw s)
    go (inl (z, f, _)) =
        inr (Refused-failed place (s.pool i) _ f, allocate-refused place n do_throw s k z)
    go (inr (c, x, xs, b, e, old, f, lacks, small)) =
        let (p, t) = Fixed.allocate place (s.pool i) in
        inl (
          p,
          allocate-granted place n do_throw s k (omega (arith, f.placed, e)),
          subst (IsServed n p (s.pool i)) (sym after) (
            c,
            x,
            xs,
            b,
            small,
            e ∙ ap (λ (m : ℕ). (chunk_at t.chunks c).addr + x * m) size,
            f,
            lacks,
            old,
          ),
        )
