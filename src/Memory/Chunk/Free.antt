-- ===== src/Memory/Chunk/Free.antt =====
-- The list of free blocks in a chunk, through the first bytes of the blocks: `Chunk::Allocate` and
-- `Chunk::Deallocate` of src/SmallObj.cpp.
use qth_frame.Base.{
  ℕ, ◌+◌, ◌-◌, ◌*◌, ◌/◌, ◌%◌, ◌≤◌, ◌<◌, ◌≡◌, refl, ap, ◌≢◌, true, List, [], ◌∷◌, arith, length,
  Lacks, Distinct, All, dec_lt,
}
use qth_frame.Base.Pigeonhole.{pigeonhole}
use native.Mathlib.Nat.{mul-div_left}
use qth_frame.Memory.Chunk.{Chunk, store, allocate, deallocate, write, has_block}

-- From index `i` the link bytes lead through `xs`.
abbrev pub Linked : ℕ → (ℕ → ℕ) → ℕ → List ℕ → Type 0
Linked bs mem i [] = Unit
Linked bs mem i (x ∷ xs) = (i ≡ x) × Linked bs mem (mem (x * bs)) xs

-- `xs` are the free blocks of `c`, next one first, in a chunk of `n` blocks of `bs` bytes.
pub record IsFreeList (bs n : ℕ) (xs : List ℕ) (c : Chunk) : Type 0 where
  pub placed : 0 < c.addr
  pub sized : 0 < bs
  pub small : n ≤ 255
  pub counted : c.blocks_available ≡ length xs
  pub linked : Linked bs c.mem c.first_available xs
  pub in_range : All (λ x. x < n) xs
  pub distinct : Distinct xs

pub block-le : (bs x y : ℕ) → x < y → x * bs + bs ≤ y * bs
block-le bs x y h = grind arith

offset-ne : (bs x y o : ℕ) → y * bs ≤ o → o < y * bs + bs → x ≢ y → o ≢ x * bs
offset-ne bs x y o h k ne e = elim (dec_lt x y) [
  | yes p ↦ omega (arith, block-le bs x y p)
  | no p ↦ omega (arith, block-le bs y x (omega arith))
]

-- A byte of block `y` is the first byte of no block but `y`.
offsets-ne :
    (bs y o : ℕ) (xs : List ℕ)
    → y * bs ≤ o
    → o < y * bs + bs
    → Lacks y xs
    → All (λ x. o ≢ x * bs) xs
offsets-ne bs y o [] h k a = tt
offsets-ne bs y o (x ∷ xs) h k a = (offset-ne bs x y o h k a.0, offsets-ne bs y o xs h k a.1)

store-ne : (mem : ℕ → ℕ) (o v q : ℕ) → o ≢ q → store mem o v q ≡ mem q
store-ne mem o v q h = ground arith

store_self : (mem : ℕ → ℕ) (o v : ℕ) → store mem o v o ≡ v
store_self mem o v = ground arith

Linked-store :
    (bs o v i : ℕ) (mem : ℕ → ℕ) (xs : List ℕ)
    → All (λ x. o ≢ x * bs) xs
    → Linked bs mem i xs
    → Linked bs (store mem o v) i xs
Linked-store bs o v i mem [] a l = tt
Linked-store bs o v i mem (x ∷ xs) a l =
    (l.0, rw (store-ne mem o v (x * bs) a.0) (Linked-store bs o v (mem (x * bs)) mem xs a.1 l.1))

-- A write by the owner of block `y`, which is not free, leaves the free list alone.
pub write-IsFreeList :
    (bs n : ℕ) (xs : List ℕ) (c : Chunk) (y o v : ℕ)
    → IsFreeList bs n xs c
    → Lacks y xs
    → y * bs ≤ o
    → o < y * bs + bs
    → IsFreeList bs n xs (write o v c)
unfolding write
write-IsFreeList bs n xs c y o v f l h k = record {
  placed = f.placed;
  sized = f.sized;
  small = f.small;
  counted = f.counted;
  linked = Linked-store bs o v c.first_available c.mem xs (offsets-ne bs y o xs h k l) f.linked;
  in_range = f.in_range;
  distinct = f.distinct;
}

next_chunk : ℕ → Chunk → Chunk
next_chunk bs c = record c {
  first_available = c.mem (c.first_available * bs);
  blocks_available = (c.blocks_available + 255) % 256;
}

allocate-some :
    (bs : ℕ) (c : Chunk)
    → 0 < c.blocks_available
    → 0 < c.addr
    → allocate bs c ≡ (c.addr + c.first_available * bs, next_chunk bs c)
unfolding allocate next_chunk
allocate-some bs c h k = ground arith

-- The call hands out the block at the head of the free list, and the rest stays free.
pub allocate-cons :
    (bs n x : ℕ) (xs : List ℕ) (c : Chunk)
    → IsFreeList bs n (x ∷ xs) c
    → ((allocate bs c).0 ≡ c.addr + x * bs)
      × ((allocate bs c).1.addr ≡ c.addr)
      × IsFreeList bs n xs (allocate bs c).1
unfolding next_chunk
allocate-cons bs n x xs c f = rw (allocate-some bs c (omega arith) f.placed) (
  ap (λ t. c.addr + t * bs) f.linked.0,
  refl,
  record {
    placed = f.placed;
    sized = f.sized;
    small = f.small;
    counted = omega (arith, pigeonhole n (x ∷ xs) f.in_range f.distinct);
    linked = rw (f.linked.0) (f.linked.1);
    in_range = f.in_range.1;
    distinct = f.distinct.1;
  },
)

-- With no free block the call answers NULL and changes nothing.
pub allocate-nil : (bs n : ℕ) (c : Chunk) → IsFreeList bs n [] c → allocate bs c ≡ (0, c)
unfolding allocate
allocate-nil bs n c f = ground arith

index-block : (a bs x n : ℕ) → 0 < bs → x < n → n ≤ 255 → (a + x * bs - a) / bs % 256 ≡ x
index-block a bs x n h k l =
    let e : a + x * bs - a ≡ x * bs = omega arith in rw (e, mul-div_left x h) (omega arith)

put_back : ℕ → ℕ → Chunk → Chunk
put_back bs x c = record c {
  first_available = x;
  blocks_available = (c.blocks_available + 1) % 256;
  mem = store c.mem (x * bs) c.first_available;
}

deallocate-block :
    (bs n x : ℕ) (c : Chunk)
    → 0 < bs
    → x < n
    → n ≤ 255
    → deallocate bs (c.addr + x * bs) c ≡ put_back bs x c
unfolding deallocate put_back
deallocate-block bs n x c h k l =
    let e : c.addr + x * bs - c.addr ≡ x * bs = omega arith in
    ground (arith, e, index-block c.addr bs x n h k l)

-- A block that comes back goes to the head of the free list.
pub deallocate-cons :
    (bs n x : ℕ) (xs : List ℕ) (c : Chunk)
    → IsFreeList bs n xs c
    → x < n
    → Lacks x xs
    → IsFreeList bs n (x ∷ xs) (deallocate bs (c.addr + x * bs) c)
unfolding put_back
deallocate-cons bs n x xs c f h l = rw (deallocate-block bs n x c f.sized h f.small) (record {
  placed = f.placed;
  sized = f.sized;
  small = f.small;
  counted = omega (arith, pigeonhole n (x ∷ xs) (h, f.in_range) (l, f.distinct));
  linked = (refl, rw (store_self c.mem (x * bs) c.first_available) rest);
  in_range = (h, f.in_range);
  distinct = (l, f.distinct);
})
  where
    rest : Linked bs (store c.mem (x * bs) c.first_available) c.first_available xs
    rest =
        Linked-store bs (x * bs) c.first_available c.first_available c.mem xs
          (offsets-ne bs x (x * bs) xs (omega arith) (omega (arith, f.sized)) l) f.linked

-- A block of a chunk lies in the range that `HasBlock` tests.
pub has_block-own :
    (bs n x : ℕ) (c : Chunk) → 0 < bs → x < n → has_block (c.addr + x * bs) (n * bs) c ≡ true
unfolding has_block
has_block-own bs n x c h k = ground (arith, block-le bs x n k)

-- What `HasBlock` has tested.
pub has_block-range :
    (p n : ℕ) (c : Chunk) → has_block p n c ≡ true → (c.addr ≤ p) × (p < c.addr + n)
unfolding has_block
has_block-range p n c h = (ground arith, ground arith)

pub deallocate-addr : (bs p : ℕ) (c : Chunk) → (deallocate bs p c).addr ≡ c.addr
unfolding deallocate
deallocate-addr bs p c = refl

pub write-addr : (o v : ℕ) (c : Chunk) → (write o v c).addr ≡ c.addr
unfolding write
write-addr o v c = refl

pub write-blocks_available :
    (o v : ℕ) (c : Chunk) → (write o v c).blocks_available ≡ c.blocks_available
unfolding write
write-blocks_available o v c = refl
