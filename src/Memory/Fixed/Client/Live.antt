-- ===== src/Memory/Fixed/Client/Live.antt =====
-- The addresses of blocks in use of a `FixedAllocator` (src/SmallObj.cpp).
use mathlib.Core.Path.{ap₂}
use qth_frame.Base.{
  ℕ, ◌*◌, ◌<◌, ◌≡◌, ◌≢◌, refl, sym, ap, subst, ◌⊎◌, inl, inr, List, [], ◌∷◌, arith, length, dec_lt,
  ℕ_discrete,
}
use qth_frame.Memory.Chunk.{Chunk}
use qth_frame.Memory.Chunk.Free.{Linked, IsFreeList, block-le, has_block-range}
use qth_frame.Memory.Fixed.{Fixed, chunk_at, chunk_length}
use qth_frame.Memory.Fixed.Take.{IsFreeList-cong}
use qth_frame.Memory.Fixed.Return.{block_addr, Disjoint}
use qth_frame.Memory.Fixed.Client.{addr_at, Clear, Held, Apart}

Linked-unique :
    (bs i : ℕ) (mem : ℕ → ℕ) (xs ys : List ℕ)
    → length xs ≡ length ys
    → Linked bs mem i xs
    → Linked bs mem i ys
    → xs ≡ ys
Linked-unique bs i mem [] [] e f g = refl
Linked-unique bs i mem [] (y ∷ ys) e f g = absurd (omega arith)
Linked-unique bs i mem (x ∷ xs) [] e f g = absurd (omega arith)
Linked-unique bs i mem (x ∷ xs) (y ∷ ys) e f g =
    let s : x ≡ y = omega (arith, f.0, g.0) in
    ap₂ ◌∷◌ s (
      Linked-unique bs (mem (x * bs)) mem xs ys (omega arith) f.1
        (subst (λ z. Linked bs mem (mem (z * bs)) ys) (sym s) g.1))

-- A chunk has one free list.
pub IsFreeList-unique :
    (bs n : ℕ) (xs ys : List ℕ) (c : Chunk) → IsFreeList bs n xs c → IsFreeList bs n ys c → xs ≡ ys
IsFreeList-unique bs n xs ys c f g =
    Linked-unique bs c.first_available c.mem xs ys (omega (arith, f.counted, g.counted)) f.linked
      g.linked

pub Apart-Disjoint : (s : Fixed) → Apart s → Disjoint s
Apart-Disjoint s h i j a p q k l = elim (ℕ_discrete i j) [
  | yes e ↦ e
  | no e ↦
      let (b, c) = has_block-range a (chunk_length s) (chunk_at s.chunks i) k in
      let (d, f) = has_block-range a (chunk_length s) (chunk_at s.chunks j) l in
      elim (h i j p q e) [ inl t ↦ absurd (omega arith) | inr t ↦ absurd (omega arith) ]
]

module _ (s : Fixed) (h : Apart s) where
  -- Blocks of two chunks do not overlap.
  chunks-Clear :
      (d e x y : ℕ)
      → d < length s.chunks
      → e < length s.chunks
      → x < s.num_blocks
      → y < s.num_blocks
      → d ≢ e
      → Clear s.block_size (block_addr s d x) (block_addr s e y)
  chunks-Clear d e x y p q k l ne =
      let a = block-le s.block_size x s.num_blocks k in
      let b = block-le s.block_size y s.num_blocks l in
      elim (h d e p q ne) [ inl t ↦ inl (omega arith) | inr t ↦ inr (omega arith) ]

  -- Two blocks do not overlap, unless they are one block of one chunk.
  pub blocks-Clear :
      (d e x y : ℕ)
      → d < length s.chunks
      → e < length s.chunks
      → x < s.num_blocks
      → y < s.num_blocks
      → Clear s.block_size (block_addr s d x) (block_addr s e y) ⊎ ((d ≡ e) × (x ≡ y))
  blocks-Clear d e x y p q k l = elim (ℕ_discrete d e) [
    | no ne ↦ inl (chunks-Clear d e x y p q k l ne)
    | yes same ↦ elim (ℕ_discrete x y) [
      | yes r ↦ inr (same, r)
      | no ne ↦ inl (
          subst (λ i. Clear s.block_size (block_addr s d x) (block_addr s i y)) same
            (elim (dec_lt x y) [
              | yes lt ↦ inl (omega (arith, block-le s.block_size x y lt))
              | no ge ↦ inr (omega (arith, block-le s.block_size y x (omega arith)))
            ]))
    ]
  ]

  -- An address is that of one block.
  pub block_addr_unique :
      (d e x y : ℕ)
      → 0 < s.block_size
      → d < length s.chunks
      → e < length s.chunks
      → x < s.num_blocks
      → y < s.num_blocks
      → block_addr s d x ≡ block_addr s e y
      → (d ≡ e) × (x ≡ y)
  block_addr_unique d e x y z p q k l same = elim (blocks-Clear d e x y p q k l) [
    | inl (inl t) ↦ absurd (omega arith)
    | inl (inr t) ↦ absurd (omega arith)
    | inr t ↦ t
  ]

-- Chunks at the same addresses are as far apart.
pub Apart-same :
    (s t : Fixed)
    → chunk_length t ≡ chunk_length s
    → length t.chunks ≡ length s.chunks
    → ((i : ℕ) → i < length s.chunks → addr_at t.chunks i ≡ addr_at s.chunks i)
    → Apart s
    → Apart t
Apart-same s t n k e a i j p q ne = elim (a i j (omega arith) (omega arith) ne) [
  | inl h ↦ inl (omega (arith, h, e i (omega arith), e j (omega arith)))
  | inr h ↦ inr (omega (arith, h, e i (omega arith), e j (omega arith)))
]

-- A block stays in use where its chunk stays as it is, wherever that stands.
pub Held-moved :
    (s t : Fixed) (a j : ℕ) (h : Held s a)
    → t.block_size ≡ s.block_size
    → t.num_blocks ≡ s.num_blocks
    → j < length t.chunks
    → chunk_at t.chunks j ≡ chunk_at s.chunks h.chunk
    → Held t a
Held-moved s t a j h b n k e = record {
  chunk = j;
  block = h.block;
  at = omega (arith, h.at, ap (λ (c : Chunk). c.addr) e, ap (λ r. h.block * r) b);
  in_use = record {
    inside = k;
    index = omega (arith, h.in_use.index);
    free = h.in_use.free;
    listed = IsFreeList-cong h.in_use.free (sym b) (sym n) (sym e) h.in_use.listed;
    absent = h.in_use.absent;
  };
}
