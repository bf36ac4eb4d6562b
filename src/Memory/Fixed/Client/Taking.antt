-- ===== src/Memory/Fixed/Client/Taking.antt =====
-- `FixedAllocator::Allocate` (src/SmallObj.cpp) among the blocks in use.
use mathlib.Core.Path.{ap₂}
use qth_frame.Base.{
  ℕ, ◌+◌, ◌*◌, ◌≤◌, ◌<◌, ◌≡◌, ◌≢◌, sym, ap, ◌∙◌, subst, ◌⊎◌, inl, inr, Option, none, some, List, [],
  ◌∷◌, ◌++◌, arith, length, length-set, length-append, set, get_or-append_lt, get_or-append_last,
  ℕ_discrete, dec_lt,
}
use qth_frame.Memory.Chunk.{Chunk, empty_chunk}
use qth_frame.Memory.Chunk
use qth_frame.Memory.Chunk.Free.{IsFreeList, allocate-cons}
use qth_frame.Memory.Fixed.{New, Fixed, chunk_at, allocate_in, allocate}
use qth_frame.Memory.Fixed.Pool.{Healthy, IsPool, IsReady, chunk_at-set_self, chunk_at-set_ne}
use qth_frame.Memory.Fixed.Pick.{Refused, Grows, Extends, pick_chunk-Picks}
use qth_frame.Memory.Fixed.Ready.{Placed}
use qth_frame.Memory.Fixed.Take.{allocate-none, allocate-some, IsFreeList-cong}
use qth_frame.Memory.Fixed.Return.{InUse, block_addr}
use qth_frame.Memory.Fixed.Client.{addr_at, IsFresh, Apart}
use qth_frame.Memory.Fixed.Client.Live.{Apart-same}

pub IsFresh-Placed : (place : Option ℕ) (s : Fixed) → IsFresh place s → Placed place
IsFresh-Placed none s h = tt
IsFresh-Placed (some p) s h = h.0

-- The chunks are apart when a new one has come, in memory that no chunk had.
module _ (p : ℕ) (s : Fixed) (c : Chunk) (h : IsFresh (some p) s) (a : Apart s)
    (r : c.addr ≡ p) where
  old_addr : (i : ℕ) → i < length s.chunks → addr_at (s.chunks ++ c ∷ []) i ≡ addr_at s.chunks i
  old_addr i k = ap (λ (d : Chunk). d.addr) (get_or-append_lt s.chunks (c ∷ []) i empty_chunk k)

  new_addr : (i : ℕ) → i ≡ length s.chunks → addr_at (s.chunks ++ c ∷ []) i ≡ p
  new_addr i k = ap (λ (d : Chunk). d.addr) (get_or-append_last s.chunks c empty_chunk i k) ∙ r

  grown-Apart : Apart (record s { chunks = s.chunks ++ c ∷ [] })
  grown-Apart i j k l ne =
      let n = length-append s.chunks (c ∷ []) in
      elim (dec_lt i (length s.chunks)) [
        | yes x ↦ elim (dec_lt j (length s.chunks)) [
          | yes y ↦ elim (a i j x y ne) [
            | inl b ↦ inl (omega (arith, b, old_addr i x, old_addr j y))
            | inr b ↦ inr (omega (arith, b, old_addr i x, old_addr j y))
          ]
          | no y ↦ elim (h.1 i x) [
            | inl b ↦ inr (omega (arith, b, old_addr i x, new_addr j (omega arith)))
            | inr b ↦ inl (omega (arith, b, old_addr i x, new_addr j (omega arith)))
          ]
        ]
        | no x ↦
            let y : j < length s.chunks = omega arith in
            elim (h.1 j y) [
              | inl b ↦ inl (omega (arith, b, old_addr j y, new_addr i (omega arith)))
              | inr b ↦ inr (omega (arith, b, old_addr j y, new_addr i (omega arith)))
            ]
      ]

Grows-Apart :
    (place : Option ℕ) (s : Fixed) (ds : List Chunk)
    → IsFresh place s
    → Apart s
    → Grows place s.chunks ds
    → Apart (record s { chunks = ds })
Grows-Apart place s ds h a (inl e) = subst (λ cs. Apart (record s { chunks = cs })) (sym e) a
Grows-Apart place s ds h a (inr (p, c, q, r, e)) =
    subst (λ cs. Apart (record s { chunks = cs })) (sym e)
      (grown-Apart p s c (subst (λ o. IsFresh o s) q h) a r)

Grows-length : (place : Option ℕ) (cs ds : List Chunk) → Grows place cs ds → length cs ≤ length ds
Grows-length place cs ds (inl e) = omega (arith, ap length e)
Grows-length place cs ds (inr (p, c, q, r, e)) =
    omega (arith, ap length e, length-append cs (c ∷ []))

-- What `Allocate` does when it hands out a block.
pub record IsTaken (s : Fixed) (r : ℕ × Fixed) : Type 0 where
  pub chunk : ℕ
  pub block : ℕ
  pub block_size : r.1.block_size ≡ s.block_size
  pub num_blocks : r.1.num_blocks ≡ s.num_blocks
  pub at : r.0 ≡ block_addr r.1 chunk block
  pub in_use : InUse r.1 chunk block
  pub was_free :
      chunk < length s.chunks
      → IsFreeList s.block_size s.num_blocks (block ∷ in_use.free) (chunk_at s.chunks chunk)
  pub others :
      (j : ℕ) → j < length s.chunks → chunk ≢ j → chunk_at r.1.chunks j ≡ chunk_at s.chunks j
  pub longer : length s.chunks ≤ length r.1.chunks
  pub addrs : (j : ℕ) → j < length s.chunks → addr_at r.1.chunks j ≡ addr_at s.chunks j
  pub apart : Apart r.1

module _ (place : Option ℕ) (s t : Fixed) (i x : ℕ) (xs : List ℕ) (h : IsFresh place s)
    (a : Apart s) (v : IsReady t i) (ext : Extends place s t)
    (f : IsFreeList t.block_size t.num_blocks (x ∷ xs) (chunk_at t.chunks i)) where
  abbrev taken : Chunk
  taken = (Chunk.allocate t.block_size (chunk_at t.chunks i)).1

  taken_addr : (j : ℕ) → addr_at (set t.chunks i taken) j ≡ addr_at t.chunks j
  taken_addr j = elim (ℕ_discrete i j) [
    | yes e ↦
        subst (λ k. addr_at (set t.chunks i taken) k ≡ addr_at t.chunks k) e
          (ap (λ (c : Chunk). c.addr) (chunk_at-set_self t.chunks i taken v.inside)
            ∙ (allocate-cons t.block_size t.num_blocks x xs (chunk_at t.chunks i) f).1)
    | no e ↦ ap (λ (c : Chunk). c.addr) (chunk_at-set_ne t.chunks i j taken e)
  ]

  allocate_in-IsTaken : IsTaken s (allocate_in t (some i))
  unfolding allocate_in
  allocate_in-IsTaken =
      let after = allocate-cons t.block_size t.num_blocks x xs (chunk_at t.chunks i) f in
      let kept = length-set t.chunks i taken in
      record {
        chunk = i;
        block = x;
        block_size = ext.block_size;
        num_blocks = ext.num_blocks;
        at = after.0 ∙ ap (λ b. b + x * t.block_size) (sym (taken_addr i));
        in_use = record {
          inside = omega (arith, v.inside);
          index = f.in_range.0;
          free = xs;
          listed =
              subst (IsFreeList t.block_size t.num_blocks xs)
                (sym (chunk_at-set_self t.chunks i taken v.inside)) after.2;
          absent = f.distinct.0;
        };
        was_free = λ k. IsFreeList-cong (x ∷ xs) ext.block_size ext.num_blocks (ext.chunks i k) f;
        others = λ j k ne. chunk_at-set_ne t.chunks i j taken ne ∙ ext.chunks j k;
        longer = omega (arith, Grows-length place s.chunks t.chunks ext.grows);
        addrs = λ j k. taken_addr j ∙ ap (λ (c : Chunk). c.addr) (ext.chunks j k);
        apart =
            Apart-same (record s { chunks = t.chunks }) (record t { chunks = set t.chunks i taken })
              (ap₂ ◌*◌ ext.num_blocks ext.block_size) kept (λ j k. taken_addr j)
              (Grows-Apart place s t.chunks h a ext.grows);
      }

-- Either a refusal has left the chunks as they were, or a block is taken.
pub allocate-IsTaken :
    (new : New) (s : Fixed)
    → IsPool s
    → Apart s
    → IsFresh new.block s
    → ((t : Fixed) × (allocate new s ≡ (0, t)) × Refused new s t) ⊎ IsTaken s (allocate new s)
allocate-IsTaken new s v a h = elim (pick_chunk-Picks new s v (IsFresh-Placed new.block s h)) [
  | inl (t, e, f, full) ↦ inl (t, allocate-none new s t e, f)
  | inr (t, i, e, ready, ext) ↦ inr (
      subst (IsTaken s) (sym (allocate-some new s t i e ready.picked))
        (ready_taken t i ready ext (ready.healthy i ready.inside)))
]
  where
    ready_taken :
        (t : Fixed) (i : ℕ)
        → IsReady t i
        → Extends new.block s t
        → Healthy t.block_size t.num_blocks (chunk_at t.chunks i)
        → IsTaken s (allocate_in t (some i))
    ready_taken t i v ext ([], f) = absurd (omega (arith, v.room, f.counted))
    ready_taken t i v ext (x ∷ xs, f) = allocate_in-IsTaken new.block s t i x xs h a v ext f
