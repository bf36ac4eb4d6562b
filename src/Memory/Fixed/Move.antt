-- ===== src/Memory/Fixed/Move.antt =====
-- How `FixedAllocator::DoDeallocate` (src/SmallObj.cpp) moves the chunks when one goes.
use qth_frame.Base.{
  ℕ, ◌+◌, ◌-◌, ◌<◌, ◌≡◌, ◌≢◌, ap, ◌∙◌, inl, inr, List, arith, length, length-set, set,
  length-drop_last, get_or-drop_last, ◌==◌, Bool-cases, if◌then◌else◌,
}
use qth_frame.Memory.Chunk
use qth_frame.Memory.Chunk.{Chunk, empty_chunk}
use qth_frame.Memory.Fixed.{chunk_at, swap_chunks, move_to_end, pop_chunk}
use qth_frame.Memory.Fixed.Pool.{chunk_at-set_self, chunk_at-set_ne}

pop_chunk-at :
    (cs : List Chunk) (j : ℕ) → j + 1 < length cs → chunk_at (pop_chunk cs) j ≡ chunk_at cs j
unfolding pop_chunk
pop_chunk-at cs j h =
    get_or-drop_last (set cs (length cs - 1) (Chunk.release (chunk_at cs (length cs - 1)))) j
      empty_chunk (omega (arith, length-set cs (length cs - 1) _))
    ∙ chunk_at-set_ne cs (length cs - 1) j _ (omega arith)

pub length-pop_chunk : (cs : List Chunk) → length (pop_chunk cs) ≡ length cs - 1
unfolding pop_chunk
length-pop_chunk cs = length-drop_last _ ∙ ap (λ (n : ℕ). n - 1) (length-set cs (length cs - 1) _)

length-swap_chunks : (cs : List Chunk) (i j : ℕ) → length (swap_chunks cs i j) ≡ length cs
unfolding swap_chunks
length-swap_chunks cs i j = length-set _ j _ ∙ length-set cs i _

swap_chunks-at :
    (cs : List Chunk) (i j k : ℕ) → j ≢ k → i ≢ k → chunk_at (swap_chunks cs i j) k ≡ chunk_at cs k
unfolding swap_chunks
swap_chunks-at cs i j k h l = chunk_at-set_ne _ j k _ h ∙ chunk_at-set_ne cs i k _ l

swap_chunks-first :
    (cs : List Chunk) (i j : ℕ)
    → i < length cs
    → j ≢ i
    → chunk_at (swap_chunks cs i j) i ≡ chunk_at cs j
unfolding swap_chunks
swap_chunks-first cs i j h l = chunk_at-set_ne _ j i _ l ∙ chunk_at-set_self cs i _ h

-- Of the two wholly free chunks, `gone` is the one that goes and `kept` the other.
abbrev pub kept_chunk : ℕ → ℕ → List Chunk → ℕ
kept_chunk e d cs = if length cs - 1 == d then e else d

abbrev pub gone_chunk : ℕ → ℕ → List Chunk → ℕ
gone_chunk e d cs = if length cs - 1 == d then d else e

pub length-move_to_end : (e d : ℕ) (cs : List Chunk) → length (move_to_end e d cs) ≡ length cs
unfolding move_to_end
length-move_to_end e d cs = ground (arith, length-swap_chunks cs e (length cs - 1))

-- Where the chunk at index `j` of the shorter list stood, in a list of `n` chunks.
abbrev pub source : ℕ → ℕ → ℕ → ℕ → ℕ
source e d n j = if n - 1 == d then j else if n - 1 == e then j else if j == e then n - 1 else j

-- Where the chunk at index `i` goes, unless it is the one that is dropped.
abbrev pub target : ℕ → ℕ → ℕ → ℕ → ℕ
target e d n i = if n - 1 == d then i else if n - 1 == e then i else if i == n - 1 then e else i

pub moved-at :
    (e d j : ℕ) (cs : List Chunk)
    → e < length cs
    → e ≢ d
    → j + 1 < length cs
    → chunk_at (pop_chunk (move_to_end e d cs)) j ≡ chunk_at cs (source e d (length cs) j)
unfolding move_to_end
moved-at e d j cs he ne hj = elim (Bool-cases (length cs - 1 == d)) [
  | inl p ↦ rw p (pop_chunk-at cs j hj)
  | inr p ↦ elim (Bool-cases (length cs - 1 == e)) [
    | inl q ↦ rw (p, q) (pop_chunk-at cs j hj)
    | inr q ↦
        let shown =
          pop_chunk-at (swap_chunks cs e (length cs - 1)) j
            (omega (arith, length-swap_chunks cs e (length cs - 1))) in
        elim (Bool-cases (j == e)) [
          | inl r ↦
              let s : j ≡ e = ground arith in
              rw (p, q, r)
                (shown
                  ∙ ap (chunk_at (swap_chunks cs e (length cs - 1))) s
                  ∙ swap_chunks-first cs e (length cs - 1) he (ground arith))
          | inr r ↦
              rw (p, q, r)
                (shown ∙ swap_chunks-at cs e (length cs - 1) j (omega arith) (ground arith))
        ]
  ]
]

pub source_unique :
    (e d n j k : ℕ) → j + 1 < n → k + 1 < n → source e d n j ≡ source e d n k → j ≡ k
source_unique e d n j k p q h = ground arith

pub source-lt : (e d n j : ℕ) → j + 1 < n → source e d n j < n
source-lt e d n j p = ground arith

pub source-target :
    (e d i : ℕ) (cs : List Chunk)
    → e < length cs
    → d < length cs
    → e ≢ d
    → i < length cs
    → i ≢ gone_chunk e d cs
    → (target e d (length cs) i + 1 < length cs)
      × (source e d (length cs) (target e d (length cs) i) ≡ i)
source-target e d i cs he hd ne hi g = (ground arith, ground arith)
