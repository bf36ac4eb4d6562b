-- ===== src/Memory/Fixed/Retire.antt =====
-- `FixedAllocator::DoDeallocate` with two wholly free chunks: one goes, and one stays.
use qth_frame.Base.{
  false, ℕ, suc, ◌+◌, ◌-◌, ◌≤◌, ◌<◌, ◌≡◌, refl, subst, sym, ap, ◌∙◌, ◌≢◌, ◌⊎◌, inl, inr, ◌||◌,
  Option, none, some, List, arith, length, ◌==◌, Bool-cases, if◌then◌else◌,
}
use qth_frame.Memory.Chunk.{Chunk}
use qth_frame.Memory.Fixed.{
  Fixed, chunk_at, same, available_in, retire_chunk, move_to_end, pop_chunk,
}
use qth_frame.Memory.Fixed.Move.{
  kept_chunk, gone_chunk, source, moved-at, length-move_to_end, length-pop_chunk,
}
use qth_frame.Memory.Fixed.Pool.{Healthy, PointsIn, available_at, IsPool}

-- The allocator once the block is back in chunk `d`, before a second wholly free chunk goes.
pub record IsBack (s : Fixed) (d : ℕ) : Type 0 where
  pub settled : s.dangling ≡ false
  pub sized : 0 < s.block_size
  pub enough : 8 ≤ s.num_blocks
  pub small : s.num_blocks ≤ 255
  pub healthy :
      (j : ℕ) → j < length s.chunks → Healthy s.block_size s.num_blocks (chunk_at s.chunks j)
  pub alloc_in : PointsIn s.alloc_chunk s.chunks
  pub inside : d < length s.chunks
  pub picked : s.dealloc_chunk ≡ some d
  pub empty_in :
      (e : ℕ) → s.empty ≡ some e → (e < length s.chunks) × (available_at s.chunks e ≡ s.num_blocks)
  pub apart : s.empty ≢ some d
  pub only :
      (j : ℕ)
      → j < length s.chunks
      → available_at s.chunks j ≡ s.num_blocks
      → (s.empty ≡ some j) ⊎ (j ≡ d)

-- Where the chunk at index `j` of the shorter list stood before.
abbrev Came : ℕ → ℕ → List Chunk → ℕ → Type 0
Came e d cs j =
    (src : ℕ) × (chunk_at (pop_chunk (move_to_end e d cs)) j ≡ chunk_at cs src)
    × (src < length cs)
    × (src ≢ gone_chunk e d cs)
    × (src ≡ kept_chunk e d cs → j ≡ kept_chunk e d cs)
    × (j ≡ kept_chunk e d cs → src ≡ j)

Came-from :
    (e d j : ℕ) (cs : List Chunk)
    → e < length cs
    → d < length cs
    → e ≢ d
    → j + 1 < length cs
    → Came e d cs j
Came-from e d j cs he hd ne hj = (
  source e d (length cs) j,
  moved-at e d j cs he ne hj,
  ground arith,
  ground arith,
  ground arith,
  ground arith,
)

kept_chunk-lt :
    (e d : ℕ) (cs : List Chunk)
    → e < length cs
    → d < length cs
    → e ≢ d
    → kept_chunk e d cs < length cs - 1
kept_chunk-lt e d cs h k ne = ground arith

-- Of `e` and `d`, what does not go is kept.
other_kept :
    (e d i : ℕ) (cs : List Chunk)
    → (i ≡ e) ⊎ (i ≡ d)
    → i ≢ gone_chunk e d cs
    → i ≡ kept_chunk e d cs
other_kept e d i cs h g = ground arith

kept-or {κ} : (e d : ℕ) (cs : List Chunk) (P : ℕ → Type κ) → P e → P d → P (kept_chunk e d cs)
kept-or e d cs P h k = elim (Bool-cases (length cs - 1 == d)) [ inl p ↦ rw p h | inr p ↦ rw p k ]

retired_alloc :
    (o : Option ℕ) (cs rest : List Chunk) (last kept : ℕ)
    → length rest ≡ last
    → length cs ≡ suc last
    → kept < last
    → PointsIn o cs
    → PointsIn (if same o (some last) || (available_in o rest == 0) then some kept else o) rest
retired_alloc none cs rest last kept e f k h = omega arith
retired_alloc (some a) cs rest last kept e f k h =
    elim (Bool-cases ((a == last) || (available_in (some a) rest == 0))) [
      | inl t ↦ rw t (omega arith)
      | inr t ↦ let ne : a ≢ last = ground arith in rw t (omega arith)
    ]

-- The allocator with the shorter list is well formed.
pub retire_chunk-IsPool :
    (e d : ℕ) (s : Fixed)
    → IsBack s d
    → s.empty ≡ some e
    → available_at s.chunks d ≡ s.num_blocks
    → IsPool (retire_chunk e d s)
unfolding retire_chunk
retire_chunk-IsPool e d s v q full = record {
  settled = v.settled;
  sized = v.sized;
  enough = v.enough;
  small = v.small;
  healthy = λ j k.
      let c : Came e d s.chunks j = came j k in
      subst (Healthy s.block_size s.num_blocks) (sym c.1) (v.healthy c.0 c.2);
  alloc_in =
      retired_alloc s.alloc_chunk s.chunks rest (length s.chunks - 1) (kept_chunk e d s.chunks)
        shorter (omega (arith, v.inside)) kept_in v.alloc_in;
  dealloc_in = omega (arith, kept_in, shorter);
  empty_in = λ a p.
      let p' : kept_chunk e d s.chunks ≡ a = cc in
      subst (λ b. (b < length rest) × (available_at rest b ≡ s.num_blocks)) p'
        (omega (arith, kept_in, shorter), kept_full);
  only = λ j k p.
      let c : Came e d s.chunks j = came j k in
      ap some
        (sym (c.4 (still_full c.0 c.2 (sym (ap (λ (d : Chunk). d.blocks_available) c.1) ∙ p) c.3)));
}
  where
    rest : List Chunk
    rest = pop_chunk (move_to_end e d s.chunks)

    e_in : e < length s.chunks
    e_in = (v.empty_in e q).0

    ne : e ≢ d
    ne p = v.apart (q ∙ ap some p)

    shorter : length rest ≡ length s.chunks - 1
    shorter =
        length-pop_chunk (move_to_end e d s.chunks)
        ∙ ap (λ (n : ℕ). n - 1) (length-move_to_end e d s.chunks)

    kept_in : kept_chunk e d s.chunks < length s.chunks - 1
    kept_in = kept_chunk-lt e d s.chunks e_in v.inside ne

    came : (j : ℕ) → j < length rest → Came e d s.chunks j
    came j k = (Came-from e d j s.chunks e_in v.inside ne (omega (arith, shorter)))

    still_full :
        (i : ℕ)
        → i < length s.chunks
        → available_at s.chunks i ≡ s.num_blocks
        → i ≢ gone_chunk e d s.chunks
        → i ≡ kept_chunk e d s.chunks
    still_full i h f g = other_kept e d i s.chunks (of_only (v.only i h f)) g
      where
        of_only : (s.empty ≡ some i) ⊎ (i ≡ d) → (i ≡ e) ⊎ (i ≡ d)
        of_only (inl t) = inl (cc)
        of_only (inr t) = inr t

    kept_full : available_at rest (kept_chunk e d s.chunks) ≡ s.num_blocks
    kept_full =
        let k : ℕ = kept_chunk e d s.chunks in
        let c : Came e d s.chunks k = came k (omega (arith, shorter, kept_in)) in
        ap (λ (d : Chunk). d.blocks_available) c.1
        ∙ subst (λ b. available_at s.chunks b ≡ s.num_blocks) (sym (c.5 refl))
            (kept-or e d s.chunks (λ b. available_at s.chunks b ≡ s.num_blocks) ((v.empty_in e q).1)
              full)
