-- ===== src/Memory/Fixed/Pick.antt =====
-- How `FixedAllocator::Allocate` picks its chunk: the one that it ends on has a free block.
use qth_frame.Base.{
  Bool, ◌≢◌, ℕ, ◌<◌, ◌≡◌, refl, subst, sym, ap, ◌∙◌, ◌⊎◌, ◌↔◌, inl, inr, true, false, Option, none,
  some, List, [], ◌∷◌, ◌++◌, arith, length, get_or-append_lt, ◌==◌, ==_iff, Bool-cases,
  Option-cases, if◌then◌else◌,
}
use qth_frame.Memory.Chunk.{Chunk, empty_chunk}
use qth_frame.Memory.Chunk.Start.{init-addr}
use qth_frame.Memory.Fixed.{
  New, moved, reserve, push_chunk, push_reserved, Fixed, chunk_at, same, first_available_from,
  make_new_chunk, available_in, pick_chunk,
}
use qth_frame.Memory.Fixed.Pool.{PointsIn, available_at, IsPool, IsReady}
use qth_frame.Memory.Fixed.Ready.{
  Scanned, first_available_from-Scanned, Placed, grown, push_chunk-some, grown-IsReady,
  from_empty-IsReady, scanned-IsReady, reused-IsReady, kept-IsReady,
}

-- The chunks are the same, or there is one more at the place of the new memory.
abbrev pub Grows : Option ℕ → List Chunk → List Chunk → Type 0
Grows place cs ds =
    (ds ≡ cs) ⊎ ((p : ℕ) × (c : Chunk) × (place ≡ some p) × (c.addr ≡ p) × (ds ≡ cs ++ c ∷ []))

-- No chunk of the allocator has changed.
pub record Extends (place : Option ℕ) (s t : Fixed) : Type 0 where
  pub block_size : t.block_size ≡ s.block_size
  pub num_blocks : t.num_blocks ≡ s.num_blocks
  pub chunks : (j : ℕ) → j < length s.chunks → chunk_at t.chunks j ≡ chunk_at s.chunks j
  pub grows : Grows place s.chunks t.chunks

-- What a refusal of `MakeNewChunk` comes to: `reserve` has thrown, or the allocation of the block has
-- with no call of `reserve`, or it has after the vector has moved, which leaves the chunk pointers of
-- an allocator with chunks behind.
abbrev pub Refused : New → Fixed → Fixed → Type 0
Refused new s t =
    ((s.capacity ≡ length s.chunks) × (new.vector ≡ none) × (t ≡ s))
    ⊎ ((s.capacity ≢ length s.chunks) × (new.block ≡ none) × (t ≡ s))
    ⊎ ((c : ℕ) × (s.capacity ≡ length s.chunks)
        × (new.vector ≡ some c)
        × (new.block ≡ none)
        × (t ≡ record s {
          capacity = c;
          dangling = if length s.chunks == 0 then s.dangling else true;
        }))

-- Either memory has run out with every chunk used up, or some chunk is ready.
abbrev pub Picks : New → Fixed → Type 0
Picks place s =
    ((t : Fixed) × (pick_chunk place s ≡ (false, t))
      × Refused place s t
      × ((i : ℕ) → i < length s.chunks → available_at s.chunks i ≡ 0))
    ⊎ ((t : Fixed) × (i : ℕ) × (pick_chunk place s ≡ (true, t))
        × IsReady t i
        × Extends place.block s t)

pick_chunk-new :
    (place : New) (s : Fixed)
    → (available_in s.alloc_chunk s.chunks == 0) ≡ true
    → s.empty ≡ none
    → first_available_from 0 s.chunks ≡ none
    → pick_chunk place s ≡ make_new_chunk place s
unfolding pick_chunk
pick_chunk-new place s a e f = simp (a, e, f)

pick_chunk-scanned :
    (place : New) (s : Fixed) (j : ℕ)
    → (available_in s.alloc_chunk s.chunks == 0) ≡ true
    → s.empty ≡ none
    → first_available_from 0 s.chunks ≡ some j
    → pick_chunk place s ≡ (true, record s { alloc_chunk = some j })
unfolding pick_chunk
pick_chunk-scanned place s j a e f = simp (a, e, f)

pick_chunk-empty :
    (place : New) (s : Fixed) (j : ℕ)
    → (available_in s.alloc_chunk s.chunks == 0) ≡ true
    → s.empty ≡ some j
    → pick_chunk place s ≡ (true, record s { alloc_chunk = some j; empty = none })
unfolding pick_chunk
pick_chunk-empty place s j a e = simp (a, e)

pick_chunk-kept :
    (place : New) (s : Fixed)
    → (available_in s.alloc_chunk s.chunks == 0) ≡ false
    → pick_chunk place s
      ≡ (true, if same s.alloc_chunk s.empty then record s { empty = none } else s)
unfolding pick_chunk
pick_chunk-kept place s a = simp a

same_iff : (o p : Option ℕ) → (same o p ≡ true) ↔ (o ≡ p)
same_iff none none = ((λ h. refl), λ h. refl)
same_iff none (some j) = ((λ h. cc), λ h. cc)
same_iff (some i) none = ((λ h. cc), λ h. cc)
same_iff (some i) (some j) = ((λ h. ap some ((==_iff i j).0 h)), λ h. (==_iff i j).1 (cc))

grown-Extends :
    (place : ℕ) (s : Fixed) (c : ℕ) (d : Bool)
    → Extends (some place) s (grown place (record s { capacity = c; dangling = d }))
unfolding grown
grown-Extends place s c d = record {
  block_size = refl;
  num_blocks = refl;
  chunks = λ j k. get_or-append_lt s.chunks _ j empty_chunk k;
  grows = inr (place, _, refl, init-addr place s.block_size s.num_blocks, refl);
}

abbrev unchanged :
    {place : Option ℕ} {s : Fixed} {o p : Option ℕ}
    → Extends place s (record s { alloc_chunk = o; empty = p })
unchanged = record { block_size = refl; num_blocks = refl; chunks = λ j k. refl; grows = inl refl }

-- The vector as `reserve` leaves it.
make_new_chunk-Picks :
    (vector : Option ℕ) (block : Option ℕ) (s : Fixed)
    → IsPool s
    → Placed block
    → s.empty ≡ none
    → ((i : ℕ) → i < length s.chunks → available_at s.chunks i ≡ 0)
    → pick_chunk (record { vector = vector; block = block }) s
      ≡ make_new_chunk (record { vector = vector; block = block }) s
    → Picks (record { vector = vector; block = block }) s
unfolding make_new_chunk reserve push_chunk
make_new_chunk-Picks vector block s v h e full p =
    elim (Bool-cases (s.capacity == length s.chunks)) [
      | inl q ↦ at_end vector block h ((==_iff s.capacity (length s.chunks)).0 q) (p ∙ rw q refl)
      | inr q ↦
          with_room block h (λ r. cc (q, (==_iff s.capacity (length s.chunks)).1 r)) (p ∙ rw q refl)
    ]
  where
    pushed :
        (vector : Option ℕ) (place c : ℕ) (d : Bool)
        → 0 < place
        → pick_chunk (record { vector = vector; block = some place }) s
          ≡ push_chunk (some place) (record s { capacity = c; dangling = d })
        → Picks (record { vector = vector; block = some place }) s
    pushed vector place c d h p = inr (
      grown place (record s { capacity = c; dangling = d }),
      length s.chunks,
      p ∙ push_chunk-some place s c d v h,
      grown-IsReady place s c d v h e full,
      grown-Extends place s c d,
    )

    at_end :
        (vector block : Option ℕ)
        → Placed block
        → s.capacity ≡ length s.chunks
        → pick_chunk (record { vector = vector; block = block }) s
          ≡ push_reserved block s
              (elim vector [ none ↦ none | some capacity ↦ some (moved capacity s) ])
        → Picks (record { vector = vector; block = block }) s
    at_end none block h q p = inl (s, p, inl (q, refl, refl), full)
    at_end (some c) none h q p = inl (_, p, inr (inr (c, q, refl, refl, refl)), full)
    at_end (some c) (some place) h q p = pushed (some c) place c _ h p

    with_room :
        (block : Option ℕ)
        → Placed block
        → s.capacity ≢ length s.chunks
        → pick_chunk (record { vector = vector; block = block }) s ≡ push_chunk block s
        → Picks (record { vector = vector; block = block }) s
    with_room none h q p = inl (s, p, inr (inl (q, refl, refl)), full)
    with_room (some place) h q p = pushed vector place s.capacity s.dangling h p

pick_new :
    (place : New) (s : Fixed)
    → IsPool s
    → Placed place.block
    → (available_in s.alloc_chunk s.chunks == 0) ≡ true
    → s.empty ≡ none
    → first_available_from 0 s.chunks ≡ none
    → ((i : ℕ) → i < length s.chunks → available_at s.chunks i ≡ 0)
    → Picks place s
pick_new place s v h a e f full =
    make_new_chunk-Picks place.vector place.block s v h e full (pick_chunk-new place s a e f)

pick_scan :
    (place : New) (s : Fixed) (r : Option ℕ)
    → IsPool s
    → Placed place.block
    → (available_in s.alloc_chunk s.chunks == 0) ≡ true
    → s.empty ≡ none
    → first_available_from 0 s.chunks ≡ r
    → Scanned s.chunks 0 r
    → Picks place s
pick_scan place s none v h a e f sc = pick_new place s v h a e f sc
pick_scan place s (some j) v h a e f sc =
    let q : j ≡ sc.0 = omega (arith, sc.1) in
    inr (
      record s { alloc_chunk = some j },
      j,
      pick_chunk-scanned place s j a e f,
      rw q (scanned-IsReady s sc.0 v e sc.2 sc.3),
      unchanged,
    )

pick_keep :
    (place : New) (s : Fixed) (o : Option ℕ)
    → IsPool s
    → s.alloc_chunk ≡ o
    → PointsIn o s.chunks
    → (available_in o s.chunks == 0) ≡ false
    → Picks place s
pick_keep place s none v q p a = cc
pick_keep place s (some i) v q p a = elim (Bool-cases (same s.alloc_chunk s.empty)) [
  | inl m ↦
      let e : s.empty ≡ some i = sym ((same_iff s.alloc_chunk s.empty).0 m) ∙ q in
      inr (_, i, pick_chunk-kept place s kept ∙ (rw m), reused-IsReady s i v q e, unchanged)
  | inr m ↦ inr (
    _,
    i,
    pick_chunk-kept place s kept ∙ (rw m),
    kept-IsReady s i v q p (ground arith)
        (λ e. cc (m, (same_iff s.alloc_chunk s.empty).1 (q ∙ sym e))),
    unchanged,
  )
]
  where
    kept : (available_in s.alloc_chunk s.chunks == 0) ≡ false
    kept = subst (λ o. (available_in o s.chunks == 0) ≡ false) (sym q) a

pub pick_chunk-Picks : (place : New) (s : Fixed) → IsPool s → Placed place.block → Picks place s
pick_chunk-Picks place s v h = elim (Bool-cases (available_in s.alloc_chunk s.chunks == 0)) [
  | inl a ↦ elim (Option-cases s.empty) [
    | inl e ↦
        pick_scan place s (first_available_from 0 s.chunks) v h a e refl
          (first_available_from-Scanned s.chunks 0)
    | inr (e, q) ↦ inr (
      record s { alloc_chunk = some e; empty = none },
      e,
      pick_chunk-empty place s e a q,
      from_empty-IsReady s e v q,
      unchanged,
    )
  ]
  | inr a ↦ pick_keep place s s.alloc_chunk v refl v.alloc_in a
]
