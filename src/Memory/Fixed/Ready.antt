-- ===== src/Memory/Fixed/Ready.antt =====
-- The four ways in which `FixedAllocator::Allocate` comes by a chunk with a free block: the scan
-- from the front, a new chunk, the wholly free chunk, and the chunk it used last.
use qth_frame.Base.{
  Bool, true, false, ℕ, zero, suc, ◌+◌, ◌<◌, ◌≡◌, refl, subst, sym, ap, ◌≢◌, inl, inr, Option, none,
  some, List, [], ◌∷◌, ◌++◌, arith, length, length-append, get_or-append_lt, get_or-append_last,
  dec_lt, ◌==◌, ==_iff, Bool-cases,
}
use qth_frame.Memory.Chunk
use qth_frame.Memory.Chunk.{Chunk, empty_chunk}
use qth_frame.Memory.Chunk.Free.{IsFreeList}
use qth_frame.Memory.Chunk.Start.{up_from, length-up_from, init-IsFreeList}
use qth_frame.Memory.Fixed.{Fixed, chunk_at, first_available_from, push_chunk}
use qth_frame.Memory.Fixed.Pool.{available_at, IsPool, IsReady}

-- What the scan of the chunks from the front answers.
abbrev pub Scanned : List Chunk → ℕ → Option ℕ → Type 0
Scanned cs k none = (i : ℕ) → i < length cs → available_at cs i ≡ 0
Scanned cs k (some j) = (i : ℕ) × (j ≡ k + i) × (i < length cs) × (0 < available_at cs i)

none_available :
    (c : Chunk) (cs : List Chunk)
    → c.blocks_available ≡ 0
    → ((i : ℕ) → i < length cs → available_at cs i ≡ 0)
    → (i : ℕ) → i < length (c ∷ cs)
    → available_at (c ∷ cs) i ≡ 0
none_available c cs e h zero k = e
none_available c cs e h (suc i) k = h i (omega arith)

pub first_available_from-Scanned :
    (cs : List Chunk) (k : ℕ) → Scanned cs k (first_available_from k cs)
unfolding first_available_from
first_available_from-Scanned [] k = λ i h. absurd (omega arith)
first_available_from-Scanned (c ∷ cs) k = elim (Bool-cases (c.blocks_available == 0)) [
  | inl e ↦ rw e (
      later (first_available_from (k + 1) cs) (first_available_from-Scanned cs (k + 1))
        ((==_iff c.blocks_available 0).0 e))
  | inr e ↦ rw e (0, omega arith, omega arith, ground arith)
]
  where
    later : (r : Option ℕ) → Scanned cs (k + 1) r → c.blocks_available ≡ 0 → Scanned (c ∷ cs) k r
    later none h e = none_available c cs e h
    later (some j) h e = (suc h.0, omega arith, omega arith, h.3)

-- Memory that `new` hands out has an address.
abbrev pub Placed : Option ℕ → Type 0
Placed none = Unit
Placed (some p) = 0 < p

-- The new chunk stands at the end.
unfoldable pub grown : ℕ → Fixed → Fixed
grown place s = record s {
  chunks = s.chunks ++ ((Chunk.init place s.block_size s.num_blocks empty_chunk).1 ∷ []);
  alloc_chunk = some (length s.chunks);
  dealloc_chunk = some 0;
  dangling = false;
}

fresh-IsFreeList :
    (place : ℕ) (s : Fixed)
    → IsPool s
    → 0 < place
    → IsFreeList s.block_size s.num_blocks
        (up_from 0 s.num_blocks)
        (Chunk.init place s.block_size s.num_blocks empty_chunk).1
fresh-IsFreeList place s v h =
    (init-IsFreeList place s.block_size s.num_blocks empty_chunk refl h v.sized v.small).1

pub push_chunk-some :
    (place : ℕ) (s : Fixed) (c : ℕ) (d : Bool)
    → IsPool s
    → 0 < place
    → push_chunk (some place) (record s { capacity = c; dangling = d })
      ≡ (true, grown place (record s { capacity = c; dangling = d }))
unfolding push_chunk grown
push_chunk-some place s c d v h =
    rw ((init-IsFreeList place s.block_size s.num_blocks empty_chunk refl h v.sized v.small).0)

-- With every chunk used up and no wholly free one, the new chunk is ready.
pub grown-IsReady :
    (place : ℕ) (s : Fixed) (m : ℕ) (g : Bool)
    → IsPool s
    → 0 < place
    → s.empty ≡ none
    → ((i : ℕ) → i < length s.chunks → available_at s.chunks i ≡ 0)
    → IsReady (grown place (record s { capacity = m; dangling = g })) (length s.chunks)
unfolding grown
grown-IsReady place s m g v h e full = record {
  settled = refl;
  sized = v.sized;
  enough = v.enough;
  small = v.small;
  healthy = λ j k. elim (dec_lt j (length s.chunks)) [
    | yes p ↦ rw (old j p) (v.healthy j p)
    | no p ↦
        rw (new j (omega (arith, grows))) (up_from 0 s.num_blocks, fresh-IsFreeList place s v h)
  ];
  picked = refl;
  inside = omega (arith, grows);
  room =
      subst (λ (d : Chunk). 0 < d.blocks_available) (sym (new (length s.chunks) refl))
        (omega
          (arith, (fresh-IsFreeList place s v h).counted, length-up_from s.num_blocks 0, v.enough));
  dealloc_in = omega (arith, grows);
  empty_in = λ k q. cc;
  apart = λ q. cc;
  only = λ j k q. elim (dec_lt j (length s.chunks)) [
    | yes p ↦
        absurd (omega (arith, full j p, ap (λ (c : Chunk). c.blocks_available) (old j p), v.enough))
    | no p ↦ inr (omega (arith, grows))
  ];
}
  where
    c : Chunk
    c = (Chunk.init place s.block_size s.num_blocks empty_chunk).1

    grows : length (s.chunks ++ (c ∷ [])) ≡ suc (length s.chunks)
    grows = omega (arith, length-append s.chunks (c ∷ []))

    old : (j : ℕ) → j < length s.chunks → chunk_at (s.chunks ++ (c ∷ [])) j ≡ chunk_at s.chunks j
    old j p = get_or-append_lt s.chunks (c ∷ []) j empty_chunk p

    new : (j : ℕ) → j ≡ length s.chunks → chunk_at (s.chunks ++ (c ∷ [])) j ≡ c
    new j p = get_or-append_last s.chunks c empty_chunk j p

-- The wholly free chunk becomes the allocation chunk.
pub from_empty-IsReady :
    (s : Fixed) (e : ℕ)
    → IsPool s
    → s.empty ≡ some e
    → IsReady (record s { alloc_chunk = some e; empty = none }) e
from_empty-IsReady s e v q = record {
  settled = v.settled;
  sized = v.sized;
  enough = v.enough;
  small = v.small;
  healthy = v.healthy;
  picked = refl;
  inside = (v.empty_in e q).0;
  room = omega (arith, (v.empty_in e q).1, v.enough);
  dealloc_in = v.dealloc_in;
  empty_in = λ k p. cc;
  apart = λ p. cc;
  only = λ j k p. inr (cc (v.only j k p));
}

-- The scan found a chunk with a free block.
pub scanned-IsReady :
    (s : Fixed) (i : ℕ)
    → IsPool s
    → s.empty ≡ none
    → i < length s.chunks
    → 0 < available_at s.chunks i
    → IsReady (record s { alloc_chunk = some i }) i
scanned-IsReady s i v q h k = record {
  settled = v.settled;
  sized = v.sized;
  enough = v.enough;
  small = v.small;
  healthy = v.healthy;
  picked = refl;
  inside = h;
  room = k;
  dealloc_in = v.dealloc_in;
  empty_in = v.empty_in;
  apart = λ p. cc;
  only = λ j l p. inl (v.only j l p);
}

-- The allocation chunk has a free block, and is the wholly free chunk.
pub reused-IsReady :
    (s : Fixed) (i : ℕ)
    → IsPool s
    → s.alloc_chunk ≡ some i
    → s.empty ≡ some i
    → IsReady (record s { empty = none }) i
reused-IsReady s i v q e = record {
  settled = v.settled;
  sized = v.sized;
  enough = v.enough;
  small = v.small;
  healthy = v.healthy;
  picked = q;
  inside = (v.empty_in i e).0;
  room = omega (arith, (v.empty_in i e).1, v.enough);
  dealloc_in = v.dealloc_in;
  empty_in = λ k p. cc;
  apart = λ p. cc;
  only = λ j k p. inr (cc (v.only j k p));
}

pub kept-IsReady :
    (s : Fixed) (i : ℕ)
    → IsPool s
    → s.alloc_chunk ≡ some i
    → i < length s.chunks
    → 0 < available_at s.chunks i
    → s.empty ≢ some i
    → IsReady s i
kept-IsReady s i v q h k ne = record {
  settled = v.settled;
  sized = v.sized;
  enough = v.enough;
  small = v.small;
  healthy = v.healthy;
  picked = q;
  inside = h;
  room = k;
  dealloc_in = v.dealloc_in;
  empty_in = v.empty_in;
  apart = ne;
  only = λ j l p. inl (v.only j l p);
}
