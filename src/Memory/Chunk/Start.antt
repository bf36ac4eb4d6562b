-- ===== src/Memory/Chunk/Start.antt =====
-- `Chunk::Init` of src/SmallObj.cpp: the free list of a new chunk.
use qth_frame.Base.{
  ℕ, zero, suc, ◌+◌, ◌*◌, ◌%◌, ◌≤◌, ◌<◌, ◌≡◌, refl, ap, ◌∙◌, true, List, [], ◌∷◌, arith, length,
  All, Lacks, Distinct,
}
use qth_frame.Memory.Chunk.{Chunk, empty_chunk, store, link_blocks, init}
use qth_frame.Memory.Chunk.Free.{Linked, IsFreeList, block-le}

-- `n` numbers from `i` on.
abbrev pub up_from : ℕ → ℕ → List ℕ
up_from i zero = []
up_from i (suc n) = i ∷ up_from (i + 1) n

pub length-up_from : (n i : ℕ) → length (up_from i n) ≡ n
length-up_from zero i = refl
length-up_from (suc n) i = ap suc (length-up_from n (i + 1))

up_from-lt : (n i m : ℕ) → i + n ≤ m → All (λ x. x < m) (up_from i n)
up_from-lt zero i m h = tt
up_from-lt (suc n) i m h = (omega arith, up_from-lt n (i + 1) m (omega arith))

up_from-Lacks : (n i a : ℕ) → a < i → Lacks a (up_from i n)
up_from-Lacks zero i a h = tt
up_from-Lacks (suc n) i a h = (omega arith, up_from-Lacks n (i + 1) a (omega arith))

up_from-Distinct : (n i : ℕ) → Distinct (up_from i n)
up_from-Distinct zero i = tt
up_from-Distinct (suc n) i = (up_from-Lacks n (i + 1) i (omega arith), up_from-Distinct n (i + 1))

-- The loop leaves the blocks below its start alone.
link_blocks-below :
    (bs n i k : ℕ) (mem : ℕ → ℕ) → 0 < bs → k < i → link_blocks bs n i mem (k * bs) ≡ mem (k * bs)
unfolding link_blocks
link_blocks-below bs zero i k mem h l = refl
link_blocks-below bs (suc n) i k mem h l =
    link_blocks-below bs n (i + 1) k (store mem (i * bs) ((i + 1) % 256)) h (omega arith)
    ∙ ground (arith, block-le bs k i l)

link_blocks-Linked :
    (bs n i : ℕ) (mem : ℕ → ℕ)
    → 0 < bs
    → i + n ≤ 255
    → Linked bs (link_blocks bs n i mem) i (up_from i n)
unfolding link_blocks
link_blocks-Linked bs zero i mem h l = tt
link_blocks-Linked bs (suc n) i mem h l =
    let mem' : ℕ → ℕ = store mem (i * bs) ((i + 1) % 256) in
    let e : link_blocks bs n (i + 1) mem' (i * bs) ≡ i + 1 =
      link_blocks-below bs n (i + 1) i mem' h (omega arith) ∙ ground arith in
    (refl, rw e (link_blocks-Linked bs n (i + 1) mem' h (omega arith)))

-- `Init` on a chunk with no memory, for at most 255 blocks of at least one byte at an address above
-- 0, answers true and links all blocks to a free list, in order.
pub init-IsFreeList :
    (place bs n : ℕ) (c : Chunk)
    → c.addr ≡ 0
    → 0 < place
    → 0 < bs
    → n ≤ 255
    → ((init place bs n c).0 ≡ true) × IsFreeList bs n (up_from 0 n) (init place bs n c).1
unfolding init
init-IsFreeList place bs n c e h k l = rw e (
  refl,
  record {
    placed = h;
    sized = k;
    small = l;
    counted = omega (arith, length-up_from n 0);
    linked = link_blocks-Linked bs n 0 c.mem k (omega arith);
    in_range = up_from-lt n 0 n (omega arith);
    distinct = up_from-Distinct n 0;
  },
)

pub init-addr : (place bs n : ℕ) → (init place bs n empty_chunk).1.addr ≡ place
unfolding init
init-addr place bs n = refl
