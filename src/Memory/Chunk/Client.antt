-- ===== src/Memory/Chunk/Client.antt =====
-- A chunk and its users: blocks are taken, written by their owners and given back in any order.
mod Tests
use qth_frame.Base.{
  ℕ, ◌+◌, ◌-◌, ◌*◌, ◌/◌, ◌≤◌, ◌<◌, ◌≡◌, sym, List, [], ◌∷◌, arith, length, All, Lacks, Distinct,
  ◌==◌, if◌then◌else◌,
}
use native.Mathlib.Nat.{mul-div_left}
use qth_frame.Base.Pigeonhole.{
  without, length-without, length-without-lt, without-Distinct, Holds, All-Holds, All-without,
  All-map,
}
use qth_frame.Memory.Chunk.{Chunk, allocate, deallocate, write}
use qth_frame.Memory.Chunk.Free.{
  IsFreeList, write-IsFreeList, allocate-cons, allocate-nil, deallocate-cons,
}

-- The chunk, and the indices of the blocks in use.
pub record Client : Type 0 where
  pub chunk : Chunk
  pub live : List ℕ

pub take_block : ℕ → Client → Client
take_block bs t =
    let (p, c) = allocate bs t.chunk in
    if p == 0
    then record { chunk = c; live = t.live }
    else record { chunk = c; live = (p - t.chunk.addr) / bs ∷ t.live }

pub give_back : ℕ → ℕ → Client → Client
give_back bs y t = record {
  chunk = deallocate bs (t.chunk.addr + y * bs) t.chunk;
  live = without y t.live;
}

-- One action of a user of a chunk with blocks of `bs` bytes.
pub data Step (bs : ℕ) (t : Client) : Client → Type 0 where
  takes : Step bs t (take_block bs t)
  returns : (y : ℕ) → Holds y t.live → Step bs t (give_back bs y t)
  writes :
      (y o v : ℕ)
      → Holds y t.live
      → y * bs ≤ o
      → o < y * bs + bs
      → Step bs t (record t { chunk = write o v t.chunk })

pub data Reach (bs : ℕ) (s : Client) : Client → Type 0 where
  here : Reach bs s s
  next : {t u : Client} → Reach bs s t → Step bs t u → Reach bs s u

-- `xs` are free and `live` is in use, and no block is both.
pub record IsShared (bs n : ℕ) (xs : List ℕ) (t : Client) : Type 0 where
  pub free : IsFreeList bs n xs t.chunk
  pub in_use : All (λ y. y < n) t.live
  pub once : Distinct t.live
  pub apart : All (λ y. Lacks y xs) t.live
  pub total : length xs + length t.live ≡ n

step_give :
    (bs n y : ℕ) (xs : List ℕ) (t : Client)
    → IsShared bs n xs t
    → Holds y t.live
    → IsShared bs n (y ∷ xs) (give_back bs y t)
unfolding give_back
step_give bs n y xs t s m = record {
  free =
      deallocate-cons bs n y xs t.chunk s.free (All-Holds (λ k. k < n) y t.live s.in_use m)
        (All-Holds (λ k. Lacks k xs) y t.live s.apart m);
  in_use = All-map _ _ (λ k p. p.1) _ (All-without (λ k. k < n) y t.live s.in_use);
  once = without-Distinct y t.live s.once;
  apart =
      All-map _ (λ k. Lacks k (y ∷ xs)) (λ k p. ((λ e. p.0 (sym e)), p.1)) _
        (All-without (λ k. Lacks k xs) y t.live s.apart);
  total = omega (arith, s.total, length-without y t.live s.once, length-without-lt y t.live m);
}

step_write :
    (bs n y o v : ℕ) (xs : List ℕ) (t : Client)
    → IsShared bs n xs t
    → Holds y t.live
    → y * bs ≤ o
    → o < y * bs + bs
    → IsShared bs n xs (record t { chunk = write o v t.chunk })
step_write bs n y o v xs t s m h k = record {
  free =
      write-IsFreeList bs n xs t.chunk y o v s.free (All-Holds (λ k. Lacks k xs) y t.live s.apart m)
        h k;
  in_use = s.in_use;
  once = s.once;
  apart = s.apart;
  total = s.total;
}

take_block-nil : (bs n : ℕ) (t : Client) → IsFreeList bs n [] t.chunk → take_block bs t ≡ t
unfolding take_block
take_block-nil bs n t f = rw (allocate-nil bs n t.chunk f)

take_block-cons :
    (bs n x : ℕ) (xs : List ℕ) (t : Client)
    → IsFreeList bs n (x ∷ xs) t.chunk
    → take_block bs t ≡ record { chunk = (allocate bs t.chunk).1; live = x ∷ t.live }
unfolding take_block
take_block-cons bs n x xs t f =
    let p : (allocate bs t.chunk).0 ≡ t.chunk.addr + x * bs =
      (allocate-cons bs n x xs t.chunk f).0 in
    let q : t.chunk.addr + x * bs - t.chunk.addr ≡ x * bs = omega arith in
    rw p (ground (arith, q, f.placed, mul-div_left x f.sized))

-- Every element of `ys` differs from `x`.
Lacks-of : (x : ℕ) (xs ys : List ℕ) → All (λ y. Lacks y (x ∷ xs)) ys → Lacks x ys
Lacks-of x xs [] h = tt
Lacks-of x xs (y ∷ ys) h = ((λ e. h.0.0 (sym e)), Lacks-of x xs ys h.1)

step_take :
    (bs n x : ℕ) (xs : List ℕ) (t : Client)
    → IsShared bs n (x ∷ xs) t
    → IsShared bs n xs (take_block bs t)
step_take bs n x xs t s = rw (take_block-cons bs n x xs t s.free) (record {
  free = (allocate-cons bs n x xs t.chunk s.free).2;
  in_use = (s.free.in_range.0, s.in_use);
  once = (Lacks-of x xs t.live s.apart, s.once);
  apart = (s.free.distinct.0, All-map _ _ (λ k p. p.1) t.live s.apart);
  total = omega (arith, s.total);
})

take_lem :
    (bs n : ℕ) (xs : List ℕ) (t : Client)
    → IsShared bs n xs t
    → (ys : List ℕ) × IsShared bs n ys (take_block bs t)
take_lem bs n [] t s = ([], rw (take_block-nil bs n t s.free) s)
take_lem bs n (x ∷ xs) t s = (xs, step_take bs n x xs t s)

Step-IsShared :
    (bs n : ℕ) (xs : List ℕ) {t u : Client}
    → IsShared bs n xs t
    → Step bs t u
    → (ys : List ℕ) × IsShared bs n ys u
Step-IsShared bs n xs {t} s takes = take_lem bs n xs t s
Step-IsShared bs n xs {t} s (returns y m) = (y ∷ xs, step_give bs n y xs t s m)
Step-IsShared bs n xs {t} s (writes y o v m h k) = (xs, step_write bs n y o v xs t s m h k)

-- From a chunk whose free list and blocks in use make up its `n` blocks with no overlap, every
-- sequence of actions of its users (take a block, write any byte of a block in use, give a block in
-- use back) leads to a chunk where this holds again.
pub Reach-IsShared :
    (bs n : ℕ) (xs : List ℕ) {t u : Client}
    → IsShared bs n xs t
    → Reach bs t u
    → (ys : List ℕ) × IsShared bs n ys u
Reach-IsShared bs n xs s here = (xs, s)
Reach-IsShared bs n xs s (next r st) =
    let (ys, s') = Reach-IsShared bs n xs s r in Step-IsShared bs n ys s' st
