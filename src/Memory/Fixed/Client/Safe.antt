-- ===== src/Memory/Fixed/Client/Safe.antt =====
-- What the users of a `FixedAllocator` (src/SmallObj.cpp) may rely on.
use mathlib.Core.Path.{ap₂}
use qth_frame.Base.{
  ℕ, ◌+◌, ◌*◌, ◌<◌, ◌≡◌, ◌≢◌, refl, sym, ap, ◌∙◌, subst, ◌⊎◌, inl, inr, Bool, true, none, false,
  List, [], ◌∷◌, arith, length, Lacks, All, Distinct, ◌==◌,
}
use qth_frame.Base.Pigeonhole.{without, without-Distinct, Holds, All-Holds, All-without, All-map}
use qth_frame.Memory.Fixed.{New, Fixed, allocate, deallocate, initialize}
use qth_frame.Memory.Small.{blank}
use qth_frame.Memory.Fixed.Pool.{IsPool, initialize-IsPool}
use qth_frame.Memory.Fixed.Take.{Settles, allocate-IsPool}
use qth_frame.Memory.Fixed.Pick.{Refused}
use qth_frame.Memory.Fixed.Return.{InUse, block_addr, deallocate-IsPool}
use qth_frame.Memory.Fixed.Client.{
  Client, Clear, IsFresh, take, give, write_byte, Step, takes, gives, writes, Reach, here, next,
  Held, Apart, IsClient,
}
use qth_frame.Memory.Fixed.Client.Live.{Apart-Disjoint, blocks-Clear, block_addr_unique}
use qth_frame.Memory.Fixed.Client.Taking.{IsTaken, allocate-IsTaken, IsFresh-Placed}
use qth_frame.Memory.Fixed.Client.Staying.{Held-Stays}
use qth_frame.Memory.Fixed.Client.Writing.{write_byte-IsPool, write_byte-Apart, write_byte-Held}
use qth_frame.Memory.Fixed.Client.Giving.{IsFreed, do_deallocate-IsFreed}

-- The step of a user who takes a block.
take-null :
    (new : New) (t : Client) (u : Fixed)
    → allocate new t.pool ≡ (0, u)
    → take new t ≡ record { pool = u; live = t.live }
unfolding take
take-null new t u e = rw (take, e) refl

take-block :
    (place : New) (t : Client)
    → (allocate place t.pool).0 ≢ 0
    → take place t
      ≡ record { pool = (allocate place t.pool).1; live = (allocate place t.pool).0 ∷ t.live }
unfolding take
take-block place t ne =
    let q : ((allocate place t.pool).0 == 0) ≡ false = ground arith in rw (take, q) refl

All-Stays :
    (s : Fixed) (r : ℕ × Fixed) (xs : List ℕ)
    → IsTaken s r
    → 0 < s.block_size
    → All (Held s) xs
    → Lacks r.0 xs × All (Held r.1) xs
All-Stays s r [] k z h = (tt, tt)
All-Stays s r (x ∷ xs) k z h =
    let (ne, g) = Held-Stays s r k x z h.0 in
    let (l, a) = All-Stays s r xs k z h.1 in (((λ e. ne (sym e)), l), (g, a))

IsTaken-nonzero : (s : Fixed) (r : ℕ × Fixed) → IsTaken s r → r.0 ≢ 0
IsTaken-nonzero s r k e = omega (arith, k.at, k.in_use.listed.placed)

-- A refusal leaves the blocks in use where they are.
module _ (new : New) (s t : Fixed) (a : Apart s) where
  Refused-Apart : Refused new s t → Apart t
  Refused-Apart (inl (p, q, e)) = subst Apart (sym e) a
  Refused-Apart (inr (inl (p, q, e))) = subst Apart (sym e) a
  Refused-Apart (inr (inr (c, p, q, r, e))) = subst Apart (sym e) (λ i j. a i j)

  Refused-Held : (b : ℕ) → Refused new s t → Held s b → Held t b
  Refused-Held b (inl (p, q, e)) h = subst (λ u. Held u b) (sym e) h
  Refused-Held b (inr (inl (p, q, e))) h = subst (λ u. Held u b) (sym e) h
  Refused-Held b (inr (inr (c, p, q, r, e))) h =
      subst (λ u. Held u b) (sym e)
        (record {
          chunk = h.chunk;
          block = h.block;
          at = h.at;
          in_use = record {
            inside = h.in_use.inside;
            index = h.in_use.index;
            free = h.in_use.free;
            listed = h.in_use.listed;
            absent = h.in_use.absent;
          };
        })

take-IsClient :
    (new : New) (t : Client)
    → IsFresh new.block t.pool
    → Settles new t.pool
    → IsClient t
    → IsClient (take new t)
take-IsClient new t h w c =
    let r = allocate new t.pool in
    let pool : IsPool r.1 =
      allocate-IsPool new t.pool c.pool (IsFresh-Placed new.block t.pool h) w in
    elim (allocate-IsTaken new t.pool c.pool c.apart h) [
      | inl (u, e, f) ↦ subst IsClient (sym (take-null new t u e)) (record {
        pool = subst (λ (p : ℕ × Fixed). IsPool p.1) e pool;
        apart = Refused-Apart new t.pool u c.apart f;
        held =
            All-map (Held t.pool) (Held u) (λ b. Refused-Held new t.pool u c.apart b f) t.live
              c.held;
        once = c.once;
      })
      | inr k ↦
          let (l, a) = All-Stays t.pool r t.live k c.pool.sized c.held in
          subst IsClient (sym (take-block new t (IsTaken-nonzero t.pool r k))) (record {
            pool = pool;
            apart = k.apart;
            held = (record { chunk = k.chunk; block = k.block; at = k.at; in_use = k.in_use }, a);
            once = (l, c.once);
          })
    ]

-- The other blocks in use stay when one has come back.
IsFreed-Held :
    (s t : Fixed) (a b : ℕ) (h : Held s a)
    → IsFreed s h.chunk h.block t
    → b ≢ a
    → Held s b
    → Held t b
IsFreed-Held s t a b h f ne g =
    let k =
      f.kept g.chunk g.block g.in_use (λ p q. ne (g.at ∙ ap₂ (block_addr s) p q ∙ sym h.at)) in
    record {
      chunk = k.place;
      block = g.block;
      at = omega (arith, g.at, k.addr, ap (λ r. g.block * r) f.block_size);
      in_use = k.in_use;
    }

-- `Deallocate` of a block in use.
pub deallocate-held :
    (s : Fixed) (a : ℕ)
    → IsPool s
    → Apart s
    → (h : Held s a)
    → (deallocate a none s).0 ≡ true
      × IsPool (deallocate a none s).1
      × IsFreed s h.chunk h.block (deallocate a none s).1
deallocate-held s a v p h =
    let (e, w) = deallocate-IsPool h.chunk h.block s v (Apart-Disjoint s p) h.in_use in
    subst
      (λ b.
        (deallocate b none s).0 ≡ true
        × IsPool (deallocate b none s).1
        × IsFreed s h.chunk h.block (deallocate b none s).1)
      (sym h.at)
      (
        ap (λ (r : Bool × Fixed). r.0) e,
        w,
        subst (λ (r : Bool × Fixed). IsFreed s h.chunk h.block r.1) (sym e)
            (do_deallocate-IsFreed h.chunk h.block s v p h.in_use),
      )

give-IsClient : (a : ℕ) (t : Client) → Holds a t.live → IsClient t → IsClient (give a t)
unfolding give
give-IsClient a t m c =
    let h = All-Holds (Held t.pool) a t.live c.held m in
    let (e, v, f) = deallocate-held t.pool a c.pool c.apart h in
    record {
      pool = v;
      apart = f.apart;
      held =
          All-map _ (Held (deallocate a none t.pool).1)
            (λ b (ne, g). IsFreed-Held t.pool (deallocate a none t.pool).1 a b h f ne g)
            (without a t.live) (All-without (Held t.pool) a t.live c.held);
      once = without-Distinct a t.live c.once;
    }

write-IsClient :
    (d x k v : ℕ) (t : Client)
    → d < length t.pool.chunks
    → x < t.pool.num_blocks
    → Holds (block_addr t.pool d x) t.live
    → k < t.pool.block_size
    → IsClient t
    → IsClient (record t { pool = write_byte d (x * t.pool.block_size + k) v t.pool })
write-IsClient d x k v t p q m small c =
    let h = All-Holds (Held t.pool) (block_addr t.pool d x) t.live c.held m in
    let (e, f) =
      block_addr_unique t.pool c.apart d h.chunk x h.block c.pool.sized p h.in_use.inside q
        h.in_use.index h.at in
    let u : InUse t.pool d x =
      subst (λ i. InUse t.pool i x) (sym e) (subst (InUse t.pool h.chunk) (sym f) h.in_use) in
    record {
      pool = write_byte-IsPool t.pool d x k v c.pool u small;
      apart = write_byte-Apart t.pool d x k v c.pool u small c.apart;
      held = All-map (Held t.pool) _ (write_byte-Held t.pool d x k v c.pool u small) t.live c.held;
      once = c.once;
    }

Step-IsClient : {t u : Client} → IsClient t → Step t u → IsClient u
Step-IsClient {t} c (takes new h w) = take-IsClient new t h w c
Step-IsClient {t} c (gives a m) = give-IsClient a t m c
Step-IsClient {t} c (writes d x k v p q m small) = write-IsClient d x k v t p q m small c

Reach-IsClient : {t u : Client} → IsClient t → Reach t u → IsClient u
Reach-IsClient c here = c
Reach-IsClient c (next r st) = Step-IsClient (Reach-IsClient c r) st

-- What the users see: no block in use is NULL, no two overlap, and each can be given back.
pub record IsSafe (t : Client) : Type 0 where
  pub nonzero : All (λ a. 0 < a) t.live
  pub clear : All (λ a. All (λ b. Clear t.pool.block_size a b ⊎ (a ≡ b)) t.live) t.live
  pub once : Distinct t.live
  pub accepted : All (λ a. (deallocate a none t.pool).0 ≡ true) t.live

Held-Clear :
    (s : Fixed) (a b : ℕ) → Apart s → Held s a → Held s b → Clear s.block_size a b ⊎ (a ≡ b)
Held-Clear s a b p g h =
    elim (blocks-Clear s p g.chunk h.chunk g.block h.block g.in_use.inside h.in_use.inside
      g.in_use.index h.in_use.index) [
        | inl (inl c) ↦ inl (inl (omega (arith, c, g.at, h.at)))
        | inl (inr c) ↦ inl (inr (omega (arith, c, g.at, h.at)))
        | inr (e, f) ↦ inr (g.at ∙ ap₂ (block_addr s) e f ∙ sym h.at)
      ]

IsClient-IsSafe : (t : Client) → IsClient t → IsSafe t
IsClient-IsSafe t c = record {
  nonzero =
      All-map (Held t.pool) _ (λ a h. omega (arith, h.at, h.in_use.listed.placed)) t.live c.held;
  clear =
      All-map (Held t.pool) _
        (λ a g. All-map (Held t.pool) _ (λ b h. Held-Clear t.pool a b c.apart g h) t.live c.held)
        t.live c.held;
  once = c.once;
  accepted =
      All-map (Held t.pool) _ (λ a h. (deallocate-held t.pool a c.pool c.apart h).0) t.live c.held;
}

-- An allocator that its constructor and `Initialize` have made, and no block in use.
abbrev pub start : ℕ → ℕ → Client
start bs page = record { pool = initialize bs page blank; live = [] }

start-IsClient : (bs page : ℕ) → 0 < bs → IsClient (start bs page)
unfolding initialize
start-IsClient bs page h = record {
  pool = initialize-IsPool bs page blank h refl refl refl refl refl;
  apart = λ i j p q ne. absurd (omega arith);
  held = tt;
  once = tt;
}

-- From an allocator that the constructor and `Initialize` have made for blocks of at least one
-- byte, whatever its users do in whatever order (take a block, where `new` answers no memory or
-- memory above 0 that no chunk overlaps, and does not answer no memory for a chunk just after the
-- vector of an allocator with chunks has moved, write any byte of a block in use, give a block in
-- use back with no hint), no block in use is NULL, no two of them overlap, none is handed out
-- twice, and `Deallocate` answers true for each.
pub Reach-IsSafe : (bs page : ℕ) {t : Client} → 0 < bs → Reach (start bs page) t → IsSafe t
Reach-IsSafe bs page {t} h r = IsClient-IsSafe t (Reach-IsClient (start-IsClient bs page h) r)
