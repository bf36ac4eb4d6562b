-- ===== src/Memory/Fixed/Client/Giving.antt =====
-- `FixedAllocator::Deallocate` (src/SmallObj.cpp) among the blocks in use.
use qth_frame.Base.{
  ℕ, ◌+◌, ◌-◌, ◌<◌, ◌≡◌, ◌≢◌, refl, sym, ap, ◌∙◌, subst, inl, inr, Option, some, List, ◌∷◌, arith,
  length, length-set, set, Lacks, ℕ_discrete, Option-cases, Bool-cases, ◌==◌,
}
use qth_frame.Base.Pigeonhole.{pigeonhole}
use qth_frame.Memory.Chunk.{Chunk}
use qth_frame.Memory.Chunk
use qth_frame.Memory.Chunk.Free.{IsFreeList, deallocate-cons, deallocate-addr}
use qth_frame.Memory.Fixed.{Fixed, chunk_at, pop_chunk, move_to_end, retire_chunk, do_deallocate}
use qth_frame.Memory.Fixed.Pool.{available_at, IsPool, chunk_at-set_self, chunk_at-set_ne}
use qth_frame.Memory.Fixed.Move.{
  gone_chunk, source, target, moved-at, source_unique, source-lt, source-target, length-pop_chunk,
  length-move_to_end,
}
use qth_frame.Memory.Fixed.Retire.{IsBack}
use qth_frame.Memory.Fixed.Return.{
  InUse, block_addr, put_back, put_back-IsBack, do_deallocate-last, do_deallocate-first,
  do_deallocate-partly,
}
use qth_frame.Memory.Fixed.Client.{addr_at, Apart}
use qth_frame.Memory.Fixed.Client.Live.{Apart-same, IsFreeList-unique}

-- Block `y` of chunk `e` is still in use, in a chunk at the same address.
pub record IsKept (s t : Fixed) (e y : ℕ) : Type 0 where
  pub place : ℕ
  pub addr : addr_at t.chunks place ≡ addr_at s.chunks e
  pub in_use : InUse t place y

-- Between `s` and `t` only block `x` of chunk `d` has come back.
pub record IsFreed (s : Fixed) (d x : ℕ) (t : Fixed) : Type 0 where
  pub block_size : t.block_size ≡ s.block_size
  pub num_blocks : t.num_blocks ≡ s.num_blocks
  pub apart : Apart t
  pub kept : (e y : ℕ) → InUse s e y → (e ≡ d → y ≢ x) → IsKept s t e y

module _ (s : Fixed) (d x : ℕ) (u : InUse s d x) where
  abbrev returned : Chunk
  returned = Chunk.deallocate s.block_size (block_addr s d x) (chunk_at s.chunks d)

  returned_addr : (j : ℕ) → addr_at (set s.chunks d returned) j ≡ addr_at s.chunks j
  returned_addr j = elim (ℕ_discrete d j) [
    | yes e ↦
        subst (λ k. addr_at (set s.chunks d returned) k ≡ addr_at s.chunks k) e
          (ap (λ (c : Chunk). c.addr) (chunk_at-set_self s.chunks d returned u.inside)
            ∙ deallocate-addr s.block_size (block_addr s d x) (chunk_at s.chunks d))
    | no e ↦ ap (λ (c : Chunk). c.addr) (chunk_at-set_ne s.chunks d j returned e)
  ]

  returned_other : (e y : ℕ) → InUse s e y → d ≢ e → IsKept s (put_back (block_addr s d x) d s) e y
  unfolding put_back
  returned_other e y w ne = record {
    place = e;
    addr = returned_addr e;
    in_use = record {
      inside = omega (arith, w.inside, length-set s.chunks d returned);
      index = w.index;
      free = w.free;
      listed =
          subst (IsFreeList s.block_size s.num_blocks w.free)
            (sym (chunk_at-set_ne s.chunks d e returned ne)) w.listed;
      absent = w.absent;
    };
  }

  returned_same : (y : ℕ) → InUse s d y → y ≢ x → IsKept s (put_back (block_addr s d x) d s) d y
  unfolding put_back
  returned_same y w ne =
      let e =
        IsFreeList-unique s.block_size s.num_blocks w.free u.free (chunk_at s.chunks d) w.listed
          u.listed in
      record {
        place = d;
        addr = returned_addr d;
        in_use = record {
          inside = omega (arith, w.inside, length-set s.chunks d returned);
          index = w.index;
          free = x ∷ u.free;
          listed =
              subst (IsFreeList s.block_size s.num_blocks (x ∷ u.free))
                (sym (chunk_at-set_self s.chunks d returned u.inside))
                (deallocate-cons s.block_size s.num_blocks x u.free (chunk_at s.chunks d) u.listed
                  u.index u.absent);
          absent = ((λ q. ne (sym q)), subst (Lacks y) e w.absent);
        };
      }

  put_back-IsFreed : Apart s → IsFreed s d x (put_back (block_addr s d x) d s)
  unfolding put_back
  put_back-IsFreed a = record {
    block_size = refl;
    num_blocks = refl;
    apart =
        Apart-same s (put_back (block_addr s d x) d s) refl (length-set s.chunks d returned)
          (λ i k. returned_addr i) a;
    kept = λ e y w ne. elim (ℕ_discrete d e) [
      | yes q ↦
          subst (λ k. InUse s k y → IsKept s (put_back (block_addr s d x) d s) k y) q
            (λ v. returned_same y v (ne (sym q))) w
      | no q ↦ returned_other e y w q
    ];
  }

-- A chunk with a block in use is not wholly free.
InUse-partly : (s : Fixed) (e y : ℕ) → InUse s e y → available_at s.chunks e ≢ s.num_blocks
InUse-partly s e y w q = omega (
  arith,
  w.listed.counted,
  pigeonhole s.num_blocks (y ∷ w.free) (w.index, w.listed.in_range) (w.absent, w.listed.distinct),
)

module _ (e d : ℕ) (s : Fixed) (v : IsBack s d) (q : s.empty ≡ some e)
    (full : available_at s.chunks d ≡ s.num_blocks) where
  abbrev rest : List Chunk
  rest = pop_chunk (move_to_end e d s.chunks)

  shorter : length rest ≡ length s.chunks - 1
  shorter =
      length-pop_chunk (move_to_end e d s.chunks)
      ∙ ap (λ n. n - 1) (length-move_to_end e d s.chunks)

  apart_ends : e ≢ d
  apart_ends p = v.apart (q ∙ ap some p)

  gone_full : available_at s.chunks (gone_chunk e d s.chunks) ≡ s.num_blocks
  gone_full = elim (Bool-cases (length s.chunks - 1 == d)) [
    | inl p ↦ rw p full
    | inr p ↦ rw p (v.empty_in e q).1
  ]

  InUse-stays : (i y : ℕ) → InUse s i y → i ≢ gone_chunk e d s.chunks
  InUse-stays i y w g = InUse-partly s i y w (ap (available_at s.chunks) g ∙ gone_full)

  retire_chunk-IsKept : (i y : ℕ) → InUse s i y → IsKept s (retire_chunk e d s) i y
  unfolding retire_chunk
  retire_chunk-IsKept i y w =
      let n = length s.chunks in
      let (small, from) =
        source-target e d i s.chunks (v.empty_in e q).0 v.inside apart_ends w.inside
          (InUse-stays i y w) in
      let at : chunk_at rest (target e d n i) ≡ chunk_at s.chunks i =
        moved-at e d (target e d n i) s.chunks (v.empty_in e q).0 apart_ends small
        ∙ ap (chunk_at s.chunks) from in
      record {
        place = target e d n i;
        addr = ap (λ (c : Chunk). c.addr) at;
        in_use = record {
          inside = omega (arith, shorter);
          index = w.index;
          free = w.free;
          listed = subst (IsFreeList s.block_size s.num_blocks w.free) (sym at) w.listed;
          absent = w.absent;
        };
      }

  retire_chunk-Apart : Apart s → Apart (retire_chunk e d s)
  unfolding retire_chunk
  retire_chunk-Apart a i j k l ne =
      let n = length s.chunks in
      let k' : i + 1 < n = omega (arith, shorter) in
      let l' : j + 1 < n = omega (arith, shorter) in
      let p = moved-at e d i s.chunks (v.empty_in e q).0 apart_ends k' in
      let r = moved-at e d j s.chunks (v.empty_in e q).0 apart_ends l' in
      elim (a (source e d n i) (source e d n j) (source-lt e d n i k') (source-lt e d n j l')
        (λ t. ne (source_unique e d n i j k' l' t))) [
          | inl h ↦
              inl (omega (arith, h, ap (λ (c : Chunk). c.addr) p, ap (λ (c : Chunk). c.addr) r))
          | inr h ↦
              inr (omega (arith, h, ap (λ (c : Chunk). c.addr) p, ap (λ (c : Chunk). c.addr) r))
        ]

InUse-empty :
    (t : Fixed) (o : Option ℕ) (e y : ℕ) → InUse t e y → InUse (record t { empty = o }) e y
InUse-empty t o e y w = record {
  inside = w.inside;
  index = w.index;
  free = w.free;
  listed = w.listed;
  absent = w.absent;
}

IsFreed-empty :
    (s t : Fixed) (d x : ℕ) (o : Option ℕ)
    → IsFreed s d x t
    → IsFreed s d x (record t { empty = o })
IsFreed-empty s t d x o f = record {
  block_size = f.block_size;
  num_blocks = f.num_blocks;
  apart = f.apart;
  kept = λ e y w ne.
      let k = f.kept e y w ne in
      record { place = k.place; addr = k.addr; in_use = InUse-empty t o k.place y k.in_use };
}

IsFreed-retired :
    (s t : Fixed) (d x e : ℕ)
    → IsFreed s d x t
    → IsBack t d
    → t.empty ≡ some e
    → available_at t.chunks d ≡ t.num_blocks
    → IsFreed s d x (retire_chunk e d t)
unfolding retire_chunk
IsFreed-retired s t d x e f v q full = record {
  block_size = f.block_size;
  num_blocks = f.num_blocks;
  apart = retire_chunk-Apart e d t v q full f.apart;
  kept = λ i y w ne.
      let k = f.kept i y w ne in
      let l = retire_chunk-IsKept e d t v q full k.place y k.in_use in
      record { place = l.place; addr = l.addr ∙ k.addr; in_use = l.in_use };
}

pub do_deallocate-IsFreed :
    (d x : ℕ) (s : Fixed)
    → IsPool s
    → Apart s
    → InUse s d x
    → IsFreed s d x (do_deallocate (block_addr s d x) d s)
unfolding put_back
do_deallocate-IsFreed d x s v a u =
    let p = block_addr s d x in
    let t = put_back-IsFreed s d x u a in
    elim (ℕ_discrete (available_at (put_back p d s).chunks d) s.num_blocks) [
      | yes full ↦ elim (Option-cases s.empty) [
        | inl q ↦
            subst (IsFreed s d x) (sym (do_deallocate-first p d s full q u.inside))
              (IsFreed-empty s (put_back p d s) d x (some d) t)
        | inr (e, q) ↦
            subst (IsFreed s d x) (sym (do_deallocate-last p d s full e q u.inside))
              (IsFreed-retired s (put_back p d s) d x e t (put_back-IsBack d x s v u) q full)
      ]
      | no part ↦ subst (IsFreed s d x) (sym (do_deallocate-partly p d s part u.inside)) t
    ]
