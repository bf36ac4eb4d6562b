-- ===== src/Memory/Fixed/Vicinity.antt =====
-- `FixedAllocator::VicinityFind` of src/SmallObj.cpp: the search both ways.
use qth_frame.Base.{
  ℕ, zero, suc, ◌+◌, ◌-◌, ◌≤◌, ◌<◌, ◌≡◌, ◌≢◌, Bool, true, false, Option, none, some, arith, length,
  Bool-cases, inl, inr, ==_iff, ℕ_discrete, ◌==◌,
}
use qth_frame.Memory.Fixed.{
  Fixed, Round, found, missing, again, high_round, vicinity_round, vicinity_loop, vicinity_from,
  vicinity_find, holds_block,
}

-- The chunks below `low_end lo` and those from `high_end n hi` on are still to be searched.
abbrev pub low_end : Option ℕ → ℕ
low_end none = 0
low_end (some l) = l + 1

abbrev pub high_end : ℕ → Option ℕ → ℕ
high_end n none = n
high_end n (some h) = h

-- An answer of a search for an index below `n` that passes the test.
abbrev pub Answers : (ℕ → Bool) → ℕ → Option (Option ℕ) → Type 0
Answers test n none = ⊥
Answers test n (some none) = (i : ℕ) → i < n → test i ≡ false
Answers test n (some (some i)) = (i < n) × (test i ≡ true)

module _ (test : ℕ → Bool) (n : ℕ) where
  abbrev Searched : Option ℕ → Option ℕ → Type 0
  Searched lo hi = (i : ℕ) → low_end lo ≤ i → i < high_end n hi → test i ≡ false

  -- The ends stand where chunks are.
  abbrev Bounded : Option ℕ → Option ℕ → Type 0
  Bounded lo none = low_end lo ≤ n
  Bounded lo (some h) = (low_end lo ≤ h) × (h < n)

  abbrev left_over : Option ℕ → Option ℕ → ℕ
  left_over lo hi = low_end lo + (n - high_end n hi)

  abbrev Progress : ℕ → Round → Type 0
  Progress m (found i) = (i < n) × (test i ≡ true)
  Progress m missing = (i : ℕ) → i < n → test i ≡ false
  Progress m (again lo hi) =
      Searched lo hi × Bounded lo hi × (left_over lo hi < m) × (0 < left_over lo hi)

  -- One more index that fails the test widens what is searched.
  widen-high :
      (lo : Option ℕ) (h : ℕ)
      → Searched lo (some h)
      → test h ≡ false
      → (i : ℕ) → low_end lo ≤ i
      → i < h + 1
      → test i ≡ false
  widen-high lo h s e i a b = elim (ℕ_discrete i h) [ yes p ↦ rw p e | no p ↦ s i a (omega arith) ]

  widen-low :
      (l : ℕ) (hi : Option ℕ)
      → Searched (some l) hi
      → test l ≡ false
      → (i : ℕ) → l ≤ i
      → i < high_end n hi
      → test i ≡ false
  widen-low l hi s e i a b = elim (ℕ_discrete i l) [ yes p ↦ rw p e | no p ↦ s i (omega arith) b ]

  high_round-Progress :
      (lo : Option ℕ) (h : ℕ)
      → Searched lo (some h)
      → Bounded lo (some h)
      → Progress (left_over lo (some h)) (high_round test n lo (some h))
  unfolding high_round
  high_round-Progress none h s b = elim (Bool-cases (test h)) [
    | inl e ↦ rw e (b.1, e)
    | inr e ↦ elim (Bool-cases (h + 1 == n)) [
      | inl q ↦
          let q' : h + 1 ≡ n = (==_iff (h + 1) n).0 q in
          rw (e, q) (λ i k. widen-high none h s e i (omega arith) (omega arith))
      | inr q ↦
          rw (e, q)
            (widen-high none h s e, (ground arith, ground arith), ground arith, ground arith)
    ]
  ]
  high_round-Progress (some l) h s b = elim (Bool-cases (test h)) [
    | inl e ↦ rw e (b.1, e)
    | inr e ↦ elim (Bool-cases (h + 1 == n)) [
      | inl q ↦
          let q' : h + 1 ≡ n = (==_iff (h + 1) n).0 q in
          rw (e, q)
            (
              (λ i a k. widen-high (some l) h s e i a (omega arith)),
              omega arith,
              omega arith,
              omega arith,
            )
      | inr q ↦
          rw (e, q)
            (widen-high (some l) h s e, (ground arith, ground arith), ground arith, ground arith)
    ]
  ]

  Progress-mono : (m k : ℕ) (r : Round) → m ≤ k → Progress m r → Progress k r
  Progress-mono m k (found i) h p = p
  Progress-mono m k missing h p = p
  Progress-mono m k (again lo hi) h p = (p.0, p.1, omega arith, p.3)

  -- The round after the step down to `lo`, where `hi` is what remains above.
  after_low :
      (lo : Option ℕ) (hi : Option ℕ) (m : ℕ)
      → Searched lo hi
      → Bounded lo hi
      → left_over lo hi < m
      → 0 < low_end lo
      → Progress m (high_round test n lo hi)
  unfolding high_round
  after_low lo none m s b h k = (s, b, h, omega arith)
  after_low lo (some h') m s b h k =
      Progress-mono (left_over lo (some h')) m (high_round test n lo (some h')) (omega arith)
        (high_round-Progress lo h' s b)

  low_step :
      (l : ℕ) (hi : Option ℕ)
      → test l ≡ false
      → l ≢ 0
      → Searched (some l) hi
      → Bounded (some l) hi
      → Progress (left_over (some l) hi) (high_round test n (some (l - 1)) hi)
  low_step l none e q s b =
      after_low (some (l - 1)) none (left_over (some l) none)
        (λ i a k. widen-low l none s e i (omega arith) k) (omega arith) (omega arith) (omega arith)
  low_step l (some h) e q s b =
      after_low (some (l - 1)) (some h) (left_over (some l) (some h))
        (λ i a k. widen-low l (some h) s e i (omega arith) k) (omega arith) (omega arith)
        (omega arith)

  vicinity_round-Progress :
      (lo hi : Option ℕ)
      → Searched lo hi
      → Bounded lo hi
      → 0 < left_over lo hi
      → Progress (left_over lo hi) (vicinity_round test n lo hi)
  unfolding vicinity_round
  vicinity_round-Progress none none s b k = absurd (omega arith)
  vicinity_round-Progress none (some h) s b k = high_round-Progress none h s b
  vicinity_round-Progress (some l) none s b k = elim (Bool-cases (test l)) [
    | inl e ↦ rw e (omega arith, e)
    | inr e ↦ elim (Bool-cases (l == 0)) [
      | inl q ↦
          let q' : l ≡ 0 = (==_iff l 0).0 q in
          rw (e, q) (λ i a. widen-low l none s e i (omega arith) a)
      | inr q ↦ rw (e, q) (low_step l none e (ground arith) s b)
    ]
  ]
  vicinity_round-Progress (some l) (some h) s b k = elim (Bool-cases (test l)) [
    | inl e ↦ rw e (omega arith, e)
    | inr e ↦ elim (Bool-cases (l == 0)) [
      | inl q ↦
          let q' : l ≡ 0 = (==_iff l 0).0 q in
          rw (e, q)
            (Progress-mono (left_over none (some h)) _ (high_round test n none (some h))
              (omega arith)
              (high_round-Progress none h (λ i a k. widen-low l (some h) s e i (omega arith) k)
                (omega arith, b.1)))
      | inr q ↦ rw (e, q) (low_step l (some h) e (ground arith) s b)
    ]
  ]

  -- What the loop answers, once its round is known.
  abbrev after_round : ℕ → Round → Option (Option ℕ)
  after_round fuel r = elim r [
    | found i ↦ some (some i)
    | missing ↦ some none
    | again lo' hi' ↦ vicinity_loop test n fuel lo' hi'
  ]

  after_round-Answers :
      (fuel m : ℕ) (r : Round)
      → m ≤ suc fuel
      → ((lo hi : Option ℕ)
          → Searched lo hi
          → Bounded lo hi
          → 0 < left_over lo hi
          → left_over lo hi ≤ fuel
          → Answers test n (vicinity_loop test n fuel lo hi))
      → Progress m r
      → Answers test n (after_round fuel r)
  after_round-Answers fuel m (found i) h ih p = p
  after_round-Answers fuel m missing h ih p = p
  after_round-Answers fuel m (again lo hi) h ih p = ih lo hi p.0 p.1 p.3 (omega arith)

  vicinity_loop-Answers :
      (fuel : ℕ) (lo hi : Option ℕ)
      → Searched lo hi
      → Bounded lo hi
      → 0 < left_over lo hi
      → left_over lo hi ≤ fuel
      → Answers test n (vicinity_loop test n fuel lo hi)
  unfolding vicinity_loop
  vicinity_loop-Answers zero lo hi s b k h = absurd (omega arith)
  vicinity_loop-Answers (suc fuel) lo hi s b k h =
      after_round-Answers fuel (left_over lo hi) (vicinity_round test n lo hi) h
        (vicinity_loop-Answers fuel) (vicinity_round-Progress lo hi s b k)

-- From any chunk the search ends, and answers a chunk with the address exactly when there is one.
vicinity_from-Answers :
    (p d : ℕ) (s : Fixed)
    → d < length s.chunks
    → Answers (holds_block p s) (length s.chunks) (vicinity_from p s d)
vicinity_from-Answers p d s h = elim (Bool-cases (d + 1 == length s.chunks)) [
  | inl q ↦
      let q' : d + 1 ≡ length s.chunks = (==_iff (d + 1) (length s.chunks)).0 q in
      rw q (
        vicinity_loop-Answers (holds_block p s) (length s.chunks) (length s.chunks + 1) (some d)
          none (λ i a b. absurd (omega arith)) (omega arith) (omega arith) (omega arith))
  | inr q ↦ rw q (
      vicinity_loop-Answers (holds_block p s) (length s.chunks) (length s.chunks + 1) (some d)
        (some (d + 1)) (λ i a b. absurd (omega arith)) (ground arith, ground arith) (ground arith)
        (ground arith))
]

-- Where `deallocChunk_` points to a chunk of the vector, the search that goes both ways from there
-- ends, and it answers a chunk that holds the address if there is one and NULL if no chunk holds
-- it.
pub vicinity_find-Answers :
    (p d : ℕ) (s : Fixed)
    → s.dealloc_chunk ≡ some d
    → d < length s.chunks
    → Answers (holds_block p s) (length s.chunks) (vicinity_find p s)
unfolding vicinity_find
vicinity_find-Answers p d s e h =
    let z : (length s.chunks == 0) ≡ false = ground arith in
    rw z (rw e (vicinity_from-Answers p d s h))
