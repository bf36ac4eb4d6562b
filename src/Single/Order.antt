-- ===== src/Single/Order.antt =====
-- The order of the lifetime trackers that `std::upper_bound` keeps (src/single.cpp), and what turning
-- it round makes of it.
use qth_frame.Base.{
  ℕ, suc, ◌+◌, ◌≤◌, ◌≡◌, refl, ap, true, false, List, [], ◌∷◌, ◌++◌, length, if◌then◌else◌, arith,
  Bool-cases, ◌==◌, inl, inr, All,
}
use qth_frame.Single.{Tracker, compare, insert}

-- Longer lives stand before shorter ones.
abbrev pub IsFalling : List Tracker → Type 0
IsFalling [] = Unit
IsFalling (p ∷ ps) = All (λ (q : Tracker). q.longevity ≤ p.longevity) ps × IsFalling ps

abbrev pub IsRising : List Tracker → Type 0
IsRising [] = Unit
IsRising (p ∷ ps) = All (λ (q : Tracker). p.longevity ≤ q.longevity) ps × IsRising ps

All-insert :
    (n : ℕ) (p : Tracker) (ps : List Tracker)
    → p.longevity ≤ n
    → All (λ (q : Tracker). q.longevity ≤ n) ps
    → All (λ (q : Tracker). q.longevity ≤ n) (insert p ps)
unfolding insert
All-insert n p [] h a = (h, tt)
All-insert n p (q ∷ qs) h a = elim (Bool-cases (compare p q)) [
  | inl e ↦ rw e (h, (a.0, a.1))
  | inr e ↦ rw e (a.0, All-insert n p qs h a.1)
]

-- What holds of the new tracker and of all others holds of all.
pub All-inserted :
    (P : Tracker → Type 0) (p : Tracker) (ps : List Tracker) → P p → All P ps → All P (insert p ps)
unfolding insert
All-inserted P p [] h a = (h, tt)
All-inserted P p (q ∷ qs) h a = elim (Bool-cases (compare p q)) [
  | inl e ↦ rw e (h, (a.0, a.1))
  | inr e ↦ rw e (a.0, All-inserted P p qs h a.1)
]

All-weaken :
    (m n : ℕ) (ps : List Tracker)
    → m ≤ n
    → All (λ (q : Tracker). q.longevity ≤ m) ps
    → All (λ (q : Tracker). q.longevity ≤ n) ps
All-weaken m n [] h a = tt
All-weaken m n (p ∷ ps) h a = (omega (arith, a.0), All-weaken m n ps h a.1)

compare-lt : (p q : Tracker) → compare p q ≡ true → q.longevity ≤ p.longevity
unfolding compare
compare-lt p q e = ground arith

compare-ge : (p q : Tracker) → compare p q ≡ false → p.longevity ≤ q.longevity
unfolding compare
compare-ge p q e = ground arith

pub insert-IsFalling : (p : Tracker) (ps : List Tracker) → IsFalling ps → IsFalling (insert p ps)
unfolding insert
insert-IsFalling p [] f = (tt, tt)
insert-IsFalling p (q ∷ qs) f = elim (Bool-cases (compare p q)) [
  | inl e ↦
      rw e ((compare-lt p q e, All-weaken q.longevity p.longevity qs (compare-lt p q e) f.0), f)
  | inr e ↦ rw e (All-insert q.longevity p qs (compare-ge p q e) f.0, insert-IsFalling p qs f.1)
]

pub length-insert : (p : Tracker) (ps : List Tracker) → length (insert p ps) ≡ suc (length ps)
unfolding insert
length-insert p [] = refl
length-insert p (q ∷ qs) = elim (Bool-cases (compare p q)) [
  | inl e ↦ rw e refl
  | inr e ↦ rw e (ap suc (length-insert p qs))
]

-- How many of the trackers are for class `k`.
abbrev pub times : ℕ → List Tracker → ℕ
times k [] = 0
times k (p ∷ ps) = (if p.object == k then 1 else 0) + times k ps

pub times-insert :
    (k : ℕ) (p : Tracker) (ps : List Tracker) → times k (insert p ps) ≡ times k (p ∷ ps)
unfolding insert
times-insert k p [] = refl
times-insert k p (q ∷ qs) = elim (Bool-cases (compare p q)) [
  | inl e ↦ rw e refl
  | inr e ↦ rw e (omega (arith, times-insert k p qs))
]

-- The last elements first.
abbrev pub reversed : List Tracker → List Tracker
reversed [] = []
reversed (p ∷ ps) = reversed ps ++ p ∷ []

times-append : (k : ℕ) (ps qs : List Tracker) → times k (ps ++ qs) ≡ times k ps + times k qs
times-append k [] qs = omega arith
times-append k (p ∷ ps) qs = omega (arith, times-append k ps qs)

pub times-reversed : (k : ℕ) (ps : List Tracker) → times k (reversed ps) ≡ times k ps
times-reversed k [] = refl
times-reversed k (p ∷ ps) =
    omega (arith, times-append k (reversed ps) (p ∷ []), times-reversed k ps)

All-append :
    (P : Tracker → Type 0) (ps : List Tracker) (p : Tracker) → All P ps → P p → All P (ps ++ p ∷ [])
All-append P [] p a h = (h, tt)
All-append P (q ∷ qs) p a h = (a.0, All-append P qs p a.1 h)

-- An element at the end, above all others.
IsRising-append :
    (ps : List Tracker) (p : Tracker)
    → IsRising ps
    → All (λ (q : Tracker). q.longevity ≤ p.longevity) ps
    → IsRising (ps ++ p ∷ [])
IsRising-append [] p r a = (tt, tt)
IsRising-append (q ∷ qs) p r a = (
  All-append (λ (s : Tracker). q.longevity ≤ s.longevity) qs p r.0 a.0,
  IsRising-append qs p r.1 a.1,
)

pub All-reversed : (P : Tracker → Type 0) (ps : List Tracker) → All P ps → All P (reversed ps)
All-reversed P [] a = tt
All-reversed P (p ∷ ps) a = All-append P (reversed ps) p (All-reversed P ps a.1) a.0

pub reversed-IsRising : (ps : List Tracker) → IsFalling ps → IsRising (reversed ps)
reversed-IsRising [] f = tt
reversed-IsRising (p ∷ ps) f =
    IsRising-append (reversed ps) p (reversed-IsRising ps f.1) (All-reversed _ ps f.0)
