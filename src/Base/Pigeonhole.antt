-- ===== src/Base/Pigeonhole.antt =====
-- Distinct numbers below a bound are no more than the bound.
use qth_frame.Base.{
  ℕ, zero, suc, ◌≤◌, ◌<◌, ◌≡◌, refl, ap, sym, subst, ◌≢◌, ◌⊎◌, List, [], ◌∷◌, arith, length, All,
  Lacks, Distinct, ◌==◌, ==_iff, Bool-cases, inl, inr, if◌then◌else◌,
}

-- `xs` without `n`.
pub without : ℕ → List ℕ → List ℕ
without n [] = []
without n (x ∷ xs) = if x == n then without n xs else x ∷ without n xs

without-All : (n : ℕ) (xs : List ℕ) → All (λ x. x < suc n) xs → All (λ x. x < n) (without n xs)
unfolding without
without-All n [] h = tt
without-All n (x ∷ xs) h = elim (Bool-cases (x == n)) [
  | inl e ↦ rw e (without-All n xs h.1)
  | inr e ↦ rw e (ground arith, without-All n xs h.1)
]

pub Lacks-without : (n a : ℕ) (xs : List ℕ) → Lacks a xs → Lacks a (without n xs)
unfolding without
Lacks-without n a [] h = tt
Lacks-without n a (x ∷ xs) h = elim (Bool-cases (x == n)) [
  | inl e ↦ rw e (Lacks-without n a xs h.1)
  | inr e ↦ rw e (h.0, Lacks-without n a xs h.1)
]

pub without-Distinct : (n : ℕ) (xs : List ℕ) → Distinct xs → Distinct (without n xs)
unfolding without
without-Distinct n [] h = tt
without-Distinct n (x ∷ xs) h = elim (Bool-cases (x == n)) [
  | inl e ↦ rw e (without-Distinct n xs h.1)
  | inr e ↦ rw e (Lacks-without n x xs h.0, without-Distinct n xs h.1)
]

without-absent : (n : ℕ) (xs : List ℕ) → Lacks n xs → without n xs ≡ xs
unfolding without
without-absent n [] h = refl
without-absent n (x ∷ xs) h = ground (arith, h.0, without-absent n xs h.1)

pub length-without : (n : ℕ) (xs : List ℕ) → Distinct xs → length xs ≤ suc (length (without n xs))
unfolding without
length-without n [] h = omega arith
length-without n (x ∷ xs) h = elim (Bool-cases (x == n)) [
  | inl e ↦ rw e (
      let p : x ≡ n = (==_iff x n).0 e in
      omega (arith, ap length (without-absent n xs (subst (λ t. Lacks t xs) p h.0))))
  | inr e ↦ rw e (omega (arith, length-without n xs h.1))
]

-- Distinct numbers below `n` are at most `n`.
pub pigeonhole : (n : ℕ) (xs : List ℕ) → All (λ x. x < n) xs → Distinct xs → length xs ≤ n
pigeonhole zero [] h d = omega arith
pigeonhole zero (x ∷ xs) h d = absurd (omega arith)
pigeonhole (suc n) xs h d = omega (
  arith,
  length-without n xs d,
  pigeonhole n (without n xs) (without-All n xs h) (without-Distinct n xs d),
)

-- Membership by recursion.
abbrev pub Holds : ℕ → List ℕ → Type 0
Holds a [] = ⊥
Holds a (x ∷ xs) = (a ≡ x) ⊎ Holds a xs

pub All-Holds {κ} : (P : ℕ → Type κ) (a : ℕ) (xs : List ℕ) → All P xs → Holds a xs → P a
All-Holds P a [] h m = elim m [ ]
All-Holds P a (x ∷ xs) h (inl e) = subst P (sym e) h.0
All-Holds P a (x ∷ xs) h (inr m) = All-Holds P a xs h.1 m

-- What holds of each element of `xs` holds of those kept, which also differ from `n`.
pub All-without {κ} :
    (P : ℕ → Type κ) (n : ℕ) (xs : List ℕ) → All P xs → All (λ x. (x ≢ n) × P x) (without n xs)
unfolding without
All-without P n [] h = tt
All-without P n (x ∷ xs) h = elim (Bool-cases (x == n)) [
  | inl e ↦ rw e (All-without P n xs h.1)
  | inr e ↦ rw e ((λ q. ground arith, h.0), All-without P n xs h.1)
]

pub All-map {κ μ} :
    (P : ℕ → Type κ) (Q : ℕ → Type μ) → ((x : ℕ) → P x → Q x) → (xs : List ℕ) → All P xs → All Q xs
All-map P Q f [] h = tt
All-map P Q f (x ∷ xs) h = (f x h.0, All-map P Q f xs h.1)

length-without-le : (n : ℕ) (xs : List ℕ) → length (without n xs) ≤ length xs
unfolding without
length-without-le n [] = omega arith
length-without-le n (x ∷ xs) = ground (arith, length-without-le n xs)

pub length-without-lt : (n : ℕ) (xs : List ℕ) → Holds n xs → length (without n xs) < length xs
unfolding without
length-without-lt n [] m = elim m [ ]
length-without-lt n (x ∷ xs) (inl e) = ground (arith, length-without-le n xs)
length-without-lt n (x ∷ xs) (inr m) = ground (arith, length-without-lt n xs m)
