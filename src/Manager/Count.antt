-- ===== src/Manager/Count.antt =====
-- The entries and counts of `CProcessorMgr` (src/processor_mgr.cpp) after calls of its users.
use qth_frame.Base.{
  ℕ, suc, ◌+◌, ◌-◌, ◌<◌, ◌≡◌, refl, ap, ◌∙◌, subst, true, false, Option, none, some, List, [], ◌∷◌,
  ◌++◌, ◌==◌, if◌then◌else◌, arith, Bool-cases, Option-cases, inl, inr, ==_iff,
}
use qth_frame.Manager.{
  Info, Manager, no_processors, put, alloc_processor, free_processor, Call, allocs, frees, serve,
}

-- The users of name `k` after the calls; a free with no user does nothing.
abbrev pub users : ℕ → List Call → ℕ → ℕ
users k [] n = n
users k (allocs j ∷ cs) n = users k cs (if j == k then n + 1 else n)
users k (frees j ∷ cs) n = users k cs (if j == k then n - 1 else n)

-- The entry of a name with `n` users.
abbrev pub IsCounted : Option Info → ℕ → Type 0
IsCounted none n = n ≡ 0
IsCounted (some i) n = (0 < n) × (i.ref_count ≡ n)

put_self : (f : ℕ → Option Info) (k : ℕ) (v : Option Info) → put f k v k ≡ v
put_self f k v = let e : (k == k) ≡ true = ground arith in rw e refl

put_other : (f : ℕ → Option Info) (k j : ℕ) (v : Option Info) → (k == j) ≡ false → put f k v j ≡ f j
put_other f k j v e = rw e refl

alloc_new :
    (k : ℕ) (m : Manager)
    → m.table k ≡ none
    → (alloc_processor k m).1 ≡ record m {
      table = put m.table k (some (record { processor = m.fresh; ref_count = 1 }));
      fresh = suc m.fresh;
    }
unfolding alloc_processor
alloc_new k m e = rw (alloc_processor, e) refl

alloc_old :
    (k : ℕ) (i : Info) (m : Manager)
    → m.table k ≡ some i
    → (alloc_processor k m).1
      ≡ record m { table = put m.table k (some (record i { ref_count = i.ref_count + 1 })) }
unfolding alloc_processor
alloc_old k i m e = rw (alloc_processor, e) refl

-- What an operation on name `k` does to the entries: that of `k` is `o`, the others stay.
abbrev Sets : ℕ → Option Info → Manager → Manager → Type 0
Sets k o m n = (n.table k ≡ o) × ((j : ℕ) → (k == j) ≡ false → n.table j ≡ m.table j)

alloc_processor-IsCounted :
    (k n : ℕ) (m : Manager)
    → IsCounted (m.table k) n
    → (o : Option Info) × Sets k o m (alloc_processor k m).1 × IsCounted o (n + 1)
alloc_processor-IsCounted k n m c = elim (Option-cases (m.table k)) [
  | inl e ↦ (
    some (record { processor = m.fresh; ref_count = 1 }),
    (
      ap (λ (s : Manager). s.table k) (alloc_new k m e) ∙ put_self m.table k _,
      λ j h. ap (λ (s : Manager). s.table j) (alloc_new k m e) ∙ put_other m.table k j _ h,
    ),
    (omega arith, omega (arith, subst (λ o. IsCounted o n) e c)),
  )
  | inr (i, e) ↦ (
    some (record i { ref_count = i.ref_count + 1 }),
    (
      ap (λ (s : Manager). s.table k) (alloc_old k i m e) ∙ put_self m.table k _,
      λ j h. ap (λ (s : Manager). s.table j) (alloc_old k i m e) ∙ put_other m.table k j _ h,
    ),
    (omega arith, omega (arith, (subst (λ o. IsCounted o n) e c).1)),
  )
]

free_none : (k : ℕ) (m : Manager) → m.table k ≡ none → free_processor k m ≡ m
unfolding free_processor
free_none k m e = rw (free_processor, e) refl

free_last :
    (k : ℕ) (i : Info) (m : Manager)
    → m.table k ≡ some i
    → i.ref_count ≡ 1
    → free_processor k m
      ≡ record m { table = put m.table k none; deleted = m.deleted ++ i.processor ∷ [] }
unfolding free_processor
free_last k i m e h =
    let q : (i.ref_count - 1 == 0) ≡ true = ground arith in rw (free_processor, e, q) refl

free_more :
    (k : ℕ) (i : Info) (m : Manager)
    → m.table k ≡ some i
    → 1 < i.ref_count
    → free_processor k m
      ≡ record m { table = put m.table k (some (record i { ref_count = i.ref_count - 1 })) }
unfolding free_processor
free_more k i m e h =
    let q : (i.ref_count - 1 == 0) ≡ false = ground arith in rw (free_processor, e, q) refl

free_processor-IsCounted :
    (k n : ℕ) (m : Manager)
    → IsCounted (m.table k) n
    → (o : Option Info) × Sets k o m (free_processor k m) × IsCounted o (n - 1)
free_processor-IsCounted k n m c = elim (Option-cases (m.table k)) [
  | inl e ↦ (
    none,
    (
      ap (λ (s : Manager). s.table k) (free_none k m e) ∙ e,
      λ j h. ap (λ (s : Manager). s.table j) (free_none k m e),
    ),
    omega (arith, subst (λ o. IsCounted o n) e c),
  )
  | inr (i, e) ↦
      (let d : (0 < n) × (i.ref_count ≡ n) = subst (λ o. IsCounted o n) e c in
        elim (Bool-cases (i.ref_count == 1)) [
          | inl q ↦
              let r : i.ref_count ≡ 1 = (==_iff i.ref_count 1).0 q in
              (
                none,
                (
                  ap (λ (s : Manager). s.table k) (free_last k i m e r) ∙ put_self m.table k none,
                  λ j h.
                      ap (λ (s : Manager). s.table j) (free_last k i m e r)
                      ∙ put_other m.table k j none h,
                ),
                omega (arith, d.1, r),
              )
          | inr q ↦
              let r : 1 < i.ref_count = ground (arith, d.0, d.1) in
              (
                some (record i { ref_count = i.ref_count - 1 }),
                (
                  ap (λ (s : Manager). s.table k) (free_more k i m e r) ∙ put_self m.table k _,
                  λ j h.
                      ap (λ (s : Manager). s.table j) (free_more k i m e r)
                      ∙ put_other m.table k j _ h,
                ),
                (omega (arith, d.1, r), omega (arith, d.1)),
              )
        ])
]

-- Every name is counted by `f`.
abbrev pub AllCounted : (ℕ → ℕ) → Manager → Type 0
AllCounted f m = (k : ℕ) → IsCounted (m.table k) (f k)

Sets-AllCounted :
    (j : ℕ) (g : ℕ → ℕ) (o : Option Info) (f : ℕ → ℕ) (m n : Manager)
    → Sets j o m n
    → IsCounted o (g (f j))
    → AllCounted f m
    → AllCounted (λ k. if j == k then g (f k) else f k) n
Sets-AllCounted j g o f m n s c a k = elim (Bool-cases (j == k)) [
  | inl q ↦
      let e : j ≡ k = (==_iff j k).0 q in
      let t : n.table k ≡ o = subst (λ i. n.table i ≡ o) e s.0 in
      rw (q, t) (subst (λ i. IsCounted o (g (f i))) e c)
  | inr q ↦ let t : n.table k ≡ m.table k = s.1 k q in rw (q, t) (a k)
]

serve-AllCounted :
    (cs : List Call) (f : ℕ → ℕ) (m : Manager)
    → AllCounted f m
    → AllCounted (λ k. users k cs (f k)) (serve cs m)
unfolding serve
serve-AllCounted [] f m a = a
serve-AllCounted (allocs j ∷ cs) f m a =
    let (o, s, c) = alloc_processor-IsCounted j (f j) m (a j) in
    serve-AllCounted cs (λ k. if j == k then f k + 1 else f k) (alloc_processor j m).1
      (Sets-AllCounted j (λ n. n + 1) o f m (alloc_processor j m).1 s c a)
serve-AllCounted (frees j ∷ cs) f m a =
    let (o, s, c) = free_processor-IsCounted j (f j) m (a j) in
    serve-AllCounted cs (λ k. if j == k then f k - 1 else f k) (free_processor j m)
      (Sets-AllCounted j (λ n. n - 1) o f m (free_processor j m) s c a)

-- After any calls of `AllocProcessor` and `FreeProcessor` on a manager with no processors, a name
-- has an entry exactly if it has been allocated more often than freed, where a free of a name with
-- no entry does not count, and the count of the entry is the difference.
pub serve-IsCounted :
    (cs : List Call) (k : ℕ) → IsCounted ((serve cs no_processors).table k) (users k cs 0)
serve-IsCounted cs k = serve-AllCounted cs (λ j. 0) no_processors (λ j. refl) k
