-- ===== src/Factory/Lookup.antt =====
-- The map of `Factory` (include/utility/objFactory.h) after `Register` and `Unregister`.
use qth_frame.Base.{
  ℕ, true, false, ◌≤◌, ◌<◌, ◌≡◌, ◌≢◌, refl, sym, ap, ◌∙◌, subst, Option, none, some, List, [], ◌∷◌,
  ltb, ◌==◌, arith, ℕ_discrete, dec_lt, All,
}
use qth_frame.Factory.{find_creator, register, unregister}

module _ {C : Type 0} where
  -- The creator that is there, or else the new one.
  abbrev pub or_new : Option C → C → Option C
  or_new none c = some c
  or_new (some d) c = some d

  abbrev pub Above : ℕ → List (ℕ × C) → Type 0
  Above k m = All (λ (e : ℕ × C). k < e.0) m

  abbrev pub Ascending : List (ℕ × C) → Type 0
  Ascending [] = Unit
  Ascending (e ∷ m) = Above e.0 m × Ascending m

  Above-lt : (i k : ℕ) (m : List (ℕ × C)) → i < k → Above k m → Above i m
  Above-lt i k [] h a = tt
  Above-lt i k (e ∷ m) h a = (omega arith, Above-lt i k m h a.1)

  pub find_creator-same :
      (i k : ℕ) (c : C) (m : List (ℕ × C)) → i ≡ k → find_creator i ((k, c) ∷ m) ≡ some c
  unfolding find_creator
  find_creator-same i k c m e = let t : (i == k) ≡ true = ground arith in rw (find_creator, t) refl

  pub find_creator-other :
      (i k : ℕ) (c : C) (m : List (ℕ × C)) → i ≢ k → find_creator i ((k, c) ∷ m) ≡ find_creator i m
  unfolding find_creator
  find_creator-other i k c m e =
      let t : (i == k) ≡ false = ground arith in rw (find_creator, t) refl

  pub find_creator-Above :
      (i k : ℕ) (m : List (ℕ × C)) → i ≤ k → Above k m → find_creator i m ≡ none
  unfolding find_creator
  find_creator-Above i k [] h a = refl
  find_creator-Above i k ((j, c) ∷ m) h a =
      find_creator-other i j c m (omega (arith, a.0)) ∙ find_creator-Above i k m h a.1

  -- What two lists agree on, they agree on behind one more entry.
  pub find_creator-tail :
      (k j : ℕ) (d : C) (m n : List (ℕ × C))
      → find_creator k m ≡ find_creator k n
      → find_creator k ((j, d) ∷ m) ≡ find_creator k ((j, d) ∷ n)
  find_creator-tail k j d m n e = elim (ℕ_discrete k j) [
    | yes q ↦ find_creator-same k j d m q ∙ sym (find_creator-same k j d n q)
    | no q ↦ find_creator-other k j d m q ∙ e ∙ sym (find_creator-other k j d n q)
  ]

  module _ (i : ℕ) (c : C) where
    pub register-before :
        (k : ℕ) (d : C) (m : List (ℕ × C)) → i < k → register i c ((k, d) ∷ m) ≡ (i, c) ∷ (k, d) ∷ m
    unfolding register
    register-before k d m h = let t : ltb i k ≡ true = ground arith in rw (register, t) refl

    pub register-there :
        (k : ℕ) (d : C) (m : List (ℕ × C)) → i ≡ k → register i c ((k, d) ∷ m) ≡ (k, d) ∷ m
    unfolding register
    register-there k d m h =
        let t : ltb i k ≡ false = ground arith in
        let s : (i == k) ≡ true = ground arith in rw (register, t, s) refl

    pub register-after :
        (k : ℕ) (d : C) (m : List (ℕ × C))
        → k < i
        → register i c ((k, d) ∷ m) ≡ (k, d) ∷ register i c m
    unfolding register
    register-after k d m h =
        let t : ltb i k ≡ false = ground arith in
        let s : (i == k) ≡ false = ground arith in rw (register, t, s) refl

    pub register-Above : (k : ℕ) (m : List (ℕ × C)) → k < i → Above k m → Above k (register i c m)
    unfolding register
    register-Above k [] h a = (h, tt)
    register-Above k ((j, d) ∷ m) h a = elim (dec_lt i j) [
      | yes p ↦ subst (Above k) (sym (register-before j d m p)) (h, (a.0, a.1))
      | no p ↦ elim (ℕ_discrete i j) [
        | yes e ↦ subst (Above k) (sym (register-there j d m e)) a
        | no e ↦
            subst (Above k) (sym (register-after j d m (omega arith)))
              (a.0, register-Above k m h a.1)
      ]
    ]

    pub register-Ascending : (m : List (ℕ × C)) → Ascending m → Ascending (register i c m)
    unfolding register
    register-Ascending [] a = (tt, tt)
    register-Ascending ((j, d) ∷ m) a = elim (dec_lt i j) [
      | yes p ↦
          subst Ascending (sym (register-before j d m p)) ((p, Above-lt i j m p a.0), (a.0, a.1))
      | no p ↦ elim (ℕ_discrete i j) [
        | yes e ↦ subst Ascending (sym (register-there j d m e)) a
        | no e ↦
            subst Ascending (sym (register-after j d m (omega arith)))
              (register-Above j m (omega arith) a.0, register-Ascending m a.1)
      ]
    ]

    pub find_creator-register_self :
        (m : List (ℕ × C))
        → Ascending m
        → find_creator i (register i c m) ≡ or_new (find_creator i m) c
    unfolding register find_creator
    find_creator-register_self [] a = find_creator-same i i c [] refl
    find_creator-register_self ((j, d) ∷ m) a = elim (dec_lt i j) [
      | yes p ↦
          ap (find_creator i) (register-before j d m p)
          ∙ find_creator-same i i c ((j, d) ∷ m) refl
          ∙ ap (λ o. or_new o c)
              (sym (
                find_creator-other i j d m (omega arith)
                ∙ find_creator-Above i j m (omega arith) a.0))
      | no p ↦ elim (ℕ_discrete i j) [
        | yes e ↦
            ap (find_creator i) (register-there j d m e)
            ∙ find_creator-same i j d m e
            ∙ ap (λ o. or_new o c) (sym (find_creator-same i j d m e))
        | no e ↦
            ap (find_creator i) (register-after j d m (omega arith))
            ∙ find_creator-other i j d (register i c m) e
            ∙ find_creator-register_self m a.1
            ∙ ap (λ o. or_new o c) (sym (find_creator-other i j d m e))
      ]
    ]

    pub find_creator-register_other :
        (k : ℕ) (m : List (ℕ × C)) → k ≢ i → find_creator k (register i c m) ≡ find_creator k m
    unfolding register find_creator
    find_creator-register_other k [] h = find_creator-other k i c [] h
    find_creator-register_other k ((j, d) ∷ m) h = elim (dec_lt i j) [
      | yes p ↦
          ap (find_creator k) (register-before j d m p) ∙ find_creator-other k i c ((j, d) ∷ m) h
      | no p ↦ elim (ℕ_discrete i j) [
        | yes e ↦ ap (find_creator k) (register-there j d m e)
        | no e ↦
            ap (find_creator k) (register-after j d m (omega arith))
            ∙ find_creator-tail k j d (register i c m) m (find_creator-register_other k m h)
      ]
    ]

  -- `Unregister` takes the identifier away, and no other.
  pub unregister-there :
      (i k : ℕ) (d : C) (m : List (ℕ × C)) → i ≡ k → unregister i ((k, d) ∷ m) ≡ m
  unfolding unregister
  unregister-there i k d m h = let s : (i == k) ≡ true = ground arith in rw (unregister, s) refl

  pub unregister-after :
      (i k : ℕ) (d : C) (m : List (ℕ × C))
      → i ≢ k
      → unregister i ((k, d) ∷ m) ≡ (k, d) ∷ unregister i m
  unfolding unregister
  unregister-after i k d m h = let s : (i == k) ≡ false = ground arith in rw (unregister, s) refl

  pub unregister-Above : (i k : ℕ) (m : List (ℕ × C)) → Above k m → Above k (unregister i m)
  unfolding unregister
  unregister-Above i k [] a = tt
  unregister-Above i k ((j, d) ∷ m) a = elim (ℕ_discrete i j) [
    | yes e ↦ subst (Above k) (sym (unregister-there i j d m e)) a.1
    | no e ↦ subst (Above k) (sym (unregister-after i j d m e)) (a.0, unregister-Above i k m a.1)
  ]

  pub unregister-Ascending : (i : ℕ) (m : List (ℕ × C)) → Ascending m → Ascending (unregister i m)
  unfolding unregister
  unregister-Ascending i [] a = tt
  unregister-Ascending i ((j, d) ∷ m) a = elim (ℕ_discrete i j) [
    | yes e ↦ subst Ascending (sym (unregister-there i j d m e)) a.1
    | no e ↦
        subst Ascending (sym (unregister-after i j d m e))
          (unregister-Above i j m a.0, unregister-Ascending i m a.1)
  ]

  pub find_creator-unregister_self :
      (i : ℕ) (m : List (ℕ × C)) → Ascending m → find_creator i (unregister i m) ≡ none
  unfolding unregister find_creator
  find_creator-unregister_self i [] a = refl
  find_creator-unregister_self i ((j, d) ∷ m) a = elim (ℕ_discrete i j) [
    | yes e ↦
        ap (find_creator i) (unregister-there i j d m e)
        ∙ find_creator-Above i j m (omega arith) a.0
    | no e ↦
        ap (find_creator i) (unregister-after i j d m e)
        ∙ find_creator-other i j d (unregister i m) e
        ∙ find_creator-unregister_self i m a.1
  ]

  pub find_creator-unregister_other :
      (i k : ℕ) (m : List (ℕ × C)) → k ≢ i → find_creator k (unregister i m) ≡ find_creator k m
  unfolding unregister find_creator
  find_creator-unregister_other i k [] h = refl
  find_creator-unregister_other i k ((j, d) ∷ m) h = elim (ℕ_discrete i j) [
    | yes e ↦
        ap (find_creator k) (unregister-there i j d m e)
        ∙ sym (find_creator-other k j d m (λ q. h (q ∙ sym e)))
    | no e ↦
        ap (find_creator k) (unregister-after i j d m e)
        ∙ find_creator-tail k j d (unregister i m) m (find_creator-unregister_other i k m h)
  ]
