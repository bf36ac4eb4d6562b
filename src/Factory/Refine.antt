-- ===== src/Factory/Refine.antt =====
-- `Factory` (include/utility/objFactory.h) as a function from identifiers to creators.
use qth_frame.Base.{
  ℕ, true, false, ◌≤◌, ◌≡◌, refl, sym, ap, ◌∙◌, Option, none, some, List, [], ◌∷◌, ◌==◌, arith,
  if◌then◌else◌, ℕ_discrete, times,
}
use qth_frame.Factory.{
  find_creator, register, unregister, register_ids, Creation, made, ErrorPolicy, on_unknown_type,
  create_object,
}
use qth_frame.Factory.Lookup.{
  or_new, Above, Ascending, find_creator-same, find_creator-other, find_creator-Above,
  register-Ascending, find_creator-register_self, find_creator-register_other, unregister-Ascending,
  find_creator-unregister_self, find_creator-unregister_other,
}

-- A call of a user.
pub data Call (C : Type 0) : Type 0 where
  registers : ℕ → C → Call C
  unregisters : ℕ → Call C

module _ {C : Type 0} where
  abbrev pub serve : List (Call C) → List (ℕ × C) → List (ℕ × C)
  serve [] m = m
  serve (registers i c ∷ cs) m = serve cs (register i c m)
  serve (unregisters i ∷ cs) m = serve cs (unregister i m)

  -- The creator of identifier `j` after the calls, over the one before: the first that was registered
  -- since it was last unregistered.
  abbrev pub creator : ℕ → List (Call C) → Option C → Option C
  creator j [] o = o
  creator j (registers i c ∷ cs) o = creator j cs (if i == j then or_new o c else o)
  creator j (unregisters i ∷ cs) o = creator j cs (if i == j then none else o)

  -- The map is in order, and has the creator of each identifier.
  abbrev IsMap : List (ℕ × C) → (ℕ → Option C) → Type 0
  IsMap m f = Ascending m × ((j : ℕ) → find_creator j m ≡ f j)

  serve-IsMap :
      (cs : List (Call C)) (m : List (ℕ × C)) (f : ℕ → Option C)
      → IsMap m f
      → IsMap (serve cs m) (λ j. creator j cs (f j))
  serve-IsMap [] m f h = h
  serve-IsMap (registers i c ∷ cs) m f (a, h) =
      serve-IsMap cs (register i c m) (λ j. if i == j then or_new (f j) c else f j)
        (
          register-Ascending i c m a,
          λ j. elim (ℕ_discrete i j) [
            | yes e ↦
                let t : (i == j) ≡ true = ground arith in
                ap (λ k. find_creator k (register i c m)) (sym e)
                ∙ find_creator-register_self i c m a
                ∙ ap (λ k. or_new (find_creator k m) c) e
                ∙ ap (λ o. or_new o c) (h j)
                ∙ sym (ap (λ b. if b then or_new (f j) c else f j) t)
            | no e ↦
                let t : (i == j) ≡ false = ground arith in
                find_creator-register_other i c j m (λ q. e (sym q))
                ∙ h j
                ∙ sym (ap (λ b. if b then or_new (f j) c else f j) t)
          ],
        )
  serve-IsMap (unregisters i ∷ cs) m f (a, h) =
      serve-IsMap cs (unregister i m) (λ j. if i == j then none else f j)
        (
          unregister-Ascending i m a,
          λ j. elim (ℕ_discrete i j) [
            | yes e ↦
                let t : (i == j) ≡ true = ground arith in
                ap (λ k. find_creator k (unregister i m)) (sym e)
                ∙ find_creator-unregister_self i m a
                ∙ sym (ap (λ b. if b then none else f j) t)
            | no e ↦
                let t : (i == j) ≡ false = ground arith in
                find_creator-unregister_other i j m (λ q. e (sym q))
                ∙ h j
                ∙ sym (ap (λ b. if b then none else f j) t)
          ],
        )

  -- What `CreateObject` answers for an identifier with this creator.
  abbrev pub creation : {P : Type 0} → (C → P) → ErrorPolicy → ℕ → Option C → Creation P
  creation call policy j none = on_unknown_type policy j
  creation call policy j (some c) = made (call c)

  abbrev pub one_if_some : Option C → ℕ
  one_if_some none = 0
  one_if_some (some c) = 1

  times-Above : (i k : ℕ) (m : List (ℕ × C)) → i ≤ k → Above k m → times i (register_ids m) ≡ 0
  unfolding register_ids
  times-Above i k [] h a = refl
  times-Above i k ((j, d) ∷ m) h a =
      let t : (j == i) ≡ false = ground (arith, a.0) in
      rw t (omega (arith, times-Above i k m h a.1))

  times-ids :
      (i : ℕ) (m : List (ℕ × C))
      → Ascending m
      → times i (register_ids m) ≡ one_if_some (find_creator i m)
  unfolding register_ids find_creator
  times-ids i [] a = refl
  times-ids i ((j, d) ∷ m) a = elim (ℕ_discrete i j) [
    | yes e ↦
        let t : (j == i) ≡ true = ground arith in
        rw t (
          omega (
            arith,
            times-Above i j m (omega arith) a.0,
            ap one_if_some (find_creator-same i j d m e),
          ))
    | no e ↦
        let t : (j == i) ≡ false = ground arith in
        rw t (omega (arith, times-ids i m a.1, ap one_if_some (find_creator-other i j d m e)))
  ]

  -- The factory after the calls, seen through the identifiers.
  pub record IsFactory (P : Type 0) (call : C → P) (policy : ErrorPolicy) (cs : List (Call C))
      (m : List (ℕ × C)) : Type 0 where
    pub creates :
        (j : ℕ) → create_object call policy j m ≡ creation call policy j (creator j cs none)
    pub ascending : Ascending m
    pub listed : (j : ℕ) → times j (register_ids m) ≡ one_if_some (creator j cs none)

  create_object-found :
      {P : Type 0} (call : C → P) (policy : ErrorPolicy) (j : ℕ) (m : List (ℕ × C)) (o : Option C)
      → find_creator j m ≡ o
      → create_object call policy j m ≡ creation call policy j o
  unfolding create_object
  create_object-found call policy j m none e = rw (create_object, e) refl
  create_object-found call policy j m (some c) e = rw (create_object, e) refl

  -- After any calls of `Register` and `Unregister` on a new factory, with either policy,
  -- `CreateObject` calls the creator that was the first registered for its identifier since this
  -- was last unregistered, or, if there is none, answers NULL or throws as the policy says; the map
  -- is in ascending order, and `RegisterIDs` has each identifier that has a creator once, and no
  -- other.
  pub serve-IsFactory :
      {P : Type 0} (call : C → P) (policy : ErrorPolicy) (cs : List (Call C))
      → IsFactory P call policy cs (serve cs [])
  serve-IsFactory call policy cs =
      let (a, h) =
        serve-IsMap cs [] (λ j. none) (tt, λ j. find_creator-Above j j [] (omega arith) tt) in
      record {
        creates = λ j. create_object-found call policy j (serve cs []) (creator j cs none) (h j);
        ascending = a;
        listed = λ j. times-ids j (serve cs []) a ∙ ap one_if_some (h j);
      }
