-- ===== src/Dynamic/Manager/Table.antt =====
-- The modules of a `CDataManager` after its constructor, and the messages passed to them
-- (include/frame/dynamic_create.h).
use qth_frame.Base.{
  ℕ, suc, ◌<◌, ◌≡◌, ◌≢◌, refl, sym, ap, ◌∙◌, subst, true, false, Option, none, some, List, [], ◌∷◌,
  ltb, ◌==◌, arith, assign, assign_self, assign_other, dec_lt, ℕ_discrete, if◌then◌else◌,
  Option-cases, inl, inr,
}
use native.Mathlib.Nat.{mod-eq_of_lt}
use qth_frame.Dynamic.{Kind, RunTimeClass, ModuleEvent}
use qth_frame.Dynamic.Manager.{
  Module, Parameters, DataManager, no_modules, safe_delete, register_module, add_class, add_classes,
  construct,
}

abbrev pub kind_of : Option Module → Option Kind
kind_of none = none
kind_of (some o) = some o.kind

-- What the first class of number `i` makes, of those that make something.
abbrev pub first_kind : ℕ → List RunTimeClass → Option Kind
first_kind i [] = none
first_kind i (c ∷ cs) = elim c.create_fn [
  | none ↦ first_kind i cs
  | some kind ↦ if c.class_id == i then some kind else first_kind i cs
]

-- The first of two, unless there is none.
abbrev pub first_of {ℓ} : {A : Type ℓ} → Option A → Option A → Option A
first_of none b = b
first_of (some a) b = some a

first_of-none {ℓ} : {A : Type ℓ} (o : Option A) → first_of o none ≡ o
first_of-none none = refl
first_of-none (some a) = refl

module _ (z : Parameters) where
  -- What a round of the constructor does with a class that makes an object: it takes the empty place
  -- of its number, or the object is deleted.
  pub data Adds (c : RunTimeClass) (kind : Kind) (m : DataManager) : DataManager → Type 0 where
    placed :
        c.class_id < z.module_num
        → m.modules c.class_id ≡ none
        → Adds c kind m (record m {
          modules = assign m.modules c.class_id (some (record { object = m.fresh; kind = kind }));
          events = register_module z kind m.events;
          fresh = suc m.fresh;
        })
    refused :
        (c.class_id < z.module_num → m.modules c.class_id ≢ none)
        → Adds c kind m (
            safe_delete
              (some (record { object = m.fresh; kind = kind }))
              (record m { fresh = suc m.fresh }))

  pub add_class-none :
      (c : RunTimeClass) (m : DataManager) → c.create_fn ≡ none → add_class z c m ≡ m
  unfolding add_class
  add_class-none c m e = rw (add_class, e) refl

  module _ (c : RunTimeClass) (kind : Kind) (m : DataManager) (e : c.create_fn ≡ some kind) where
    abbrev made : Module
    made = record { object = m.fresh; kind = kind }

    add_class-placed :
        c.class_id < z.module_num
        → m.modules c.class_id ≡ none
        → add_class z c m ≡ record m {
          modules = assign m.modules c.class_id (some made);
          events = register_module z kind m.events;
          fresh = suc m.fresh;
        }
    unfolding add_class
    add_class-placed q r =
        let t : ltb c.class_id z.module_num ≡ true = ground arith in
        rw (add_class, e, t, mod-eq_of_lt q, r) refl

    add_class-taken :
        (o : Module)
        → c.class_id < z.module_num
        → m.modules c.class_id ≡ some o
        → add_class z c m ≡ safe_delete (some made) (record m { fresh = suc m.fresh })
    unfolding add_class
    add_class-taken o q r =
        let t : ltb c.class_id z.module_num ≡ true = ground arith in
        rw (add_class, e, t, mod-eq_of_lt q, r) refl

    add_class-beyond :
        ¬ (c.class_id < z.module_num)
        → add_class z c m ≡ safe_delete (some made) (record m { fresh = suc m.fresh })
    unfolding add_class
    add_class-beyond q =
        let t : ltb c.class_id z.module_num ≡ false = ground arith in rw (add_class, e, t) refl

    pub add_class-Adds : Adds c kind m (add_class z c m)
    add_class-Adds = elim (dec_lt c.class_id z.module_num) [
      | yes q ↦ elim (Option-cases (m.modules c.class_id)) [
        | inl r ↦ subst (Adds c kind m) (sym (add_class-placed q r)) (placed q r)
        | inr (o, r) ↦
            subst (Adds c kind m) (sym (add_class-taken o q r)) (refused (λ h s. cc (r, s)))
      ]
      | no q ↦ subst (Adds c kind m) (sym (add_class-beyond q)) (refused (λ h. absurd (q h)))
    ]

  first_kind-none :
      (i : ℕ) (c : RunTimeClass) (cs : List RunTimeClass)
      → c.create_fn ≡ none
      → first_kind i (c ∷ cs) ≡ first_kind i cs
  first_kind-none i c cs e = rw e refl

  first_kind-same :
      (i : ℕ) (c : RunTimeClass) (kind : Kind) (cs : List RunTimeClass)
      → c.create_fn ≡ some kind
      → c.class_id ≡ i
      → first_kind i (c ∷ cs) ≡ some kind
  first_kind-same i c kind cs e q =
      let t : (c.class_id == i) ≡ true = ground arith in rw (e, t) refl

  first_kind-other :
      (i : ℕ) (c : RunTimeClass) (kind : Kind) (cs : List RunTimeClass)
      → c.create_fn ≡ some kind
      → c.class_id ≢ i
      → first_kind i (c ∷ cs) ≡ first_kind i cs
  first_kind-other i c kind cs e q =
      let t : (c.class_id == i) ≡ false = ground arith in rw (e, t) refl

  -- A class leaves the place `i` to the first of its number.
  Adds-place :
      (i : ℕ) (c : RunTimeClass) (kind : Kind) (cs : List RunTimeClass) (m n : DataManager)
      → i < z.module_num
      → c.create_fn ≡ some kind
      → Adds c kind m n
      → first_of (kind_of (n.modules i)) (first_kind i cs)
        ≡ first_of (kind_of (m.modules i)) (first_kind i (c ∷ cs))
  Adds-place i c kind cs m _ h e (placed q r) = elim (ℕ_discrete c.class_id i) [
    | yes s ↦
        ap (λ o. first_of (kind_of o) (first_kind i cs))
          (ap (assign m.modules c.class_id _) (sym s) ∙ assign_self m.modules c.class_id _)
        ∙ sym (first_kind-same i c kind cs e s)
        ∙ ap (λ o. first_of (kind_of o) (first_kind i (c ∷ cs))) (sym r ∙ ap m.modules s)
    | no s ↦
        ap (λ o. first_of (kind_of o) (first_kind i cs)) (assign_other m.modules c.class_id i _ s)
        ∙ ap (first_of (kind_of (m.modules i))) (sym (first_kind-other i c kind cs e s))
  ]
  Adds-place i c kind cs m _ h e (refused q) = elim (ℕ_discrete c.class_id i) [
    | yes s ↦ elim (Option-cases (m.modules i)) [
      | inl r ↦ absurd (q (omega arith) (ap m.modules s ∙ r))
      | inr (o, r) ↦ rw r refl
    ]
    | no s ↦ ap (first_of (kind_of (m.modules i))) (sym (first_kind-other i c kind cs e s))
  ]

  add_classes-place :
      (i : ℕ) (cs : List RunTimeClass) (m : DataManager)
      → i < z.module_num
      → kind_of ((add_classes z cs m).modules i)
        ≡ first_of (kind_of (m.modules i)) (first_kind i cs)
  unfolding add_classes
  add_classes-place i [] m h = sym (first_of-none _)
  add_classes-place i (c ∷ cs) m h = add_classes-place i cs (add_class z c m) h ∙ step
    where
      step :
          first_of (kind_of ((add_class z c m).modules i)) (first_kind i cs)
          ≡ first_of (kind_of (m.modules i)) (first_kind i (c ∷ cs))
      step = elim (Option-cases c.create_fn) [
        | inl e ↦
            ap (λ (n : DataManager). first_of (kind_of (n.modules i)) (first_kind i cs))
              (add_class-none c m e)
            ∙ ap (first_of (kind_of (m.modules i))) (sym (first_kind-none i c cs e))
        | inr (kind, e) ↦ Adds-place i c kind cs m _ h e (add_class-Adds c kind m e)
      ]

  -- The place of each number has what the first class of that number makes.
  pub construct-place :
      (sort : List ModuleEvent → List ModuleEvent) (cs : List RunTimeClass) (i : ℕ)
      → i < z.module_num
      → kind_of ((construct z sort cs).modules i) ≡ first_kind i cs
  unfolding construct
  construct-place sort cs i h = add_classes-place i cs no_modules h
