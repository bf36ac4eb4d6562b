-- ===== src/Dynamic/Manager/Life.antt =====
-- The objects that the constructor of `CDataManager` creates and those that it and the destructor
-- delete (include/frame/dynamic_create.h).
use qth_frame.Base.{
  times, times-append, ℕ, zero, suc, ◌+◌, ◌<◌, ◌≤◌, ◌≡◌, refl, sym, ap, ◌∙◌, subst, Option, none,
  some, List, [], ◌∷◌, ltb, ◌==◌, arith, assign, assign_self, assign_other, ℕ_discrete,
  if◌then◌else◌, Option-cases, inl, inr,
}
use qth_frame.Dynamic.{Kind, RunTimeClass, ModuleEvent}
use qth_frame.Dynamic.Manager.{
  Module, Parameters, DataManager, no_modules, safe_delete, add_class, add_classes, construct,
  destroy_from, destroy,
}
use qth_frame.Dynamic.Manager.Table.{Adds, placed, refused, add_class-none, add_class-Adds}

abbrev pub holds : ℕ → Option Module → ℕ
holds o none = 0
holds o (some a) = if a.object == o then 1 else 0

-- How many of `k` places from `i` on hold object `o`.
abbrev pub held : ℕ → ℕ → ℕ → (ℕ → Option Module) → ℕ
held o zero i f = 0
held o (suc k) i f = holds o (f i) + held o k (i + 1) f

-- 1 for an object that exists or did.
abbrev pub created : ℕ → ℕ → ℕ
created o fresh = if ltb o fresh then 1 else 0

module _ (o : ℕ) (f : ℕ → Option Module) (x : ℕ) (v : Option Module) where
  held-assign_outside : (k i : ℕ) → x < i → held o k i (assign f x v) ≡ held o k i f
  held-assign_outside zero i h = refl
  held-assign_outside (suc k) i h = omega (
    arith,
    ap (holds o) (assign_other f x i v (λ s. omega arith)),
    held-assign_outside k (i + 1) (omega arith),
  )

  held-assign :
      (k i : ℕ)
      → i ≤ x
      → x < i + k
      → f x ≡ none
      → held o k i (assign f x v) ≡ holds o v + held o k i f
  held-assign zero i h l e = absurd (omega arith)
  held-assign (suc k) i h l e = elim (ℕ_discrete x i) [
    | yes s ↦ omega (
      arith,
      ap (holds o) (ap (assign f x v) (sym s) ∙ assign_self f x v),
      ap (holds o) (ap f (sym s) ∙ e),
      held-assign_outside k (i + 1) (omega arith),
    )
    | no s ↦ omega (
      arith,
      ap (holds o) (assign_other f x i v s),
      held-assign k (i + 1) (omega arith) (omega arith) e,
    )
  ]

module _ (z : Parameters) (o : ℕ) where
  -- The object is in one place or was deleted once, if it was created.
  abbrev pub Lives : DataManager → Type 0
  Lives m = times o m.deleted + held o z.module_num 0 m.modules ≡ created o m.fresh

  created-suc : (n : ℕ) → created o (suc n) ≡ (if n == o then 1 else 0) + created o n
  created-suc n = ground arith

  Adds-Lives :
      (c : RunTimeClass) (kind : Kind) (m n : DataManager) → Adds z c kind m n → Lives m → Lives n
  Adds-Lives c kind m _ (placed h e) t = omega (
    arith,
    t,
    created-suc m.fresh,
    held-assign o m.modules c.class_id (some (record { object = m.fresh; kind = kind }))
        z.module_num 0 (omega arith) (omega arith) e,
  )
  Adds-Lives c kind m _ (refused h) t =
      omega (arith, t, created-suc m.fresh, times-append o m.deleted (m.fresh ∷ []))

  add_classes-Lives :
      (cs : List RunTimeClass) (m : DataManager) → Lives m → Lives (add_classes z cs m)
  unfolding add_classes
  add_classes-Lives [] m t = t
  add_classes-Lives (c ∷ cs) m t =
      add_classes-Lives cs (add_class z c m) (elim (Option-cases c.create_fn) [
        | inl e ↦ subst Lives (sym (add_class-none z c m e)) t
        | inr (kind, e) ↦ Adds-Lives c kind m _ (add_class-Adds z c kind m e) t
      ])

  times-safe_delete :
      (a : Option Module) (m : DataManager)
      → times o (safe_delete a m).deleted ≡ times o m.deleted + holds o a
  times-safe_delete none m = omega arith
  times-safe_delete (some a) m = omega (arith, times-append o m.deleted (a.object ∷ []))

  safe_delete-modules :
      (a : Option Module) (m : DataManager) → (safe_delete a m).modules ≡ m.modules
  safe_delete-modules none m = refl
  safe_delete-modules (some a) m = refl

  destroy_from-times :
      (k i : ℕ) (m : DataManager)
      → times o (destroy_from z k i m).deleted ≡ times o m.deleted + held o k i m.modules
  unfolding destroy_from
  destroy_from-times zero i m = omega arith
  destroy_from-times (suc k) i m =
      let n : DataManager = safe_delete (m.modules i) m in
      omega (
        arith,
        destroy_from-times k (i + 1) (record n { modules = assign n.modules i none }),
        times-safe_delete (m.modules i) m,
        held-assign_outside o n.modules i none k (i + 1) (omega arith),
        ap (held o k (i + 1)) (safe_delete-modules (m.modules i) m),
      )

  -- Every object that the constructor of the manager creates, whatever the classes, has been
  -- deleted exactly once after the destructor, and no other has been.
  pub destroy-once :
      (sort : List ModuleEvent → List ModuleEvent) (cs : List RunTimeClass)
      → times o (destroy z (construct z sort cs)).deleted ≡ created o (construct z sort cs).fresh
  unfolding destroy construct
  destroy-once sort cs =
      destroy_from-times z.module_num 0 (construct z sort cs)
      ∙ add_classes-Lives cs no_modules (held_nothing z.module_num 0)
    where
      held_nothing : (k i : ℕ) → 0 + held o k i (λ j. none) ≡ created o 0
      held_nothing zero i = ground arith
      held_nothing (suc k) i = omega (arith, held_nothing k (i + 1))
