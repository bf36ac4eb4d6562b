-- ===== src/Dynamic/Manager/Events.antt =====
-- Which modules stand in the slots of the events of a `CDataManager` (include/frame/dynamic_create.h).
use qth_frame.Base.{
  ℕ, ◌+◌, ◌<◌, ◌%◌, ◌≡◌, ◌≢◌, refl, sym, ap, ◌∙◌, subst, Option, none, some, List, [], ◌∷◌, ◌++◌,
  ◌==◌, arith, assign, assign_self, assign_other, ℕ_discrete, if◌then◌else◌, Option-cases, inl, inr,
  ◌⊎◌, All,
}
use qth_frame.Dynamic.{MessageMap, Kind, RunTimeClass, ModuleEvent}
use qth_frame.Dynamic.Manager.{
  Module, Parameters, DataManager, no_modules, event_num, add_class, add_classes,
}
use qth_frame.Dynamic.Manager.Slots.{IsEvent, told, register_module-slot}
use qth_frame.Dynamic.Manager.Table.{Adds, placed, refused, add_class-none, add_class-Adds}

-- How often the module of number `i` stands in a slot.
abbrev pub heard : ℕ → List ModuleEvent → ℕ
heard i [] = 0
heard i (e ∷ es) = (if e.module_id == i then 1 else 0) + heard i es

-- A class as `IMPLEMENT_DYNAMIC_CREATE` makes it, or one that makes no object.
abbrev pub IsDeclared : RunTimeClass → Type 0
IsDeclared c =
    (kind : Kind) → c.create_fn ≡ some kind → kind.runtime_class ≡ some (c.class_id, c.priority)

-- What the module in a place puts into the slot of the event `j`.
abbrev pub told_by : Option Module → ℕ → List ModuleEvent
told_by none j = []
told_by (some o) j = told o.kind j

-- `e` is the event `j` of a module in the place of its number.
pub record IsKnown (n j : ℕ) (modules : ℕ → Option Module) (e : ModuleEvent) : Type 0 where
  pub listener : Module
  pub inside : e.module_id < n
  pub place : modules e.module_id ≡ some listener
  pub class : listener.kind.runtime_class ≡ some (e.module_id, e.priority)
  pub listens : told listener.kind j ≡ e ∷ []

-- Every module stands in the slot of the event `j` as often as it has a handler, and nothing else does.
pub record IsTold (z : Parameters) (j : ℕ) (m : DataManager) : Type 0 where
  pub once : (i : ℕ) → heard i (m.events (j % event_num z)) ≡ heard i (told_by (m.modules i) j)
  pub known : All (IsKnown z.module_num j m.modules) (m.events (j % event_num z))
  pub own :
      (i : ℕ) (o : Module) → m.modules i ≡ some o → (p : ℕ) × (o.kind.runtime_class ≡ some (i, p))

pub heard-append : (i : ℕ) (xs ys : List ModuleEvent) → heard i (xs ++ ys) ≡ heard i xs + heard i ys
heard-append i [] ys = omega arith
heard-append i (x ∷ xs) ys = omega (arith, heard-append i xs ys)

module _ {ℓ κ} {A : Type ℓ} (P : A → Type κ) where
  All-append : (xs ys : List A) → All P xs → All P ys → All P (xs ++ ys)
  All-append [] ys p q = q
  All-append (x ∷ xs) ys p q = (p.0, All-append xs ys p.1 q)

  All-weaken {μ} : {Q : A → Type μ} (f : (x : A) → P x → Q x) (xs : List A) → All P xs → All Q xs
  All-weaken f [] p = tt
  All-weaken f (x ∷ xs) p = (f x p.0, All-weaken f xs p.1)

module _ (kind : Kind) (i p j : ℕ) (e : kind.runtime_class ≡ some (i, p)) where
  pub told-no_map : kind.message_map ≡ none → told kind j ≡ []
  told-no_map q = rw (e, q) refl

  pub told-silent :
      (map : MessageMap) → kind.message_map ≡ some map → map j ≡ none → told kind j ≡ []
  told-silent map q r = rw (e, q, r) refl

  pub told-handled :
      (map : MessageMap) (f : ℕ)
      → kind.message_map ≡ some map
      → map j ≡ some f
      → told kind j ≡ record { priority = p; module_id = i } ∷ []
  told-handled map f q r = rw (e, q, r) refl

  -- An object of class `i` tells its own number, at most once.
  told_own : (told kind j ≡ []) ⊎ (told kind j ≡ record { priority = p; module_id = i } ∷ [])
  told_own = elim (Option-cases kind.message_map) [
    | inl q ↦ inl (told-no_map q)
    | inr (map, q) ↦ elim (Option-cases (map j)) [
      | inl r ↦ inl (told-silent map q r)
      | inr (f, r) ↦ inr (told-handled map f q r)
    ]
  ]

module _ (z : Parameters) (j : ℕ) (q : IsEvent z j) where
  IsKnown-assign :
      (m : DataManager) (i : ℕ) (o : Module) (e : ModuleEvent)
      → m.modules i ≡ none
      → IsKnown z.module_num j m.modules e
      → IsKnown z.module_num j (assign m.modules i (some o)) e
  IsKnown-assign m i o e empty k = record {
    listener = k.listener;
    inside = k.inside;
    place = assign_other m.modules i e.module_id (some o) (λ s. cc (s, k.place, empty)) ∙ k.place;
    class = k.class;
    listens = k.listens;
  }

  module _ (c : RunTimeClass) (kind : Kind) (m : DataManager)
      (d : kind.runtime_class ≡ some (c.class_id, c.priority)) (t : IsTold z j m)
      (small : c.class_id < z.module_num) (empty : m.modules c.class_id ≡ none) where
    abbrev made : Module
    made = record { object = m.fresh; kind = kind }

    abbrev slot : List ModuleEvent
    slot = m.events (j % event_num z)

    heard-made : (i : ℕ) → c.class_id ≢ i → heard i (told kind j) ≡ 0
    heard-made i s = elim (told_own kind c.class_id c.priority j d) [
      | inl e ↦ ap (heard i) e
      | inr e ↦ ap (heard i) e ∙ ground arith
    ]

    placed-once :
        (i : ℕ)
        → heard i (slot ++ told kind j)
          ≡ heard i (told_by (assign m.modules c.class_id (some made) i) j)
    placed-once i = elim (ℕ_discrete c.class_id i) [
      | yes s ↦
          let old : heard i slot ≡ 0 =
            t.once i ∙ ap (λ o. heard i (told_by o j)) (ap m.modules (sym s) ∙ empty) in
          let new : assign m.modules c.class_id (some made) i ≡ some made =
            ap (assign m.modules c.class_id (some made)) (sym s)
            ∙ assign_self m.modules c.class_id (some made) in
          omega (arith, heard-append i slot (told kind j), old, ap (λ o. heard i (told_by o j)) new)
      | no s ↦
          let new : assign m.modules c.class_id (some made) i ≡ m.modules i =
            assign_other m.modules c.class_id i (some made) s in
          omega (
            arith,
            heard-append i slot (told kind j),
            heard-made i s,
            t.once i,
            ap (λ o. heard i (told_by o j)) new,
          )
    ]

    placed-IsKnown :
        All (IsKnown z.module_num j (assign m.modules c.class_id (some made))) (slot ++ told kind j)
    placed-IsKnown =
        All-append _ slot (told kind j)
          (All-weaken _ (λ e k. IsKnown-assign m c.class_id made e empty k) slot t.known)
          (elim (told_own kind c.class_id c.priority j d) [
            | inl e ↦ subst (All _) (sym e) tt
            | inr e ↦ subst (All _) (sym e) (
              record {
                listener = made;
                inside = small;
                place = assign_self m.modules c.class_id (some made);
                class = d;
                listens = e;
              },
              tt,
            )
          ])

    placed-own :
        (i : ℕ) (o : Module)
        → assign m.modules c.class_id (some made) i ≡ some o
        → (p : ℕ) × (o.kind.runtime_class ≡ some (i, p))
    placed-own i o e = elim (ℕ_discrete c.class_id i) [
      | yes s ↦
          let same : some made ≡ some o =
            sym (assign_self m.modules c.class_id (some made))
            ∙ ap (assign m.modules c.class_id (some made)) s
            ∙ e in
          (
            c.priority,
            subst (λ k. k ≡ some (i, c.priority))
                (ap (λ r. elim r [ none ↦ none | some v ↦ v.kind.runtime_class ]) same)
                (d ∙ ap (λ a. some (a, c.priority)) s),
          )
      | no s ↦ t.own i o (sym (assign_other m.modules c.class_id i (some made) s) ∙ e)
    ]

  Adds-IsTold :
      (c : RunTimeClass) (kind : Kind) (m n : DataManager)
      → kind.runtime_class ≡ some (c.class_id, c.priority)
      → Adds z c kind m n
      → IsTold z j m
      → IsTold z j n
  Adds-IsTold c kind m _ d (placed small empty) t =
      let e = register_module-slot z kind j m.events q in
      record {
        once = λ i. ap (heard i) e ∙ placed-once c kind m d t small empty i;
        known = subst (All _) (sym e) (placed-IsKnown c kind m d t small empty);
        own = placed-own c kind m d t small empty;
      }
  Adds-IsTold c kind m _ d (refused _) t = record { once = t.once; known = t.known; own = t.own }

  pub add_classes-IsTold :
      (cs : List RunTimeClass) (m : DataManager)
      → All IsDeclared cs
      → IsTold z j m
      → IsTold z j (add_classes z cs m)
  unfolding add_classes
  add_classes-IsTold [] m d t = t
  add_classes-IsTold (c ∷ cs) m d t =
      add_classes-IsTold cs (add_class z c m) d.1 (elim (Option-cases c.create_fn) [
        | inl e ↦ subst (IsTold z j) (sym (add_class-none z c m e)) t
        | inr (kind, e) ↦ Adds-IsTold c kind m _ (d.0 kind e) (add_class-Adds z c kind m e) t
      ])

  pub no_modules-IsTold : IsTold z j no_modules
  no_modules-IsTold = record { once = λ i. refl; known = tt; own = λ i o e. cc (e) }
