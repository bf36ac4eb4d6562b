-- ===== src/Dynamic/Manager/Slots.antt =====
-- The slots of the events that `doRegisterModule` of `CDataManager` fills
-- (include/frame/dynamic_create.h).
use qth_frame.Base.{
  ℕ, zero, suc, ◌+◌, ◌-◌, ◌<◌, ◌≤◌, ◌%◌, ◌≡◌, ◌≢◌, refl, sym, ap, ◌∙◌, Option, none, some, List, [],
  ◌∷◌, ◌++◌, arith, assign_self, assign_other, ℕ_discrete, mod-eq_of_close, subst,
}
use mathlib.Core.List.{append-nil}
use qth_frame.Dynamic.{MessageMap, Kind, ModuleEvent}
use qth_frame.Dynamic.Manager.{Parameters, event_num, push_event, register_from, register_module}

-- A number of an event of the manager.
pub record IsEvent (z : Parameters) (j : ℕ) : Type 0 where
  pub after : z.event_start < j
  pub before : j < z.event_end

-- The event that a module with this map puts into the slot of its message `j`.
abbrev pub entry : Option ℕ → ModuleEvent → List ModuleEvent
entry none e = []
entry (some f) e = e ∷ []

-- What an object of this kind puts into the slot of the event `j`.
abbrev pub told : Kind → ℕ → List ModuleEvent
told kind j = elim kind.runtime_class [
  | none ↦ []
  | some (i, p) ↦ elim kind.message_map [
    | none ↦ []
    | some map ↦ entry (map j) (record { priority = p; module_id = i })
  ]
]

module _ (z : Parameters) where
  IsEvent-slot : (i j : ℕ) → IsEvent z i → IsEvent z j → i % event_num z ≡ j % event_num z → i ≡ j
  IsEvent-slot i j p q =
      mod-eq_of_close (event_num z) (z.event_start + 1) i j (omega (arith, p.after))
        (omega (arith, p.before, p.after)) (omega (arith, q.after))
        (omega (arith, q.before, q.after))

  push_event_self :
      (o : Option ℕ) (i : ℕ) (e : ModuleEvent) (slots : ℕ → List ModuleEvent)
      → push_event z o i e slots (i % event_num z) ≡ slots (i % event_num z) ++ entry o e
  push_event_self none i e slots = sym (append-nil _)
  push_event_self (some f) i e slots = assign_self slots _ _

  push_event_other :
      (o : Option ℕ) (i k : ℕ) (e : ModuleEvent) (slots : ℕ → List ModuleEvent)
      → i % event_num z ≢ k
      → push_event z o i e slots k ≡ slots k
  push_event_other none i k e slots h = refl
  push_event_other (some f) i k e slots h = assign_other slots _ _ _ h

  module _ (e : ModuleEvent) (map : MessageMap) (j : ℕ) (q : IsEvent z j) where
    register_from-before :
        (k i : ℕ) (slots : ℕ → List ModuleEvent)
        → z.event_start < i
        → i + k ≤ z.event_end
        → j < i
        → register_from z k i e map slots (j % event_num z) ≡ slots (j % event_num z)
    unfolding register_from
    register_from-before zero i slots a b h = refl
    register_from-before (suc k) i slots a b h =
        register_from-before k (i + 1) _ (omega arith) (omega arith) (omega arith)
        ∙ push_event_other (map i) i _ e slots
            (λ s. omega (arith, IsEvent-slot i j (record { after = a; before = omega arith }) q s))

    register_from-slot :
        (k i : ℕ) (slots : ℕ → List ModuleEvent)
        → z.event_start < i
        → i + k ≤ z.event_end
        → i ≤ j
        → j < i + k
        → register_from z k i e map slots (j % event_num z)
          ≡ slots (j % event_num z) ++ entry (map j) e
    unfolding register_from
    register_from-slot zero i slots a b h l = absurd (omega arith)
    register_from-slot (suc k) i slots a b h l = elim (ℕ_discrete i j) [
      | yes s ↦
          register_from-before k (i + 1) _ (omega arith) (omega arith) (omega arith)
          ∙ subst
              (λ t.
                push_event z (map i) i e slots (t % event_num z)
                ≡ slots (t % event_num z) ++ entry (map t) e)
              s (push_event_self (map i) i e slots)
      | no s ↦
          register_from-slot k (i + 1) _ (omega arith) (omega arith) (omega arith) (omega arith)
          ∙ ap (λ l. l ++ entry (map j) e)
              (push_event_other (map i) i _ e slots
                (λ r. s (IsEvent-slot i j (record { after = a; before = omega arith }) q r)))
    ]

  register_parts :
      (r : Option (ℕ × ℕ)) (o : Option MessageMap) (j : ℕ) (slots : ℕ → List ModuleEvent)
      → IsEvent z j
      → register_module z (record { runtime_class = r; message_map = o }) slots (j % event_num z)
        ≡ slots (j % event_num z) ++ told (record { runtime_class = r; message_map = o }) j
  unfolding register_module
  register_parts none o j slots q = sym (append-nil _)
  register_parts (some (i, p)) none j slots q = sym (append-nil _)
  register_parts (some (i, p)) (some map) j slots q =
      register_from-slot _ map j q (z.event_end - (z.event_start + 1)) (z.event_start + 1) slots
        (omega arith) (omega (arith, q.after, q.before)) (omega (arith, q.after))
        (omega (arith, q.after, q.before))

  pub register_module-slot :
      (kind : Kind) (j : ℕ) (slots : ℕ → List ModuleEvent)
      → IsEvent z j
      → register_module z kind slots (j % event_num z) ≡ slots (j % event_num z) ++ told kind j
  register_module-slot kind j slots q = register_parts kind.runtime_class kind.message_map j slots q
