-- ===== src/Dynamic/Manager/Tests.antt =====
-- Three classes, of which two have the same number, and a sort by insertion.
use mathlib.Core.List.{Permᴰ}
use mathlib.Core.List.Permᴰ
use qth_frame.Base.{
  times, ℕ, ◌%◌, ◌≡◌, ◌⊎◌, refl, false, some, List, [], ◌∷◌, arith, if◌then◌else◌, Bool-cases, inl,
  inr, All, ℤ, pos,
}
use qth_frame.Dynamic.{
  no_messages, push_message, RunTimeClass, implement_dynamic_create, init_run_time_class,
  ModuleEvent, less,
}
use qth_frame.Dynamic.Classes.{IsUnknown, IsFirst, Agrees, name_of-id_of}
use qth_frame.Dynamic.Manager.{
  SendMethor, Parameters, construct, destroy, dispatch_message, all_module_exc_event, exc_event,
  send_msg, add_classes, add_class, register_module, register_from,
}
use qth_frame.Dynamic.Manager.Slots.{IsEvent}
use qth_frame.Dynamic.Manager.Table.{first_kind}
use qth_frame.Dynamic.Manager.Messages.{Replies, dispatch_message-Replies}
use qth_frame.Dynamic.Manager.Events.{IsDeclared}
use qth_frame.Dynamic.Manager.Announce.{
  Sorted, IsSort, IsAnnounced, all_module_exc_event-IsAnnounced,
}
use qth_frame.Dynamic.Manager.Life.{created, destroy-once}

abbrev insert_event : ModuleEvent → List ModuleEvent → List ModuleEvent
insert_event e [] = e ∷ []
insert_event e (f ∷ fs) = let rest = insert_event e fs in if less f e then f ∷ rest else e ∷ f ∷ fs

abbrev sort_events : List ModuleEvent → List ModuleEvent
sort_events [] = []
sort_events (e ∷ es) = insert_event e (sort_events es)

insert_event-perm : (e : ModuleEvent) (es : List ModuleEvent) → Permᴰ (insert_event e es) (e ∷ es)
insert_event-perm e [] = Permᴰ.refl (e ∷ [])
insert_event-perm e (f ∷ fs) = elim (Bool-cases (less f e)) [
  | inl p ↦ rw p (Permᴰ.trans (Permᴰ.cons refl (insert_event-perm e fs)) (Permᴰ.swap refl refl))
  | inr p ↦ rw p (Permᴰ.refl (e ∷ f ∷ fs))
]

sort_events-perm : (es : List ModuleEvent) → Permᴰ (sort_events es) es
sort_events-perm [] = Permᴰ.nil
sort_events-perm (e ∷ es) =
    Permᴰ.trans (insert_event-perm e (sort_events es)) (Permᴰ.cons refl (sort_events-perm es))

IsBelow-insert :
    (f e : ModuleEvent) (es : List ModuleEvent)
    → less e f ≡ false
    → All (λ g. less g f ≡ false) es
    → All (λ g. less g f ≡ false) (insert_event e es)
IsBelow-insert f e [] p h = (p, tt)
IsBelow-insert f e (g ∷ gs) p h = elim (Bool-cases (less g e)) [
  | inl q ↦ rw q (h.0, IsBelow-insert f e gs p h.1)
  | inr q ↦ rw q (p, (h.0, h.1))
]

IsBelow-trans :
    (f e : ModuleEvent) (es : List ModuleEvent)
    → less e f ≡ false
    → All (λ g. less g e ≡ false) es
    → All (λ g. less g f ≡ false) es
IsBelow-trans f e [] p h = tt
IsBelow-trans f e (g ∷ gs) p h = (ground (arith, h.0), IsBelow-trans f e gs p h.1)

insert_event-Sorted :
    (e : ModuleEvent) (es : List ModuleEvent) → Sorted es → Sorted (insert_event e es)
insert_event-Sorted e [] s = (tt, tt)
insert_event-Sorted e (f ∷ fs) s = elim (Bool-cases (less f e)) [
  | inl p ↦ rw p (IsBelow-insert f e fs (ground arith) s.0, insert_event-Sorted e fs s.1)
  | inr p ↦ rw p ((p, IsBelow-trans e f fs p s.0), (s.0, s.1))
]

sort_events-Sorted : (es : List ModuleEvent) → Sorted (sort_events es)
sort_events-Sorted [] = tt
sort_events-Sorted (e ∷ es) = insert_event-Sorted e (sort_events es) (sort_events-Sorted es)

sort_events-IsSort : IsSort sort_events
sort_events-IsSort = record { perm = sort_events-perm; sorted = sort_events-Sorted }

abbrev item : RunTimeClass
item =
    implement_dynamic_create 3 10 "Item" (some (push_message (push_message no_messages 1 7) 201 8))

abbrev mail : RunTimeClass
mail = implement_dynamic_create 1 5 "Mail" (some (push_message no_messages 201 9))

abbrev copy : RunTimeClass
copy = implement_dynamic_create 3 2 "Copy" (some no_messages)

-- The class linked last stands first.
abbrev classes : List RunTimeClass
classes = item ∷ mail ∷ []

abbrev default : Parameters
default = record { module_num = 255; event_start = 199; event_end = 255 }

-- A handler notes its object, its number and the message's data.
abbrev note : ℕ → ℕ → ℕ → SendMethor → List (ℕ × ℕ) → ℤ × List (ℕ × ℕ)
note o f d by w = (pos d, (o, f) ∷ w)

linked : init_run_time_class item (init_run_time_class mail []) ≡ classes
unfolding init_run_time_class implement_dynamic_create
linked = refl

IsDeclared-classes : All IsDeclared classes
unfolding implement_dynamic_create
IsDeclared-classes = (λ k e. cc (e), (λ k e. cc (e), tt))

IsEvent-201 : IsEvent default 201
IsEvent-201 = record { after = omega arith; before = omega arith }

-- Mail has the lower priority number and hears first.
announce-201 :
    all_module_exc_event default note 201 4 (construct default sort_events classes) []
    ≡ some (pos 0, (0, 8) ∷ (1, 9) ∷ [])
unfolding all_module_exc_event construct exc_event send_msg add_classes add_class register_module
    register_from implement_dynamic_create
announce-201 = refl

dispatch_message-Replies_example :
    Replies note
      (first_kind (256 % 255) classes)
      201
      4
      []
      (dispatch_message default note 256 201 4 (construct default sort_events classes) [])
dispatch_message-Replies_example =
    dispatch_message-Replies note default sort_events classes 256 201 4 [] (omega arith)
      (omega arith)

all_module_exc_event-IsAnnounced_example :
    IsAnnounced note 201 4
      (construct default sort_events classes)
      []
      (all_module_exc_event default note 201 4 (construct default sort_events classes) [])
all_module_exc_event-IsAnnounced_example =
    all_module_exc_event-IsAnnounced note default sort_events classes 201 4 [] sort_events-IsSort
      IsDeclared-classes IsEvent-201 (omega arith)

destroy-once_example :
    times 1 (destroy default (construct default sort_events (copy ∷ classes))).deleted
    ≡ created 1 (construct default sort_events (copy ∷ classes)).fresh
destroy-once_example = destroy-once default 1 sort_events (copy ∷ classes)

name_of-id_of_example :
    IsUnknown "Mail" classes
    ⊎ ((c : RunTimeClass) × IsFirst "Mail" classes c × Agrees "Mail" classes)
unfolding implement_dynamic_create
name_of-id_of_example = name_of-id_of "Mail" classes (((λ e. omega arith), tt), (tt, tt))
