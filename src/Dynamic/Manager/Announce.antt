-- ===== src/Dynamic/Manager/Announce.antt =====
-- `allModuleExcEvent` of `CDataManager` (include/frame/dynamic_create.h): which modules hear of an
-- event, and in which order.
use mathlib.Core.Path.{ap₂}
use mathlib.Core.List.{Permᴰ}
use qth_frame.Base.{
  ℕ, ◌<◌, ◌%◌, ◌≡◌, refl, sym, ap, ◌∙◌, subst, false, Option, some, List, [], ◌∷◌, map, leb, arith,
  Option-cases, inl, inr, All, ℤ,
}
use native.Mathlib.Nat.{mod-eq_of_lt}
use qth_frame.Dynamic.{MessageMap, RunTimeClass, ModuleEvent, less, max_message_num}
use qth_frame.Dynamic.Manager.{
  mec_ok, SendMethor, send_by_event, Module, Parameters, DataManager, no_modules, event_num,
  add_classes, construct, send_msg, exc_event, all_module_exc_event,
}
use qth_frame.Dynamic.Manager.Slots.{IsEvent}
use qth_frame.Dynamic.Manager.Messages.{send_msg-answer}
use qth_frame.Dynamic.Manager.Events.{
  heard, IsDeclared, told_by, IsKnown, IsTold, told-no_map, told-silent, told-handled,
  add_classes-IsTold, no_modules-IsTold,
}

-- No element is less than an earlier one.
abbrev pub Sorted : List ModuleEvent → Type 0
Sorted [] = Unit
Sorted (e ∷ es) = All (λ f. less f e ≡ false) es × Sorted es

-- What `std::sort` promises of a range.
pub record IsSort (sort : List ModuleEvent → List ModuleEvent) : Type 0 where
  pub perm : (es : List ModuleEvent) → Permᴰ (sort es) es
  pub sorted : (es : List ModuleEvent) → Sorted (sort es)

heard-perm : (i : ℕ) {xs ys : List ModuleEvent} → Permᴰ xs ys → heard i xs ≡ heard i ys
heard-perm i Permᴰ.nil = refl
heard-perm i (Permᴰ.cons {a} {b} e p) =
    omega (arith, heard-perm i p, ap (λ (t : ModuleEvent). heard i (t ∷ [])) e)
heard-perm i (Permᴰ.swap {a} {b} {a'} {b'} e f) = omega (
  arith,
  ap (λ (t : ModuleEvent). heard i (t ∷ [])) e,
  ap (λ (t : ModuleEvent). heard i (t ∷ [])) f,
)
heard-perm i (Permᴰ.trans p q) = heard-perm i p ∙ heard-perm i q

module _ (P : ModuleEvent → Type 0) where
  All-perm : {xs ys : List ModuleEvent} → Permᴰ xs ys → All P ys → All P xs
  All-perm Permᴰ.nil h = h
  All-perm (Permᴰ.cons e p) h = (subst P (sym e) h.0, All-perm p h.1)
  All-perm (Permᴰ.swap e f) h = (subst P (sym e) h.1.0, (subst P (sym f) h.0, h.1.1))
  All-perm (Permᴰ.trans p q) h = All-perm p (All-perm q h)

-- A module that is told of an event, as its number and priority say, with its handler.
pub record Receiver : Type 0 where
  pub event : ModuleEvent
  pub object : ℕ
  pub handler : ℕ

-- The module in the place of its number has this handler of message `j`.
pub record IsReceiver (j : ℕ) (m : DataManager) (r : Receiver) : Type 0 where
  pub listener : Module
  pub place : m.modules r.event.module_id ≡ some listener
  pub class : listener.kind.runtime_class ≡ some (r.event.module_id, r.event.priority)
  pub object : listener.object ≡ r.object
  pub map : MessageMap
  pub maps : listener.kind.message_map ≡ some map
  pub handles : map j ≡ some r.handler

abbrev pub events_of : List Receiver → List ModuleEvent
events_of = map (λ r. r.event)

IsKnown-handler :
    (n j : ℕ) (m : DataManager) (e : ModuleEvent)
    → IsKnown n j m.modules e
    → (r : Receiver) × (r.event ≡ e) × IsReceiver j m r
IsKnown-handler n j m e k = elim (Option-cases k.listener.kind.message_map) [
  | inl q ↦ cc (k.listens, told-no_map k.listener.kind e.module_id e.priority j k.class q)
  | inr (t, q) ↦ elim (Option-cases (t j)) [
    | inl p ↦ cc (k.listens, told-silent k.listener.kind e.module_id e.priority j k.class t q p)
    | inr (f, p) ↦ (
      record { event = e; object = k.listener.object; handler = f },
      refl,
      record {
        listener = k.listener;
        place = k.place;
        class = k.class;
        object = refl;
        map = t;
        maps = q;
        handles = p;
      },
    )
  ]
]

module _ {D W : Type 0} (call : ℕ → ℕ → D → SendMethor → W → ℤ × W) where
  -- The handlers of the receivers, called in their order.
  abbrev pub tell : List Receiver → D → W → W
  tell [] d w = w
  tell (r ∷ rs) d w = tell rs d (call r.object r.handler d send_by_event w).1

  -- What the announcement of the event `j` does: each of the modules with a handler of it is called
  -- once, lower priorities first, and lower numbers first of those.
  pub record IsAnnounced (j : ℕ) (d : D) (m : DataManager) (w : W) (r : Option (ℤ × W))
      : Type 0 where
    pub order : List Receiver
    pub receivers : All (IsReceiver j m) order
    pub complete :
        (i : ℕ) (o : Module) (t : MessageMap) (f : ℕ)
        → m.modules i ≡ some o
        → o.kind.message_map ≡ some t
        → t j ≡ some f
        → heard i (events_of order) ≡ 1
    pub sorted : Sorted (events_of order)
    pub answers : r ≡ some (mec_ok, tell order d w)

  module _ (z : Parameters) (j : ℕ) (d : D) (m : DataManager) (small : j < max_message_num) where
    exc_event-null :
        (e : ModuleEvent) (es : List ModuleEvent) (o : Module) (v w : W) (a : ℤ)
        → e.module_id < z.module_num
        → m.modules e.module_id ≡ some o
        → send_msg z call j d send_by_event o w ≡ some (a, v)
        → exc_event z call j d m (e ∷ es) w ≡ exc_event z call j d m es v
    unfolding exc_event
    exc_event-null e es o v w a h p q = rw (exc_event, mod-eq_of_lt h, p, q) refl

    IsReceiver-send :
        (r : Receiver) (w : W) (k : IsReceiver j m r)
        → send_msg z call j d send_by_event k.listener w
          ≡ some (call r.object r.handler d send_by_event w)
    IsReceiver-send r w k =
        send_msg-answer call z j d send_by_event k.listener w small
        ∙ rw (k.maps, k.handles, k.object) refl

    -- The receivers behind the events of a slot, which the loop calls.
    exc_event-tell :
        (es : List ModuleEvent) (w : W)
        → All (IsKnown z.module_num j m.modules) es
        → (order : List Receiver) × (events_of order ≡ es)
          × All (IsReceiver j m) order
          × (exc_event z call j d m es w ≡ some (tell order d w))
    unfolding exc_event
    exc_event-tell [] w h = ([], refl, tt, refl)
    exc_event-tell (e ∷ es) w h =
        let (r, q, k) = IsKnown-handler z.module_num j m e h.0 in
        let v = call r.object r.handler d send_by_event w in
        let (rs, s, ks, t) = exc_event-tell es v.1 h.1 in
        (
          r ∷ rs,
          ap₂ ◌∷◌ q s,
          (k, ks),
          exc_event-null e es k.listener v.1 w v.0 h.0.inside
                (ap (λ (a : ModuleEvent). m.modules a.module_id) (sym q) ∙ k.place)
                (IsReceiver-send r w k)
              ∙ t,
        )

    all_module_exc_event-run :
        (v w : W)
        → IsEvent z j
        → exc_event z call j d m (m.events (j % event_num z)) w ≡ some v
        → all_module_exc_event z call j d m w ≡ some (mec_ok, v)
    unfolding all_module_exc_event
    all_module_exc_event-run v w q e =
        let b : leb j z.event_start ≡ false = ground (arith, q.after) in
        let a : leb z.event_end j ≡ false = ground (arith, q.before) in
        rw (all_module_exc_event, b, a, e) refl

    announces :
        (w : W)
        → IsEvent z j
        → IsTold z j m
        → Sorted (m.events (j % event_num z))
        → IsAnnounced j d m w (all_module_exc_event z call j d m w)
    announces w q t s =
        let (order, e, rs, run) = exc_event-tell (m.events (j % event_num z)) w t.known in
        record {
          order = order;
          receivers = rs;
          complete = λ i o g f p a b.
              (let (pr, c) = t.own i o p in
                ap (heard i) e
                ∙ t.once i
                ∙ ap (λ x. heard i (told_by x j)) p
                ∙ ap (heard i) (told-handled o.kind i pr j c g f a b)
                ∙ ground arith);
          sorted = subst Sorted (sym e) s;
          answers = all_module_exc_event-run (tell order d w) w q run;
        }

  -- A run of the sort changes only the order.
  sort-IsTold :
      (z : Parameters) (j : ℕ) (sort : List ModuleEvent → List ModuleEvent) (m : DataManager)
      → IsSort sort
      → IsTold z j m
      → IsTold z j (record m { events = λ i. sort (m.events i) })
  sort-IsTold z j sort m s t = record {
    once = λ i. heard-perm i (s.perm _) ∙ t.once i;
    known = All-perm (IsKnown z.module_num j m.modules) (s.perm _) t.known;
    own = t.own;
  }

  -- On a manager that its constructor made of classes that the macros declare, with a `std::sort`
  -- that puts the elements in order, `allModuleExcEvent` for a number strictly between `eventStart`
  -- and `eventEnd` and below 255 never calls a NULL module; it answers 0 after it has called the
  -- handler of every module of the manager that has one for the event, each once, those of lower
  -- priority number first and those of lower module number first among equals.
  pub all_module_exc_event-IsAnnounced :
      (z : Parameters) (sort : List ModuleEvent → List ModuleEvent) (cs : List RunTimeClass) (j : ℕ)
      (d : D) (w : W)
      → IsSort sort
      → All IsDeclared cs
      → IsEvent z j
      → j < max_message_num
      → IsAnnounced j d
          (construct z sort cs)
          w
          (all_module_exc_event z call j d (construct z sort cs) w)
  unfolding construct
  all_module_exc_event-IsAnnounced z sort cs j d w s h q small =
      announces z j d (construct z sort cs) small w q
        (sort-IsTold z j sort (add_classes z cs no_modules) s
          (add_classes-IsTold z j q cs no_modules h (no_modules-IsTold z j q)))
        (s.sorted _)
