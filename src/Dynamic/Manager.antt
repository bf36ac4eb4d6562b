-- ===== src/Dynamic/Manager.antt =====
-- `CDataManager` (include/frame/dynamic_create.h). The handlers of the modules are code of the
-- framework's user, and `std::sort` is of the standard library: both are arguments.
mod Tests
pub mod Slots
pub mod Table
pub mod Messages
pub mod Events
pub mod Announce
pub mod Life
use qth_frame.Base.{
  ℕ, zero, suc, ◌+◌, ◌-◌, ◌%◌, ◌≡◌, Bool, true, false, ◌&&◌, ◌||◌, Option, none, some, List, [],
  ◌∷◌, ◌++◌, ltb, leb, assign, if◌then◌else◌, ℤ, pos, negsuc,
}
use qth_frame.Dynamic.{MessageMap, max_message_num, Kind, RunTimeClass, ModuleEvent}

-- `EManagerErrCode`
abbrev pub mec_ok : ℤ
mec_ok = pos 0

abbrev pub mec_module_not_find : ℤ
mec_module_not_find = negsuc 1

abbrev pub mec_module_not_deal_msg : ℤ
mec_module_not_deal_msg = negsuc 3

abbrev pub mec_module_msg_not_register : ℤ
mec_module_msg_not_register = negsuc 4

abbrev pub mec_msg_id_not_event : ℤ
mec_msg_id_not_event = negsuc 5

-- `ESendMethor`, as far as the manager uses it.
pub data SendMethor : Type 0 where
  send_by_client send_by_internal send_by_event : SendMethor

-- An object, numbered in the order of creation.
pub record Module : Type 0 where
  pub object : ℕ
  pub kind : Kind

-- The template's parameters `moduleMaxNum`, `eventStart` and `eventEnd`.
pub record Parameters : Type 0 where
  pub module_num : ℕ
  pub event_start : ℕ
  pub event_end : ℕ

-- `CDataManager`, with the number of objects created and the objects deleted so far.
pub record DataManager : Type 0 where
  pub modules : ℕ → Option Module
  pub events : ℕ → List ModuleEvent
  pub fresh : ℕ
  pub deleted : List ℕ

abbrev pub no_modules : DataManager
no_modules = record { modules = λ i. none; events = λ i. []; fresh = 0; deleted = [] }

-- `SAFE_DELETE`
abbrev pub safe_delete : Option Module → DataManager → DataManager
safe_delete none m = m
safe_delete (some o) m = record m { deleted = m.deleted ++ o.object ∷ [] }

module _ (z : Parameters) where
  -- `EVENT_NUM`
  abbrev pub event_num : ℕ
  event_num = z.event_end - z.event_start - 1

  -- The slot of message `i` after a module whose handler of it is `f`.
  abbrev pub push_event : Option ℕ → ℕ → ModuleEvent → (ℕ → List ModuleEvent) → ℕ → List ModuleEvent
  push_event none i e slots = slots
  push_event (some f) i e slots = assign slots (i % event_num) (slots (i % event_num) ++ e ∷ [])

  -- The loop of `doRegisterModule` over `k` messages from `i` on.
  pub register_from :
      ℕ → ℕ → ModuleEvent → MessageMap → (ℕ → List ModuleEvent) → ℕ → List ModuleEvent
  register_from zero i e map slots = slots
  register_from (suc k) i e map slots = register_from k (i + 1) e map (push_event (map i) i e slots)

  -- `doRegisterModule`
  pub register_module : Kind → (ℕ → List ModuleEvent) → ℕ → List ModuleEvent
  register_module kind slots = elim kind.runtime_class [
    | none ↦ slots
    | some (i, p) ↦ elim kind.message_map [
      | none ↦ slots
      | some map ↦
          register_from (z.event_end - (z.event_start + 1)) (z.event_start + 1)
            (record { priority = p; module_id = i }) map slots
    ]
  ]

  -- `m_modules[index] == NULL`
  abbrev pub is_null : Option Module → Bool
  is_null none = true
  is_null (some o) = false

  -- One round of the loop of the constructor.
  pub add_class : RunTimeClass → DataManager → DataManager
  add_class c m = elim c.create_fn [
    | none ↦ safe_delete none m
    | some kind ↦
        let made : Module = record { object = m.fresh; kind = kind } in
        let next : DataManager = record m { fresh = suc m.fresh } in
        if ltb c.class_id z.module_num && is_null (m.modules (c.class_id % z.module_num))
        then record next {
          modules = assign m.modules (c.class_id % z.module_num) (some made);
          events = register_module kind m.events;
        }
        else safe_delete (some made) next
  ]

  pub add_classes : List RunTimeClass → DataManager → DataManager
  add_classes [] m = m
  add_classes (c ∷ cs) m = add_classes cs (add_class c m)

  -- The constructor, where `sort` is `std::sort`.
  pub construct : (List ModuleEvent → List ModuleEvent) → List RunTimeClass → DataManager
  construct sort cs =
      let m = add_classes cs no_modules in record m { events = λ i. sort (m.events i) }

  -- The loop of the destructor over `k` modules from `i` on.
  pub destroy_from : ℕ → ℕ → DataManager → DataManager
  destroy_from zero i m = m
  destroy_from (suc k) i m =
      let n = safe_delete (m.modules i) m in
      destroy_from k (i + 1) (record n { modules = assign n.modules i none })

  pub destroy : DataManager → DataManager
  destroy m = destroy_from z.module_num 0 m

  pub get_module_by_id : ℕ → DataManager → Option Module
  get_module_by_id i m = m.modules (i % z.module_num)

  -- What a handler of an object does with a message and the state of all modules, and its answer.
  module _ {D W : Type 0} (call : ℕ → ℕ → D → SendMethor → W → ℤ × W) where
    -- `SendMsg` of `DECLARE_BASE_EX`; none is a read behind the end of the message map.
    pub send_msg : ℕ → D → SendMethor → Module → W → Option (ℤ × W)
    send_msg msg d by o w = elim o.kind.message_map [
      | none ↦ some (mec_module_not_deal_msg, w)
      | some map ↦
          if ltb msg max_message_num
          then elim (map msg) [
            | none ↦ some (mec_module_msg_not_register, w)
            | some f ↦ some (call o.object f d by w)
          ]
          else none
    ]

    -- `dispatchMessage`
    pub dispatch_message : ℕ → ℕ → D → DataManager → W → Option (ℤ × W)
    dispatch_message i msg d m w = elim (get_module_by_id i m) [
      | none ↦ some (mec_module_not_find, w)
      | some o ↦ send_msg msg d send_by_client o w
    ]

    -- The loop of `allModuleExcEvent`; none is a call of NULL, or of `send_msg` out of range.
    pub exc_event : ℕ → D → DataManager → List ModuleEvent → W → Option W
    exc_event msg d m [] w = some w
    exc_event msg d m (e ∷ es) w = elim (m.modules (e.module_id % z.module_num)) [
      | none ↦ none
      | some o ↦ elim (send_msg msg d send_by_event o w) [
        | none ↦ none
        | some (answer, v) ↦ exc_event msg d m es v
      ]
    ]

    -- `allModuleExcEvent`
    pub all_module_exc_event : ℕ → D → DataManager → W → Option (ℤ × W)
    all_module_exc_event msg d m w =
        if leb msg z.event_start || leb z.event_end msg
        then some (mec_msg_id_not_event, w)
        else elim (exc_event msg d m (m.events (msg % event_num)) w) [
          | none ↦ none
          | some v ↦ some (mec_ok, v)
        ]
