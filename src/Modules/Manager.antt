-- ===== src/Modules/Manager.antt =====
-- The creation of modules and the passing of messages by `ModuleManager` (src/module_manager.cpp), with the
-- classes of src/running_class_info.cpp. What tinyxml2 reads of the configuration is an argument, and the
-- handlers of the modules are code of the framework's user.
pub mod Rounds
pub mod Placing
mod Tests
use Prim.Native.String.{String}
use text.Mathlib.Text.{◌==◌ as str_eq}
use qth_frame.Base.{
  ℕ, zero, suc, ◌+◌, ◌%◌, ◌^◌, Bool, true, false, ◌&&◌, not, Option, none, some, List, [], ◌∷◌,
  ◌++◌, ltb, ◌==◌, assign, if◌then◌else◌, ℤ, pos, negsuc,
}
use qth_frame.Modules.{max_protocol_num}

-- `RunTimeClass` with the handlers of its `MessageMap`; the list of classes stands for `m_pNext`, the base
-- class is its name, and `create_fn` says that it is not NULL.
pub record ModuleClass : Type 0 where
  pub class_name : String
  pub id : ℕ
  pub base : Option String
  pub create_fn : Bool
  pub messages : ℕ → Option ℕ

-- `initRunTimeClass`
pub init_run_time_class : ModuleClass → List ModuleClass → List ModuleClass
init_run_time_class c first = c ∷ first

pub record ModuleObject : Type 0 where
  pub object : ℕ
  pub class : ModuleClass

-- `m_modules`, with the number of objects created and the objects deleted so far.
pub record ModuleManager : Type 0 where
  pub modules : ℕ → Option ModuleObject
  pub fresh : ℕ
  pub deleted : List ℕ

-- `ModuleConfigMap`: the number and the name of a module, by the name of its class.
abbrev pub ModuleConfigMap : Type 0
ModuleConfigMap = List (String × (ℕ × String))

pub find_config : String → ModuleConfigMap → Option (ℕ × String)
find_config s [] = none
find_config s ((k, v) ∷ cfg) = let rest = find_config s cfg in if str_eq s k then some v else rest

-- `out_map.insert`
abbrev pub insert_config : String → ℕ × String → ModuleConfigMap → ModuleConfigMap
insert_config s v cfg = elim (find_config s cfg) [ none ↦ cfg ++ (s, v) ∷ [] | some old ↦ cfg ]

-- The attributes of an element `Module`.
pub record Node : Type 0 where
  pub class_name : String
  pub module_id : ℕ
  pub module_name : String

-- The loop of `doReadXml`.
pub read_nodes : List Node → ModuleConfigMap → ModuleConfigMap
read_nodes [] cfg = cfg
read_nodes (n ∷ ns) cfg =
    if str_eq n.class_name ""
    then read_nodes ns cfg
    else read_nodes ns (
        insert_config n.class_name
          (n.module_id % 2 ^ 8, if str_eq n.module_name "" then n.class_name else n.module_name)
          cfg)

-- `doReadXml`; none is a path at NULL, or a file with an error or no root.
pub do_read_xml : Option (List Node) → ModuleConfigMap → ModuleConfigMap
do_read_xml none cfg = cfg
do_read_xml (some ns) [] = read_nodes ns []
do_read_xml (some ns) (e ∷ cfg) = e ∷ cfg

-- `m_pBase` is the class `Module`.
abbrev pub is_module : Option String → Bool
is_module none = false
is_module (some s) = str_eq s "Module"

-- `m_modules[pObject->GetModuleID()] = pObject`; none is a write behind the array.
pub place : ℕ → ModuleObject → Bool × ModuleManager → Option (Bool × ModuleManager)
place i o (ok, m) =
    if ltb i max_protocol_num
    then some (ok, record m { modules = assign m.modules i (some o) })
    else none

-- An object whose class has this entry in the configuration, or none.
abbrev pub configured :
    Option (ℕ × String) → ModuleObject → Bool × ModuleManager → Option (Bool × ModuleManager)
configured none o (ok, m) = some (false, record m { deleted = m.deleted ++ o.object ∷ [] })
configured (some (i, name)) o s = place i (record o { class = record (o.class) { id = i } }) s

-- One round of the loop of `Init`.
pub init_class :
    ModuleConfigMap → ModuleClass → Bool × ModuleManager → Option (Bool × ModuleManager)
init_class cfg c (ok, m) =
    if str_eq c.class_name "Module"
    then some (ok, m)
    else if not (is_module c.base)
    then some (ok, m)
    else if c.create_fn
    then (let o : ModuleObject = record { object = m.fresh; class = c } in
        let next : ModuleManager = record m { fresh = suc m.fresh } in
        elim cfg [
          | [] ↦ place c.id o (ok, next)
          | e ∷ es ↦ configured (find_config c.class_name (e ∷ es)) o (ok, next)
        ])
    else some (false, m)

pub init_classes :
    ModuleConfigMap → List ModuleClass → Bool × ModuleManager → Option (Bool × ModuleManager)
init_classes cfg [] s = some s
init_classes cfg (c ∷ cs) s = elim (init_class cfg c s) [
  | none ↦ none
  | some t ↦ init_classes cfg cs t
]

-- `Init` on the classes that are linked, with what is read of the file and the configuration so far.
pub init :
    Option (List Node)
    → ModuleConfigMap
    → List ModuleClass
    → ModuleManager
    → Option (Bool × ModuleManager)
init file cfg cs m = init_classes (do_read_xml file cfg) cs (true, m)

-- The loop of `UnInit` over `k` places from `i` on.
pub un_init_from : ℕ → ℕ → ModuleManager → ModuleManager
un_init_from zero i m = m
un_init_from (suc k) i m = elim (m.modules i) [
  | none ↦ un_init_from k (i + 1) m
  | some o ↦
      un_init_from k (i + 1)
        (record m { modules = assign m.modules i none; deleted = m.deleted ++ o.object ∷ [] })
]

pub un_init : ModuleManager → ModuleManager
un_init m = un_init_from max_protocol_num 0 m

-- `INT_MAX`
abbrev pub int_max : ℤ
int_max = pos 2147483647

module _ {D W : Type 0} (call : ℕ → ℕ → D → W → ℤ × W) where
  -- `Module::SendMsg`; none is a read behind the array of messages.
  pub send_msg : ℕ → D → ModuleObject → W → Option (ℤ × W)
  send_msg msg d o w =
      if ltb msg max_protocol_num
      then elim (o.class.messages msg) [
        | none ↦ some (int_max, w)
        | some f ↦ some (call o.object f d w)
      ]
      else none

  -- `result == INT_MAX`
  abbrev pub is_int_max : ℤ → Bool
  is_int_max (pos n) = n == 2147483647
  is_int_max (negsuc n) = false

  -- `dispatchMessage`; none is a read behind an array.
  pub dispatch_message : ℕ → ℕ → D → ModuleManager → W → Option (Bool × W)
  dispatch_message i msg d m w =
      if ltb i max_protocol_num
      then elim (m.modules i) [
        | none ↦ some (false, w)
        | some o ↦ elim (send_msg msg d o w) [
          | none ↦ none
          | some (result, v) ↦ some (not (is_int_max result), v)
        ]
      ]
      else none

  -- The loop of `execMessageAll` over `k` places from `i` on.
  pub exec_from : ℕ → ℕ → ℕ → D → ModuleManager → W → Option W
  exec_from zero i msg d m w = some w
  exec_from (suc k) i msg d m w = elim (m.modules i) [
    | none ↦ exec_from k (i + 1) msg d m w
    | some o ↦ elim (send_msg msg d o w) [
      | none ↦ none
      | some (result, v) ↦ exec_from k (i + 1) msg d m v
    ]
  ]

  pub exec_message_all : ℕ → D → ModuleManager → W → Option W
  exec_message_all msg d m w = exec_from max_protocol_num 0 msg d m w

-- The loop of `GetModuleByName` over `k` places from `i` on.
pub named_from : ℕ → ℕ → String → ModuleManager → Option ModuleObject
named_from zero i s m = none
named_from (suc k) i s m =
    let rest = named_from k (i + 1) s m in
    elim (m.modules i) [
      | none ↦ rest
      | some o ↦ if str_eq o.class.class_name s then some o else rest
    ]

pub get_module_by_name : String → ModuleManager → Option ModuleObject
get_module_by_name s m = named_from max_protocol_num 0 s m
