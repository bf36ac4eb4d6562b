-- ===== src/Dynamic.antt =====
-- Classes that are created by name or number, and the manager that creates a module of each class and
-- passes messages and events to them (include/frame/dynamic_create.h).
pub mod Classes
pub mod Manager
use Prim.Native.String.{String}
use text.Mathlib.Text.{◌==◌ as str_eq}
pub use qth_frame.Modules.{max_protocol_num}
use qth_frame.Base.{
  ℕ, ◌<◌, ◌≡◌, Bool, false, ◌&&◌, ◌||◌, Option, none, some, List, [], ◌∷◌, ltb, ◌==◌, assign,
  if◌then◌else◌,
}

-- `MessageMap`: the handler of each message; a handler is a number, and none is NULL.
abbrev pub MessageMap : Type 0
MessageMap = ℕ → Option ℕ

abbrev pub no_messages : MessageMap
no_messages i = none

-- `pushMessage`
abbrev pub push_message : MessageMap → ℕ → ℕ → MessageMap
push_message map msg f = assign map msg (some f)

-- What the virtual functions of an object answer: the number and the priority of `GetRuntimeClass`,
-- and `GetMessageMap`, each of which is NULL in the base class.
pub record Kind : Type 0 where
  pub runtime_class : Option (ℕ × ℕ)
  pub message_map : Option MessageMap

-- `RunTimeClassEx`, with what its `m_pCreateFn` makes; the list of classes stands for `m_pNext`.
pub record RunTimeClass : Type 0 where
  pub class_id : ℕ
  pub priority : ℕ
  pub class_name : String
  pub create_fn : Option Kind

-- `QTH_MAX_MESSAGE_NUM`
abbrev pub max_message_num : ℕ
max_message_num = 255

-- `IMPLEMENT_DYNAMIC_CREATE` and `DECLARE_DYNAMIC_CREATE`: the class, of number `i`, priority `p` and
-- name `s`, of objects with the message map `map`.
pub implement_dynamic_create : ℕ → ℕ → String → Option MessageMap → RunTimeClass
implement_dynamic_create i p s map = record {
  class_id = i;
  priority = p;
  class_name = s;
  create_fn = some (record { runtime_class = some (i, p); message_map = map });
}

-- `initRunTimeClassEx`
pub init_run_time_class : RunTimeClass → List RunTimeClass → List RunTimeClass
init_run_time_class c first = c ∷ first

-- The test of the loops on a name, which may be NULL.
abbrev pub is_named : Option String → RunTimeClass → Bool
is_named none c = false
is_named (some s) c = str_eq s c.class_name

-- `CreateObject(const char*)`
pub create_named : Option String → List RunTimeClass → Option Kind
create_named s [] = none
create_named s (c ∷ cs) = let rest = create_named s cs in if is_named s c then c.create_fn else rest

-- `CreateObject(M_TYPE)`
pub create_numbered : ℕ → List RunTimeClass → Option Kind
create_numbered i [] = none
create_numbered i (c ∷ cs) =
    let rest = create_numbered i cs in if i == c.class_id then c.create_fn else rest

-- `findRunTimeClass(M_TYPE)`
pub name_of : ℕ → List RunTimeClass → Option String
name_of i [] = none
name_of i (c ∷ cs) = let rest = name_of i cs in if i == c.class_id then some c.class_name else rest

-- `findRunTimeClass(const char*)`
pub id_of : Option String → List RunTimeClass → ℕ
id_of s [] = max_protocol_num
id_of s (c ∷ cs) = let rest = id_of s cs in if is_named s c then c.class_id else rest

-- `SModuleEvent`
pub record ModuleEvent : Type 0 where
  pub priority : ℕ
  pub module_id : ℕ

-- `SModuleEvent::operator<`
abbrev pub less : ModuleEvent → ModuleEvent → Bool
less a b =
    if a.priority == b.priority then ltb a.module_id b.module_id else ltb a.priority b.priority
