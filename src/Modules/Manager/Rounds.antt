-- ===== src/Modules/Manager/Rounds.antt =====
-- One round of the loop of `Init` of `ModuleManager` (src/module_manager.cpp).
use Prim.Native.String.{String}
use text.Mathlib.Text.{◌==◌ as str_eq}
use qth_frame.Base.{
  ℕ, suc, ◌<◌, ◌≡◌, refl, sym, ap, ◌∙◌, subst, Bool, true, false, ◌&&◌, not, Option, none, some,
  List, [], ◌∷◌, ◌++◌, ◌==◌, if◌then◌else◌, Option-cases, Bool-cases, inl, inr,
}
use qth_frame.Modules.{max_protocol_num}
use qth_frame.Modules.Manager.{
  ModuleClass, ModuleObject, ModuleManager, ModuleConfigMap, find_config, is_module, place,
  configured, init_class,
}

-- A class of modules: one that is derived from `Module` and from nothing else.
abbrev pub is_direct : ModuleClass → Bool
is_direct c = if str_eq c.class_name "Module" then false else is_module c.base

abbrev pub number_of : Option (ℕ × String) → Option ℕ
number_of none = none
number_of (some (i, name)) = some i

-- The number that a configuration gives to a class; one that is empty leaves it its own.
abbrev pub number_in : ModuleConfigMap → ModuleClass → Option ℕ
number_in [] c = some c.id
number_in (e ∷ es) c = number_of (find_config c.class_name (e ∷ es))

-- The place of the module of this class, if it has one.
abbrev pub place_of : ModuleConfigMap → ModuleClass → Option ℕ
place_of cfg c = if is_direct c && c.create_fn then number_in cfg c else none

abbrev pub is_some {ℓ} : {A : Type ℓ} → Option A → Bool
is_some none = false
is_some (some a) = true

-- No class of modules is left out.
abbrev pub is_complete : ModuleConfigMap → List ModuleClass → Bool
is_complete cfg [] = true
is_complete cfg (c ∷ cs) =
    (if is_direct c then is_some (place_of cfg c) else true) && is_complete cfg cs

abbrev pub Fits : Option ℕ → Type 0
Fits none = Unit
Fits (some i) = i < max_protocol_num

-- What stands in the place `i` after a class with this place, over `old`.
abbrev pub updated : Option ℕ → String → ℕ → Option String → Option String
updated none s i old = old
updated (some j) s i old = if j == i then some s else old

-- The name of the last class whose place is `i`, or else `old`.
abbrev pub last_at : ModuleConfigMap → ℕ → List ModuleClass → Option String → Option String
last_at cfg i [] old = old
last_at cfg i (c ∷ cs) old = last_at cfg i cs (updated (place_of cfg c) c.class_name i old)

abbrev pub named : Option ModuleObject → Option String
named none = none
named (some o) = some o.class.class_name

abbrev pub name_at : ModuleManager → ℕ → Option String
name_at m i = named (m.modules i)

-- What a round of the loop does with a class.
pub data Rounds (cfg : ModuleConfigMap) (c : ModuleClass) (ok : Bool) (m : ModuleManager)
    : Option (Bool × ModuleManager) → Type 0 where
  skipped :
      (n : ModuleManager)
      → place_of cfg c ≡ none
      → n.modules ≡ m.modules
      → Rounds cfg c ok m (some ((if is_direct c then false else ok), n))
  placed :
      (i : ℕ) (o : ModuleObject) (n : ModuleManager)
      → is_direct c ≡ true
      → place_of cfg c ≡ some i
      → o.class.class_name ≡ c.class_name
      → n.modules ≡ m.modules
      → Rounds cfg c ok m (place i o (ok, n))

module _ (cfg : ModuleConfigMap) (c : ModuleClass) (ok : Bool) (m : ModuleManager) where
  abbrev made : ModuleObject
  made = record { object = m.fresh; class = c }

  abbrev after : ModuleManager
  after = record m { fresh = suc m.fresh }

  abbrev creates : ModuleConfigMap → Option (Bool × ModuleManager)
  creates [] = place c.id made (ok, after)
  creates (e ∷ es) = configured (find_config c.class_name (e ∷ es)) made (ok, after)

  -- The round by the answers of its tests.
  abbrev chosen : Bool → Bool → Bool → Option (Bool × ModuleManager)
  chosen s b k =
      if s
      then some (ok, m)
      else if not b
      then some (ok, m)
      else if k
      then creates cfg
      else some (false, m)

  init_class-chosen :
      init_class cfg c (ok, m)
      ≡ chosen (str_eq c.class_name "Module") (is_module c.base) c.create_fn
  unfolding init_class
  init_class-chosen = refl

  direct_tests :
      is_direct c ≡ true → (str_eq c.class_name "Module" ≡ false) × (is_module c.base ≡ true)
  direct_tests d = elim (Bool-cases (str_eq c.class_name "Module")) [
    | inl p ↦ cc (d, ap (λ s. if s then false else is_module c.base) p)
    | inr p ↦ (p, sym (ap (λ s. if s then false else is_module c.base) p) ∙ d)
  ]

  chosen-direct :
      (k : Bool)
      → is_direct c ≡ true
      → c.create_fn ≡ k
      → init_class cfg c (ok, m) ≡ chosen false true k
  chosen-direct k d e =
      let (p, q) = direct_tests d in
      init_class-chosen
      ∙ ap (λ s. chosen s (is_module c.base) c.create_fn) p
      ∙ ap (λ b. chosen false b c.create_fn) q
      ∙ ap (chosen false true) e

  chosen-indirect : is_direct c ≡ false → init_class cfg c (ok, m) ≡ some (ok, m)
  chosen-indirect d = elim (Bool-cases (str_eq c.class_name "Module")) [
    | inl p ↦ init_class-chosen ∙ ap (λ s. chosen s (is_module c.base) c.create_fn) p
    | inr p ↦
        init_class-chosen
        ∙ ap (λ s. chosen s (is_module c.base) c.create_fn) p
        ∙ ap (λ b. chosen false b c.create_fn)
            (sym (ap (λ s. if s then false else is_module c.base) p) ∙ d)
  ]

  place_of-flags :
      (d k : Bool)
      → is_direct c ≡ d
      → c.create_fn ≡ k
      → place_of cfg c ≡ (if d && k then number_in cfg c else none)
  place_of-flags d k p q =
      ap (λ b. if b && c.create_fn then number_in cfg c else none) p
      ∙ ap (λ b. if d && b then number_in cfg c else none) q

  Rounds-skipped :
      (d : Bool) (n : ModuleManager)
      → is_direct c ≡ d
      → place_of cfg c ≡ none
      → n.modules ≡ m.modules
      → init_class cfg c (ok, m) ≡ some ((if d then false else ok), n)
      → Rounds cfg c ok m (init_class cfg c (ok, m))
  Rounds-skipped d n p q r e =
      subst (Rounds cfg c ok m) (ap (λ b. some ((if b then false else ok), n)) p ∙ sym e)
        (skipped n q r)

created_with :
    (cfg : ModuleConfigMap) (c : ModuleClass) (ok : Bool) (m : ModuleManager)
    → is_direct c ≡ true
    → place_of cfg c ≡ number_in cfg c
    → Rounds cfg c ok m (creates cfg c ok m cfg)
created_with [] c ok m d p = placed c.id (made [] c ok m) (after [] c ok m) d p refl refl
created_with (e ∷ es) c ok m d p = elim (Option-cases (find_config c.class_name (e ∷ es))) [
  | inl q ↦
      let n : ModuleManager = record m {
        fresh = suc m.fresh;
        deleted = m.deleted ++ m.fresh ∷ [];
      } in
      subst (Rounds (e ∷ es) c ok m)
        (ap (λ b. some ((if b then false else ok), n)) d
          ∙ sym (ap (λ r. configured r (made (e ∷ es) c ok m) (ok, after (e ∷ es) c ok m)) q))
        (skipped n (p ∙ ap number_of q) refl)
  | inr ((i, name), q) ↦
      let o : ModuleObject = record { object = m.fresh; class = record c { id = i } } in
      subst (Rounds (e ∷ es) c ok m)
        (sym (ap (λ r. configured r (made (e ∷ es) c ok m) (ok, after (e ∷ es) c ok m)) q))
        (placed i o (record m { fresh = suc m.fresh }) d (p ∙ ap number_of q) refl refl)
]

pub init_class-Rounds :
    (cfg : ModuleConfigMap) (c : ModuleClass) (ok : Bool) (m : ModuleManager)
    → Rounds cfg c ok m (init_class cfg c (ok, m))
init_class-Rounds cfg c ok m = elim (Bool-cases (is_direct c)) [
  | inr d ↦
      Rounds-skipped cfg c ok m false m d (place_of-flags cfg c ok m false c.create_fn d refl) refl
        (chosen-indirect cfg c ok m d)
  | inl d ↦ elim (Bool-cases c.create_fn) [
    | inr k ↦
        Rounds-skipped cfg c ok m true m d (place_of-flags cfg c ok m true false d k) refl
          (chosen-direct cfg c ok m false d k)
    | inl k ↦
        subst (Rounds cfg c ok m) (sym (chosen-direct cfg c ok m true d k))
          (created_with cfg c ok m d (place_of-flags cfg c ok m true true d k))
  ]
]
