-- ===== src/Modules/Manager/Placing.antt =====
-- Which module `Init` of `ModuleManager` (src/module_manager.cpp) leaves in which place.
use qth_frame.Base.{
  ℕ, ◌<◌, ◌≡◌, refl, sym, ap, ◌∙◌, subst, Bool, true, false, ◌&&◌, Option, none, some, List, [],
  ◌∷◌, ltb, ◌==◌, arith, assign, ℕ_discrete, if◌then◌else◌, All,
}
use qth_frame.Modules.{max_protocol_num}
use qth_frame.Modules.Manager.{
  ModuleClass, ModuleObject, ModuleManager, ModuleConfigMap, place, Node, do_read_xml, init,
  init_class, init_classes,
}
use qth_frame.Modules.Manager.Rounds.{
  is_direct, place_of, is_some, is_complete, Fits, updated, last_at, named, name_at, Rounds,
  skipped, placed, init_class-Rounds,
}

-- What `Init` comes to: no write is out of range, the answer says whether a module is left out, and
-- each place has the module of the last class that goes there.
pub record IsInit (cfg : ModuleConfigMap) (cs : List ModuleClass) (ok : Bool) (m : ModuleManager)
    (r : Option (Bool × ModuleManager)) : Type 0 where
  pub result : ModuleManager
  pub answers : r ≡ some (ok && is_complete cfg cs, result)
  pub places : (i : ℕ) → name_at result i ≡ last_at cfg i cs (name_at m i)

-- What a round leaves: no write out of range, and the class in its place.
abbrev Leaves :
    ModuleConfigMap → ModuleClass → Bool → ModuleManager → Option (Bool × ModuleManager) → Type 0
Leaves cfg c ok m r =
    (n : ModuleManager) × (r
      ≡ some (ok && (if is_direct c then is_some (place_of cfg c) else true), n))
    × ((i : ℕ) → name_at n i ≡ updated (place_of cfg c) c.class_name i (name_at m i))

and_not : (d ok : Bool) → ok && (if d then false else true) ≡ (if d then false else ok)
and_not true true = refl
and_not true false = refl
and_not false true = refl
and_not false false = refl

and_true : (ok : Bool) → ok && true ≡ ok
and_true true = refl
and_true false = refl

and_assoc : (a b c : Bool) → (a && b) && c ≡ a && (b && c)
and_assoc true b c = refl
and_assoc false b c = refl

module _ (i : ℕ) (o : ModuleObject) (ok : Bool) (n : ModuleManager) where
  abbrev filled : ModuleManager
  filled = record n { modules = assign n.modules i (some o) }

  place-filled : i < max_protocol_num → place i o (ok, n) ≡ some (ok, filled)
  unfolding place
  place-filled h = let t : ltb i max_protocol_num ≡ true = ground arith in rw (place, t) refl

  filled-at : (j : ℕ) → name_at filled j ≡ updated (some i) o.class.class_name j (name_at n j)
  filled-at j = elim (ℕ_discrete i j) [
    | yes e ↦ let t : (i == j) ≡ true = ground arith in rw t refl
    | no e ↦ let t : (i == j) ≡ false = ground arith in rw t refl
  ]

Rounds-Leaves :
    (cfg : ModuleConfigMap) (c : ModuleClass) (ok : Bool) (m : ModuleManager)
    (r : Option (Bool × ModuleManager))
    → Fits (place_of cfg c)
    → Rounds cfg c ok m r
    → Leaves cfg c ok m r
Rounds-Leaves cfg c ok m _ f (skipped n p q) = (
  n,
  ap (λ b. some (b, n))
      (sym (and_not (is_direct c) ok)
        ∙ ap (λ o. ok && (if is_direct c then is_some o else true)) (sym p)),
  λ i.
      ap (λ (t : ℕ → Option ModuleObject). named (t i)) q
      ∙ ap (λ o. updated o c.class_name i (name_at m i)) (sym p),
)
Rounds-Leaves cfg c ok m _ f (placed i o n d p e q) = (
  filled i o ok n,
  place-filled i o ok n (subst Fits p f)
      ∙ ap (λ b. some (b, filled i o ok n))
          (sym (and_true ok)
            ∙ ap (λ b. ok && (if b then true else true)) (sym d)
            ∙ ap (λ a. ok && (if is_direct c then is_some a else true)) (sym p)),
  λ j.
      filled-at i o ok n j
      ∙ ap (λ s. updated (some i) s j (name_at n j)) e
      ∙ ap (λ (t : ℕ → Option ModuleObject). updated (some i) c.class_name j (named (t j))) q
      ∙ ap (λ a. updated a c.class_name j (name_at m j)) (sym p),
)

init_classes-then :
    (cfg : ModuleConfigMap) (c : ModuleClass) (cs : List ModuleClass) (s t : Bool × ModuleManager)
    → init_class cfg c s ≡ some t
    → init_classes cfg (c ∷ cs) s ≡ init_classes cfg cs t
unfolding init_classes
init_classes-then cfg c cs s t e = rw (init_classes, e) refl

pub init_classes-IsInit :
    (cfg : ModuleConfigMap) (cs : List ModuleClass) (ok : Bool) (m : ModuleManager)
    → All (λ c. Fits (place_of cfg c)) cs
    → IsInit cfg cs ok m (init_classes cfg cs (ok, m))
unfolding init_classes
init_classes-IsInit cfg [] ok m f = record {
  result = m;
  answers = ap (λ b. some (b, m)) (sym (and_true ok));
  places = λ i. refl;
}
init_classes-IsInit cfg (c ∷ cs) ok m f =
    let (n, e, at) =
      Rounds-Leaves cfg c ok m (init_class cfg c (ok, m)) f.0 (init_class-Rounds cfg c ok m) in
    let fine = if is_direct c then is_some (place_of cfg c) else true in
    let rest = init_classes-IsInit cfg cs (ok && fine) n f.1 in
    record {
      result = rest.result;
      answers =
          init_classes-then cfg c cs (ok, m) (ok && fine, n) e
          ∙ rest.answers
          ∙ ap (λ b. some (b, rest.result)) (and_assoc ok fine (is_complete cfg cs));
      places = λ i. rest.places i ∙ ap (last_at cfg i cs) (at i);
    }

-- A manager as its constructor leaves it.
abbrev pub no_modules : ModuleManager
no_modules = record { modules = λ i. none; fresh = 0; deleted = [] }

-- Where the numbers of the modules, from the configuration or, with an empty one, from the classes,
-- are below 255, `Init` on a new manager writes no place out of range, answers true exactly if no
-- class derived from `Module` alone is left out for want of a constructor or of an entry in the
-- configuration, and leaves in each place a module of the last class that goes there, and none
-- where no class does.
pub init-IsInit :
    (file : Option (List Node)) (cfg : ModuleConfigMap) (cs : List ModuleClass)
    → All (λ c. Fits (place_of (do_read_xml file cfg) c)) cs
    → IsInit (do_read_xml file cfg) cs true no_modules (init file cfg cs no_modules)
unfolding init
init-IsInit file cfg cs f = init_classes-IsInit (do_read_xml file cfg) cs true no_modules f
