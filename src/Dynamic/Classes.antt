-- ===== src/Dynamic/Classes.antt =====
-- The lookup of classes by name and by number, and the order of events
-- (include/frame/dynamic_create.h).
use Prim.Native.String.{String}
use text.Mathlib.TextEquality.{eq_iff}
use qth_frame.Base.{
  ℕ, ◌≡◌, ◌≢◌, refl, sym, ap, ◌∙◌, Bool, true, false, none, some, List, [], ◌∷◌, ◌==◌, ==_iff,
  arith, Bool-cases, inl, inr, All, Lacks, Distinct, map, ◌⊎◌,
}
use qth_frame.Dynamic.{
  RunTimeClass, max_protocol_num, is_named, create_named, create_numbered, name_of, id_of,
  ModuleEvent, less,
}

abbrev pub ids : List RunTimeClass → List ℕ
ids = map (λ c. c.class_id)

abbrev pub Mem : RunTimeClass → List RunTimeClass → Type 0
Mem c [] = ⊥
Mem c (d ∷ cs) = (d ≡ c) ⊎ Mem c cs

id_of_Mem :
    (c : RunTimeClass) (a : ℕ) (cs : List RunTimeClass)
    → Lacks a (ids cs)
    → Mem c cs
    → c.class_id ≢ a
id_of_Mem c a [] u h = absurd h
id_of_Mem c a (d ∷ cs) u (inl e) = λ q. u.0 (ap (λ (t : RunTimeClass). t.class_id) e ∙ q)
id_of_Mem c a (d ∷ cs) u (inr h) = id_of_Mem c a cs u.1 h

-- Both lookups by the number of a class of the list find it.
numbered-Mem :
    (c : RunTimeClass) (cs : List RunTimeClass)
    → Distinct (ids cs)
    → Mem c cs
    → (name_of c.class_id cs ≡ some c.class_name) × (create_numbered c.class_id cs ≡ c.create_fn)
unfolding name_of create_numbered
numbered-Mem c [] u h = absurd h
numbered-Mem c (d ∷ cs) u (inl e) =
    let t : (c.class_id == d.class_id) ≡ true =
      (==_iff c.class_id d.class_id).1 (ap (λ (t : RunTimeClass). t.class_id) (sym e)) in
    (
      rw (name_of, t) (ap (λ (t : RunTimeClass). some t.class_name) e),
      rw (create_numbered, t) (ap (λ (t : RunTimeClass). t.create_fn) e),
    )
numbered-Mem c (d ∷ cs) u (inr h) =
    let n = id_of_Mem c d.class_id cs u.0 h in
    let t : (c.class_id == d.class_id) ≡ false = ground arith in
    let rest = numbered-Mem c cs u.1 h in (rw (name_of, t) rest.0, rw (create_numbered, t) rest.1)

-- The first class of name `s`, as the lookups by the name see it.
pub record IsFirst (s : String) (cs : List RunTimeClass) (c : RunTimeClass) : Type 0 where
  pub listed : Mem c cs
  pub named : c.class_name ≡ s
  pub id : id_of (some s) cs ≡ c.class_id
  pub creates : create_named (some s) cs ≡ c.create_fn

-- No class has the name.
pub record IsUnknown (s : String) (cs : List RunTimeClass) : Type 0 where
  pub unnamed : All (λ c. c.class_name ≢ s) cs
  pub id : id_of (some s) cs ≡ max_protocol_num
  pub creates : create_named (some s) cs ≡ none

module _ (s : String) (c : RunTimeClass) (cs : List RunTimeClass) where
  IsFirst-head : is_named (some s) c ≡ true → IsFirst s (c ∷ cs) c
  unfolding id_of create_named
  IsFirst-head t = record {
    listed = inl refl;
    named = sym ((eq_iff s c.class_name).0 t);
    id = rw (id_of, t) refl;
    creates = rw (create_named, t) refl;
  }

  IsFirst-tail :
      (d : RunTimeClass) → is_named (some s) c ≡ false → IsFirst s cs d → IsFirst s (c ∷ cs) d
  unfolding id_of create_named
  IsFirst-tail d t f = record {
    listed = inr f.listed;
    named = f.named;
    id = rw (id_of, t) f.id;
    creates = rw (create_named, t) f.creates;
  }

  IsUnknown-cons : is_named (some s) c ≡ false → IsUnknown s cs → IsUnknown s (c ∷ cs)
  unfolding id_of create_named
  IsUnknown-cons t f = record {
    unnamed = (λ e. cc (t, (eq_iff s c.class_name).1 (sym e)), f.unnamed);
    id = rw (id_of, t) f.id;
    creates = rw (create_named, t) f.creates;
  }

search_named :
    (s : String) (cs : List RunTimeClass) → IsUnknown s cs ⊎ ((c : RunTimeClass) × IsFirst s cs c)
unfolding id_of create_named
search_named s [] = inl (record { unnamed = tt; id = refl; creates = refl })
search_named s (c ∷ cs) = elim (Bool-cases (is_named (some s) c)) [
  | inl t ↦ inr (c, IsFirst-head s c cs t)
  | inr t ↦ elim (search_named s cs) [
    | inl u ↦ inl (IsUnknown-cons s c cs t u)
    | inr (d, f) ↦ inr (d, IsFirst-tail s c cs d t f)
  ]
]

-- The lookup by the number that the lookup by the name finds leads back to the name, and to the same
-- constructor.
abbrev pub Agrees : String → List RunTimeClass → Type 0
Agrees s cs =
    (name_of (id_of (some s) cs) cs ≡ some s)
    × (create_numbered (id_of (some s) cs) cs ≡ create_named (some s) cs)

-- In a list of classes with different numbers, a name either belongs to no class, and then the
-- lookups answer 255 and NULL, or is that of a class whose number the lookup by name finds; then
-- the lookup by that number leads back to the name, and creation by number to the same constructor
-- as creation by name.
pub name_of-id_of :
    (s : String) (cs : List RunTimeClass)
    → Distinct (ids cs)
    → IsUnknown s cs ⊎ ((c : RunTimeClass) × IsFirst s cs c × Agrees s cs)
name_of-id_of s cs u = elim (search_named s cs) [
  | inl q ↦ inl q
  | inr (c, f) ↦
      let (n, k) = numbered-Mem c cs u f.listed in
      inr (
        c,
        f,
        (
          ap (λ i. name_of i cs) f.id ∙ n ∙ ap some f.named,
          ap (λ i. create_numbered i cs) f.id ∙ k ∙ sym f.creates,
        ),
      )
]

-- `std::sort` asks for such an order; `total` says that it leaves no choice.
pub record IsOrder (lt : ModuleEvent → ModuleEvent → Bool) : Type 0 where
  pub irreflexive : (a : ModuleEvent) → lt a a ≡ false
  pub transitive : (a b c : ModuleEvent) → lt a b ≡ true → lt b c ≡ true → lt a c ≡ true
  pub total : (a b : ModuleEvent) → lt a b ≡ false → lt b a ≡ false → a ≡ b

ModuleEvent-ext : (a b : ModuleEvent) → a.priority ≡ b.priority → a.module_id ≡ b.module_id → a ≡ b
ModuleEvent-ext a b e f i = record { priority = e i; module_id = f i }

pub less-IsOrder : IsOrder less
less-IsOrder = record {
  irreflexive = λ a. ground arith;
  transitive = λ a b c p q. ground arith;
  total = λ a b p q. ModuleEvent-ext a b (ground arith) (ground arith);
}
