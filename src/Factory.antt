-- ===== src/Factory.antt =====
-- `Factory` (include/utility/objFactory.h): creators by identifier, which is a number here. The map is kept in
-- ascending order, as `std::map` keeps it; a creator is code of the framework's user.
pub mod Lookup
pub mod Refine
mod Tests
use qth_frame.Base.{ℕ, Option, none, some, List, [], ◌∷◌, ltb, ◌==◌, if◌then◌else◌}

module _ {C : Type 0} where
  -- `m_data.find`
  pub find_creator : ℕ → List (ℕ × C) → Option C
  find_creator i [] = none
  find_creator i ((k, c) ∷ m) = let rest = find_creator i m in if i == k then some c else rest

  -- `Register`: `m_data.insert`, which keeps what is there.
  pub register : ℕ → C → List (ℕ × C) → List (ℕ × C)
  register i c [] = (i, c) ∷ []
  register i c ((k, d) ∷ m) =
      let rest = register i c m in
      if ltb i k then (i, c) ∷ (k, d) ∷ m else if i == k then (k, d) ∷ m else (k, d) ∷ rest

  -- `Unregister`: `m_data.erase`
  pub unregister : ℕ → List (ℕ × C) → List (ℕ × C)
  unregister i [] = []
  unregister i ((k, d) ∷ m) = let rest = unregister i m in if i == k then m else (k, d) ∷ rest

  -- `RegisterIDs`
  pub register_ids : List (ℕ × C) → List ℕ
  register_ids [] = []
  register_ids ((k, d) ∷ m) = k ∷ register_ids m

-- What `CreateObject` comes to: a product, NULL, or an exception with the identifier.
pub data Creation (P : Type 0) : Type 0 where
  made : P → Creation P
  null : Creation P
  thrown : ℕ → Creation P

-- `NullPtrFactoryError` and `ExceptionFactoryError`
pub data ErrorPolicy : Type 0 where
  null_ptr exception : ErrorPolicy

pub on_unknown_type : {P : Type 0} → ErrorPolicy → ℕ → Creation P
on_unknown_type null_ptr i = null
on_unknown_type exception i = thrown i

-- `CreateObject`, where `call` calls a creator.
pub create_object : {C P : Type 0} → (C → P) → ErrorPolicy → ℕ → List (ℕ × C) → Creation P
create_object call policy i m = elim (find_creator i m) [
  | none ↦ on_unknown_type policy i
  | some c ↦ made (call c)
]
