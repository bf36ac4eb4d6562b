-- ===== src/Factory/Tests.antt =====
-- A factory with two creators, of which one is registered twice.
use qth_frame.Base.{List, [], ◌∷◌, ◌+◌, ℕ, ◌≡◌, refl}
use qth_frame.Factory.{
  null_ptr, exception, create_object, thrown, register, unregister, find_creator, on_unknown_type,
}
use qth_frame.Factory.Refine.{Call, registers, unregisters, serve, IsFactory, serve-IsFactory}

abbrev calls : List (Call ℕ)
calls = registers 5 50 ∷ registers 2 20 ∷ registers 5 51 ∷ unregisters 2 ∷ []

unknown_identifier : create_object (λ (c : ℕ). c + 1) exception 2 (serve calls []) ≡ thrown 2
unfolding create_object register unregister find_creator on_unknown_type
unknown_identifier = refl

serve-IsFactory_example : IsFactory ℕ (λ c. c + 1) null_ptr calls (serve calls [])
serve-IsFactory_example = serve-IsFactory (λ c. c + 1) null_ptr calls
