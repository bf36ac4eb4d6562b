-- ===== src/Single/Tests.antt =====
-- Three singletons.
use qth_frame.Base.{ℕ, List, [], ◌∷◌}
use qth_frame.Single.{start, use_all, exit_all}
use qth_frame.Single.Exit.{IsExited, exit_all-use_all}

abbrev uses : List (ℕ × ℕ)
uses = (1, 5) ∷ (2, 9999) ∷ (1, 5) ∷ (3, 0) ∷ []

exit_all-use_all_example : IsExited uses (use_all uses start) (exit_all (use_all uses start))
exit_all-use_all_example = exit_all-use_all uses
