-- ===== src/Manager/Tests.antt =====
-- Two users of one name, of whom one leaves.
use qth_frame.Base.{List, [], ◌∷◌}
use qth_frame.Manager.{no_processors, Call, allocs, frees, serve}
use qth_frame.Manager.Count.{users, IsCounted, serve-IsCounted}

abbrev requests : List Call
requests = allocs 1 ∷ allocs 2 ∷ allocs 1 ∷ frees 1 ∷ frees 2 ∷ []

serve-IsCounted_example : IsCounted ((serve requests no_processors).table 1) (users 1 requests 0)
serve-IsCounted_example = serve-IsCounted requests 1
