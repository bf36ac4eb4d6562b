-- ===== src/Processor/Tests.antt =====
-- Concrete runs of a processor and of a sent task.
use qth_frame.Base.{ℕ, ◌+◌, ◌≡◌, refl, true, List, [], ◌∷◌, ◌++◌}
use qth_frame.Processor.{
  waiting, timed_out, State, running, user, Processor, highs, stop, run_all, serve,
}
use qth_frame.Processor.Drain.{Dealt, run_all-Dealt}
use qth_frame.Processor.Stop.{stop_drains, halted}
use qth_frame.Processor.SysTask.{pushed, Turn, of_sender, of_worker, run}
use qth_frame.Processor.SysTask.Life.{IsHonest, IsOver, four_each, run-IsHonest, run-IsOver}

-- Each task posts its successor with low priority.
abbrev successor : ℕ → List (ℕ × ℕ)
successor t = (t + 1, 0) ∷ []

abbrev loaded : State → Processor ℕ
loaded s = record {
  state = s;
  sys = [];
  high = user 1 ∷ user 2 ∷ [];
  normal = user 3 ∷ [];
  low = user 4 ∷ [];
  log = [];
}

run_all-Dealt_example :
    ((run_all successor (loaded running)).0 ≡ true)
    × Dealt successor highs
        (user 1 ∷ user 2 ∷ [])
        []
        (loaded running)
        (run_all successor (loaded running)).1
run_all-Dealt_example = run_all-Dealt successor highs (loaded running) cc

-- Two system tasks are queued, of which one has timed out.
abbrev asked : Processor ℕ
asked = record (loaded running) { sys = timed_out ∷ waiting 9 ∷ [] }

stop_drains_example : serve successor 5 (stop asked) ≡ halted (user 4 ∷ []) (9 ∷ 1 ∷ 2 ∷ 3 ∷ [])
stop_drains_example = stop_drains successor 0 (1 ∷ 2 ∷ []) (3 ∷ []) asked refl refl refl

abbrev hasty : List Turn
hasty = of_sender ∷ of_worker ∷ of_sender ∷ of_worker ∷ []

run-IsHonest_example : IsHonest (run hasty pushed).sender (run hasty pushed).runs
run-IsHonest_example = run-IsHonest hasty

run-IsOver_example : IsOver (run (hasty ++ four_each) pushed)
run-IsOver_example = run-IsOver hasty
