-- ===== src/Timer/Tests.antt =====
-- Timer 7 in the object 1.
use qth_frame.Base.{refl, none, some, [], ◌∷◌}
use qth_frame.Timer.{Timers, Timer, forever, put}
use qth_frame.Timer.Life.{IsStale, set_timer-IsStale, IsKilled, kill_timer-IsKilled}

abbrev no_timers : Timers
no_timers = record { table = λ k. none; store = λ p. none; posted = [] }

abbrev timer : Timer
timer = record { id_event = 7; elapse = 50; runs = forever; callback = 3 }

abbrev one_timer : Timers
one_timer = record {
  table = put (λ k. none) 7 (some 1);
  store = put (λ p. none) 1 (some timer);
  posted = 3 ∷ [];
}

set_timer-IsStale_example : IsStale 1 7 50 3 2 no_timers
set_timer-IsStale_example = set_timer-IsStale 1 7 50 3 2 no_timers refl

kill_timer-IsKilled_example : IsKilled 7 1 one_timer
kill_timer-IsKilled_example = kill_timer-IsKilled 7 1 timer one_timer refl refl
