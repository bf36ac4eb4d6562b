-- ===== src/Timer.antt =====
-- `class CTimer` (src/timer.cpp, include/asio/timer.h): the table of timers and the objects behind it.
-- A pointer to a timer object is a number, and an object that is not in the store has been given back.
-- A wait of the IO service that ends without an error is a call of `fire`. An operation that touches
-- an object that was given back answers none.
pub mod Life
mod Tests
use qth_frame.Base.{
  ℕ, zero, suc, Bool, true, false, Option, none, some, List, [], ◌∷◌, ◌++◌, ◌==◌, if◌then◌else◌,
}

-- `nRunTimes`: below zero it is forever.
pub data Runs : Type 0 where
  forever : Runs
  left : ℕ → Runs

-- `STimerObj`; the callback is a number.
pub record Timer : Type 0 where
  pub id_event : ℕ
  pub elapse : ℕ
  pub runs : Runs
  pub callback : ℕ

-- `m_ts`, the objects, and the callbacks posted to the processor with high priority, in order.
pub record Timers : Type 0 where
  pub table : ℕ → Option ℕ
  pub store : ℕ → Option Timer
  pub posted : List ℕ

abbrev pub put : {A : Type 0} → (ℕ → A) → ℕ → A → ℕ → A
put f k v j = if k == j then v else f j

-- `place` is what the allocator answers if an object has to be made.
pub set_timer : Option ℕ → ℕ → ℕ → ℕ → Runs → Timers → Option (Bool × Timers)
set_timer place k elapse callback runs s =
    let timer : Timer = record {
      id_event = k;
      elapse = elapse;
      runs = runs;
      callback = callback;
    } in
    elim (s.table k) [
      | none ↦ elim place [
        | none ↦ some (false, s)
        | some p ↦
            some (
              true,
              record s { table = put s.table k (some p); store = put s.store p (some timer) },
            )
      ]
      | some p ↦ elim (s.store p) [
        | none ↦ none
        | some o ↦ some (
          true,
          record s {
            store =
                put s.store p
                  (some (record o { elapse = elapse; runs = runs; callback = callback }));
          },
        )
      ]
    ]

pub kill_timer : ℕ → Timers → Option Timers
kill_timer k s = elim (s.table k) [
  | none ↦ some s
  | some p ↦ elim (s.store p) [
    | none ↦ none
    | some o ↦ some (record s {
      table = put s.table k none;
      store = put s.store p (some (record o { runs = left 0 }));
    })
  ]
]

abbrev pub post : ℕ → Timers → Timers
post callback s = record s { posted = s.posted ++ callback ∷ [] }

-- `run`, for the object that is there.
pub fire_object : ℕ → Timer → Runs → Timers → Timers
fire_object p o forever s = post o.callback s
fire_object p o (left zero) s = record s { store = put s.store p none }
fire_object p o (left (suc n)) s = record (post o.callback s) {
  store = put s.store p (some (record o { runs = left n }));
}

pub fire : ℕ → Timers → Option Timers
fire p s = elim (s.store p) [ none ↦ none | some o ↦ some (fire_object p o o.runs s) ]

-- `n` waits that end.
pub fires : ℕ → ℕ → Timers → Option Timers
fires zero p s = some s
fires (suc n) p s = elim (fire p s) [ none ↦ none | some t ↦ fires n p t ]
