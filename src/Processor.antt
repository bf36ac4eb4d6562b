-- ===== src/Processor.antt =====
-- `class CProcessor` of include/utility/processor.h and src/processor.cpp: one thread that works off
-- four task queues. A queue is a list here; Queue.Refine is about `RWQueue` and lists. What a task does is
-- the user's code: here a task is a value, and `posts t` are the tasks that it posts to its own
-- processor while it runs, with their priorities.
pub mod Growth
pub mod Drain
pub mod Stop
pub mod SysTask
mod Tests
use qth_frame.Base.{
  ℕ, zero, suc, ◌+◌, Bool, true, false, List, [], ◌∷◌, ◌++◌, length, ◌==◌, if◌then◌else◌,
}

-- `EState`, in the order of the source.
pub data State : Type 0 where
  running pause stopping stoped : State

-- `ETaskPriority`; any other number is refused by `PostTask`.
abbrev pub low_priority : ℕ
low_priority = 0

abbrev pub normal_priority : ℕ
normal_priority = 1

abbrev pub high_priority : ℕ
high_priority = 2

-- A task of a user, or the bound call of `InternalStop`.
pub data Job (T : Type 0) : Type 0 where
  user : T → Job T
  internal_stop : Job T

-- A task of `m_sysQueue` when the processor comes to it: the sender waits, or its time is over.
pub data SysJob (T : Type 0) : Type 0 where
  waiting : T → SysJob T
  timed_out : SysJob T

pub record Processor (T : Type 0) : Type 0 where
  pub state : State
  pub sys : List (SysJob T)
  pub high : List (Job T)
  pub normal : List (Job T)
  pub low : List (Job T)
  pub log : List T

-- Which of the three queues `InternalDealTask` was given.
pub data Which : Type 0 where
  highs normals lows : Which

abbrev pub exceeds_pause : State → Bool
exceeds_pause running = false
exceeds_pause pause = false
exceeds_pause stopping = true
exceeds_pause stoped = true

abbrev pub is_stoped : State → Bool
is_stoped running = false
is_stoped pause = false
is_stoped stopping = false
is_stoped stoped = true

module _ {T : Type 0} where
  pub post_task : T → ℕ → Processor T → Bool × Processor T
  post_task t pri p =
      if exceeds_pause p.state
      then (false, p)
      else if pri == high_priority
      then (true, record p { high = p.high ++ user t ∷ [] })
      else if pri == normal_priority
      then (true, record p { normal = p.normal ++ user t ∷ [] })
      else if pri == low_priority
      then (true, record p { low = p.low ++ user t ∷ [] })
      else (false, p)

  pub post_all : List (T × ℕ) → Processor T → Processor T
  post_all [] p = p
  post_all ((t, pri) ∷ ts) p = post_all ts (post_task t pri p).1

  abbrev pub queue_of : Which → Processor T → List (Job T)
  queue_of highs p = p.high
  queue_of normals p = p.normal
  queue_of lows p = p.low

  abbrev pub is_empty : List (Job T) → Bool
  is_empty [] = true
  is_empty (j ∷ js) = false

  -- `que.pop();`
  abbrev pub tail_of : List (Job T) → List (Job T)
  tail_of [] = []
  tail_of (j ∷ js) = js

  pub pop_of : Which → Processor T → Processor T
  pop_of highs p = record p { high = tail_of p.high }
  pop_of normals p = record p { normal = tail_of p.normal }
  pop_of lows p = record p { low = tail_of p.low }

  -- `Stop`, from another thread or from a task.
  pub stop : Processor T → Processor T
  stop p =
      if exceeds_pause p.state
      then p
      else record p { state = stopping; normal = p.normal ++ internal_stop ∷ [] }

module _ {T : Type 0} (posts : T → List (T × ℕ)) where
  -- `task();`
  pub run_job : Job T → Processor T → Processor T
  run_job (user t) p = post_all (posts t) (record p { log = p.log ++ t ∷ [] })
  run_job internal_stop p = record p { state = stoped }

  -- `FTask& task = que.front(); task(); que.pop();`
  pub deal_one : Which → List (Job T) → Processor T → Processor T
  deal_one w [] p = p
  deal_one w (j ∷ js) p = pop_of w (run_job j p)

  -- The loop of `InternalDealTask`, with `n` rounds left.
  pub deal_task : ℕ → Which → Processor T → Processor T
  deal_task zero w p = p
  deal_task (suc n) w p = deal_task n w (deal_one w (queue_of w p) p)

  pub run_all : Processor T → Bool × Processor T
  run_all p =
      if is_empty p.high
      then (if is_empty p.normal
          then (if is_empty p.low then (false, p) else (true, deal_task (length p.low) lows p))
          else (true, deal_task (length p.normal) normals p))
      else (true, deal_task (length p.high) highs p)

  -- `InternalDealSysTask`, which takes the task off its queue before it runs it.
  pub deal_sys : SysJob T → List (SysJob T) → Processor T → Processor T
  deal_sys (waiting t) rest p = run_job (user t) (record p { sys = rest })
  deal_sys timed_out rest p = record p { sys = rest }

  abbrev one_sys : List (SysJob T) → Processor T → Bool × Processor T
  one_sys [] p = (false, p)
  one_sys (j ∷ js) p = (true, deal_sys j js p)

  -- `RunOneSys`
  pub run_one_sys : Processor T → Bool × Processor T
  run_one_sys p = one_sys p.sys p

  -- `if (!RunOneSys()) RunAll();`
  pub run_round : Processor T → Processor T
  run_round p = let (dealt, q) = run_one_sys p in if dealt then q else (run_all q).1

  -- The loop of `Run` between two waits for other threads.
  pub serve : ℕ → Processor T → Processor T
  serve zero p = p
  serve (suc n) p = elim (is_stoped p.state) [ true ↦ p | false ↦ serve n (run_round p) ]
