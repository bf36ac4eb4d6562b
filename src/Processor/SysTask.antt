-- ===== src/Processor/SysTask.antt =====
-- The life of one task of `CProcessor::SendTask` (src/processor.cpp, include/utility/processor.h):
-- the sending thread waits for it, and the thread of the processor deals with it. A turn of a
-- thread is what it does between two points where the other thread can come in; the task's mutex
-- is held by the processor exactly while the task is being dealt with, and a sender that wants the
-- mutex then makes no progress. A sender that waits may wake at any time: it was notified, its time
-- is over, or the wake is spurious.
pub mod Life
use qth_frame.Base.{ℕ, zero, suc, Bool, true, false, List, [], ◌∷◌}
use qth_frame.Processor.{State, running, pause, stopping, stoped}

-- `ETaskState`.
pub data TaskState : Type 0 where
  waiting dealing dealed timeout : TaskState

-- Where the sender is: about to lock the task, in the wait, between the unlock and `delete`, or back
-- with an answer.
pub data Sender : Type 0 where
  posted asleep leaving told_true told_false : Sender

-- Where the processor is: before `front`, in the task, before `notify_one`, before `delete`, or done.
pub data Worker : Type 0 where
  idle busy notifying dropping done : Worker

-- One task with its two threads; `runs` and `deletes` count the calls of the task and of `delete`,
-- and `late` tells whether the task was touched when it was deleted already.
pub record Sys : Type 0 where
  pub state : TaskState
  pub sender : Sender
  pub worker : Worker
  pub runs : ℕ
  pub deletes : ℕ
  pub late : Bool

abbrev pub exceeds_running : State → Bool
exceeds_running running = false
exceeds_running pause = true
exceeds_running stopping = true
exceeds_running stoped = true

-- The task when it has been pushed to `m_sysQueue`.
abbrev pub pushed : Sys
pushed = record {
  state = waiting;
  sender = posted;
  worker = idle;
  runs = 0;
  deletes = 0;
  late = false;
}

-- What `SendTask` does before it waits: it refuses, runs the task at once in the processor's own
-- thread, or pushes it.
pub data Sent : Type 0 where
  refused at_once : Sent
  queued : Sys → Sent

pub send_task : State → Bool → Sent
send_task st own_thread = elim (exceeds_running st) [
  | true ↦ refused
  | false ↦ elim own_thread [ true ↦ at_once | false ↦ queued pushed ]
]

-- The sender has the mutex after the wait: the last lines of `SendTask`.
abbrev pub decide : Sys → TaskState → Sys
decide s dealed = record s { sender = leaving }
decide s waiting = record s { state = timeout; sender = told_false }
decide s dealing = record s { state = timeout; sender = told_false }
decide s timeout = record s { state = timeout; sender = told_false }

-- The sender has the mutex for the first time.
abbrev pub look : Sys → TaskState → Sys
look s dealed = record s { sender = leaving }
look s waiting = record s { sender = asleep }
look s dealing = record s { sender = asleep }
look s timeout = record s { sender = asleep }

-- The sender gets the mutex, unless the processor holds it.
abbrev pub with_lock : (Sys → TaskState → Sys) → Sys → Worker → Sys
with_lock f s busy = s
with_lock f s idle = f s s.state
with_lock f s notifying = f s s.state
with_lock f s dropping = f s s.state
with_lock f s done = f s s.state

abbrev pub sender_at : Sys → Sender → Sys
sender_at s posted = with_lock look s s.worker
sender_at s asleep = with_lock decide s s.worker
sender_at s leaving = record s { sender = told_true; deletes = suc s.deletes }
sender_at s told_true = s
sender_at s told_false = s

pub sender_turn : Sys → Sys
sender_turn s = sender_at s s.sender

-- `InternalDealSysTask` looks at the state under the mutex.
abbrev pub take_up : Sys → TaskState → Sys
take_up s waiting = record s { state = dealing; worker = busy }
take_up s dealing = record s { worker = dropping }
take_up s dealed = record s { worker = dropping }
take_up s timeout = record s { worker = dropping }

abbrev pub is_deleted : ℕ → Bool
is_deleted zero = false
is_deleted (suc n) = true

abbrev pub worker_at : Sys → Worker → Sys
worker_at s idle = take_up s s.state
worker_at s busy = record s { state = dealed; worker = notifying; runs = suc s.runs }
worker_at s notifying = record s { worker = done; late = is_deleted s.deletes }
worker_at s dropping = record s { worker = done; deletes = suc s.deletes }
worker_at s done = s

pub worker_turn : Sys → Sys
worker_turn s = worker_at s s.worker

pub data Turn : Type 0 where
  of_sender of_worker : Turn

-- The turns of the two threads in the order in which they happen.
pub run : List Turn → Sys → Sys
run [] s = s
run (of_sender ∷ ts) s = run ts (sender_turn s)
run (of_worker ∷ ts) s = run ts (worker_turn s)
