-- ===== src/Processor/SysTask/Life.antt =====
-- What can become of a task of `CProcessor::SendTask`, for every order of the two threads' turns.
use qth_frame.Base.{ℕ, ◌≤◌, ◌≡◌, refl, sym, subst, Bool, true, false, List, [], ◌∷◌, ◌++◌, arith}
use qth_frame.Processor.SysTask.{
  TaskState, waiting, dealing, dealed, timeout, Sender, posted, asleep, leaving, told_true,
  told_false, Worker, idle, busy, notifying, dropping, done, Sys, pushed, sender_turn, worker_turn,
  Turn, of_sender, of_worker, run,
}

abbrev config : TaskState → Sender → Worker → ℕ → ℕ → Bool → Sys
config st se wo r d l = record {
  state = st;
  sender = se;
  worker = wo;
  runs = r;
  deletes = d;
  late = l;
}

-- The configurations that the two threads can be in.
data IsKnown : Sys → Type 0 where
  posted_idle : IsKnown (config waiting posted idle 0 0 false)
  posted_busy : IsKnown (config dealing posted busy 0 0 false)
  posted_notifying : IsKnown (config dealed posted notifying 1 0 false)
  posted_done : IsKnown (config dealed posted done 1 0 false)
  asleep_idle : IsKnown (config waiting asleep idle 0 0 false)
  asleep_busy : IsKnown (config dealing asleep busy 0 0 false)
  asleep_notifying : IsKnown (config dealed asleep notifying 1 0 false)
  asleep_done : IsKnown (config dealed asleep done 1 0 false)
  leaving_notifying : IsKnown (config dealed leaving notifying 1 0 false)
  leaving_done : IsKnown (config dealed leaving done 1 0 false)
  true_notifying : IsKnown (config dealed told_true notifying 1 1 false)
  true_done : {l : Bool} → IsKnown (config dealed told_true done 1 1 l)
  false_idle : IsKnown (config timeout told_false idle 0 0 false)
  false_dropping : IsKnown (config timeout told_false dropping 0 0 false)
  false_done : IsKnown (config timeout told_false done 0 1 false)

sender_turn-IsKnown : {s : Sys} → IsKnown s → IsKnown (sender_turn s)
unfolding sender_turn
sender_turn-IsKnown posted_idle = asleep_idle
sender_turn-IsKnown posted_busy = posted_busy
sender_turn-IsKnown posted_notifying = leaving_notifying
sender_turn-IsKnown posted_done = leaving_done
sender_turn-IsKnown asleep_idle = false_idle
sender_turn-IsKnown asleep_busy = asleep_busy
sender_turn-IsKnown asleep_notifying = leaving_notifying
sender_turn-IsKnown asleep_done = leaving_done
sender_turn-IsKnown leaving_notifying = true_notifying
sender_turn-IsKnown leaving_done = true_done
sender_turn-IsKnown true_notifying = true_notifying
sender_turn-IsKnown true_done = true_done
sender_turn-IsKnown false_idle = false_idle
sender_turn-IsKnown false_dropping = false_dropping
sender_turn-IsKnown false_done = false_done

worker_turn-IsKnown : {s : Sys} → IsKnown s → IsKnown (worker_turn s)
unfolding worker_turn
worker_turn-IsKnown posted_idle = posted_busy
worker_turn-IsKnown posted_busy = posted_notifying
worker_turn-IsKnown posted_notifying = posted_done
worker_turn-IsKnown posted_done = posted_done
worker_turn-IsKnown asleep_idle = asleep_busy
worker_turn-IsKnown asleep_busy = asleep_notifying
worker_turn-IsKnown asleep_notifying = asleep_done
worker_turn-IsKnown asleep_done = asleep_done
worker_turn-IsKnown leaving_notifying = leaving_done
worker_turn-IsKnown leaving_done = leaving_done
worker_turn-IsKnown true_notifying = true_done
worker_turn-IsKnown true_done = true_done
worker_turn-IsKnown false_idle = false_dropping
worker_turn-IsKnown false_dropping = false_done
worker_turn-IsKnown false_done = false_done

run-IsKnown : (ts : List Turn) {s : Sys} → IsKnown s → IsKnown (run ts s)
unfolding run
run-IsKnown [] k = k
run-IsKnown (of_sender ∷ ts) k = run-IsKnown ts (sender_turn-IsKnown k)
run-IsKnown (of_worker ∷ ts) k = run-IsKnown ts (worker_turn-IsKnown k)

-- What the sender was told, against how often the task ran.
abbrev pub IsHonest : Sender → ℕ → Type 0
IsHonest posted n = n ≤ 1
IsHonest asleep n = n ≤ 1
IsHonest leaving n = n ≡ 1
IsHonest told_true n = n ≡ 1
IsHonest told_false n = n ≡ 0

known-IsHonest : {s : Sys} → IsKnown s → IsHonest s.sender s.runs
known-IsHonest posted_idle = omega arith
known-IsHonest posted_busy = omega arith
known-IsHonest posted_notifying = omega arith
known-IsHonest posted_done = omega arith
known-IsHonest asleep_idle = omega arith
known-IsHonest asleep_busy = omega arith
known-IsHonest asleep_notifying = omega arith
known-IsHonest asleep_done = omega arith
known-IsHonest leaving_notifying = refl
known-IsHonest leaving_done = refl
known-IsHonest true_notifying = refl
known-IsHonest true_done = refl
known-IsHonest false_idle = refl
known-IsHonest false_dropping = refl
known-IsHonest false_done = refl

-- In every order of the turns of the two threads: a sender that was told true sent a task that ran
-- exactly once, a sender that was told false sent one that has not run, and before its answer the
-- task ran at most once.
pub run-IsHonest : (ts : List Turn) → IsHonest (run ts pushed).sender (run ts pushed).runs
run-IsHonest ts = known-IsHonest (run-IsKnown ts posted_idle)

-- Four turns of each thread, in turn.
abbrev pub four_each : List Turn
four_each =
    of_worker ∷ of_sender ∷ of_worker ∷ of_sender ∷ of_worker ∷ of_sender ∷ of_worker ∷ of_sender
    ∷ []

run-append : (ts us : List Turn) (s : Sys) → run (ts ++ us) s ≡ run us (run ts s)
unfolding run
run-append [] us s = refl
run-append (of_sender ∷ ts) us s = run-append ts us (sender_turn s)
run-append (of_worker ∷ ts) us s = run-append ts us (worker_turn s)

abbrev pub has_answer : Sender → Bool
has_answer posted = false
has_answer asleep = false
has_answer leaving = false
has_answer told_true = true
has_answer told_false = true

-- The sender has its answer, the processor is done with the task, and it was deleted once.
pub record IsOver (s : Sys) : Type 0 where
  pub once : s.deletes ≡ 1
  pub worker_done : s.worker ≡ done
  pub answered : has_answer s.sender ≡ true

known-IsOver : {s : Sys} → IsKnown s → IsOver (run four_each s)
unfolding run sender_turn worker_turn
known-IsOver posted_idle = record { once = refl; worker_done = refl; answered = refl }
known-IsOver posted_busy = record { once = refl; worker_done = refl; answered = refl }
known-IsOver posted_notifying = record { once = refl; worker_done = refl; answered = refl }
known-IsOver posted_done = record { once = refl; worker_done = refl; answered = refl }
known-IsOver asleep_idle = record { once = refl; worker_done = refl; answered = refl }
known-IsOver asleep_busy = record { once = refl; worker_done = refl; answered = refl }
known-IsOver asleep_notifying = record { once = refl; worker_done = refl; answered = refl }
known-IsOver asleep_done = record { once = refl; worker_done = refl; answered = refl }
known-IsOver leaving_notifying = record { once = refl; worker_done = refl; answered = refl }
known-IsOver leaving_done = record { once = refl; worker_done = refl; answered = refl }
known-IsOver true_notifying = record { once = refl; worker_done = refl; answered = refl }
known-IsOver true_done = record { once = refl; worker_done = refl; answered = refl }
known-IsOver false_idle = record { once = refl; worker_done = refl; answered = refl }
known-IsOver false_dropping = record { once = refl; worker_done = refl; answered = refl }
known-IsOver false_done = record { once = refl; worker_done = refl; answered = refl }

-- However the turns before went, if the two threads then have four turns each, in alternation and
-- starting with the processor's thread, the sender has its answer and the processor is at the end
-- of the task, which has then been deleted exactly once.
pub run-IsOver : (ts : List Turn) → IsOver (run (ts ++ four_each) pushed)
run-IsOver ts =
    subst IsOver (sym (run-append ts four_each pushed)) (known-IsOver (run-IsKnown ts posted_idle))
