-- ===== src/Processor/Stop.antt =====
-- What `CProcessor::Stop` makes of the tasks that are queued when it is called.
use qth_frame.Base.{
  ◌+◌, arith, ℕ, suc, ◌≡◌, refl, sym, ap, ◌∙◌, true, false, List, [], ◌∷◌, ◌++◌, map, length,
}
use mathlib.Core.List.{append-nil, append_assoc}
use qth_frame.Processor.{
  SysJob, waiting, timed_out, deal_sys, run_one_sys, run_round, stopping, stoped, Job, user,
  internal_stop, Processor, highs, normals, exceeds_pause, post_task, post_all, pop_of, stop,
  run_job, deal_one, deal_task, run_all, serve,
}

module _ {T : Type 0} where
  -- Once the processor is stopping, `PostTask` refuses, whatever the priority, and changes nothing.
  pub post_task-refused :
      (t : T) (pri : ℕ) (p : Processor T)
      → exceeds_pause p.state ≡ true
      → post_task t pri p ≡ (false, p)
  unfolding post_task
  post_task-refused t pri p e = rw e

  post_all-refused :
      (ts : List (T × ℕ)) (p : Processor T) → exceeds_pause p.state ≡ true → post_all ts p ≡ p
  unfolding post_all
  post_all-refused [] p e = refl
  post_all-refused ((t, pri) ∷ ts) p e = rw (post_task-refused t pri p e) (post_all-refused ts p e)

  -- A stopping processor with the given queues.
  abbrev winding_down :
      List (SysJob T) → List (Job T) → List (Job T) → List (Job T) → List T → Processor T
  winding_down ss h n l log = record {
    state = stopping;
    sys = ss;
    high = h;
    normal = n;
    low = l;
    log = log;
  }

  -- The processor once it has stopped, with the low queue as it was.
  abbrev pub halted : List (Job T) → List T → Processor T
  halted l log = record { state = stoped; sys = []; high = []; normal = []; low = l; log = log }

  abbrev pub as_jobs : List T → List (Job T)
  as_jobs ts = map user ts

  -- The system tasks whose senders still wait.
  abbrev pub still_waiting : List (SysJob T) → List T
  still_waiting [] = []
  still_waiting (waiting t ∷ ss) = t ∷ still_waiting ss
  still_waiting (timed_out ∷ ss) = still_waiting ss

module _ {T : Type 0} (posts : T → List (T × ℕ)) where
  run_user :
      (ss : List (SysJob T)) (t : T) (h n l : List (Job T)) (log : List T)
      → run_job posts (user t) (winding_down ss h n l log) ≡ winding_down ss h n l (log ++ t ∷ [])
  unfolding run_job
  run_user ss t h n l log = post_all-refused (posts t) (winding_down ss h n l (log ++ t ∷ [])) refl

  high_first :
      (ss : List (SysJob T)) (t : T) (js n l : List (Job T)) (log : List T)
      → deal_one posts highs (user t ∷ js) (winding_down ss (user t ∷ js) n l log)
        ≡ winding_down ss js n l (log ++ t ∷ [])
  unfolding deal_one pop_of
  high_first ss t js n l log = ap (pop_of highs) (run_user ss t (user t ∷ js) n l log)

  normal_first :
      (ss : List (SysJob T)) (t : T) (js l : List (Job T)) (log : List T)
      → deal_one posts normals (user t ∷ js) (winding_down ss [] (user t ∷ js) l log)
        ≡ winding_down ss [] js l (log ++ t ∷ [])
  unfolding deal_one pop_of
  normal_first ss t js l log = ap (pop_of normals) (run_user ss t [] (user t ∷ js) l log)

  drain_high :
      (ss : List (SysJob T)) (ts : List T) (rest n l : List (Job T)) (log : List T)
      → deal_task posts (length (as_jobs ts)) highs (winding_down ss (as_jobs ts ++ rest) n l log)
        ≡ winding_down ss rest n l (log ++ ts)
  unfolding deal_task
  drain_high ss [] rest n l log = ap (winding_down ss rest n l) (sym (append-nil log))
  drain_high ss (t ∷ ts) rest n l log =
      ap (deal_task posts (length (as_jobs ts)) highs)
        (high_first ss t (as_jobs ts ++ rest) n l log)
      ∙ drain_high ss ts rest n l (log ++ t ∷ [])
      ∙ ap (winding_down ss rest n l) (append_assoc log (t ∷ []) ts)

  -- The stop task is the last of the normal queue: everything before it runs first.
  drain_normal :
      (ts : List T) (l : List (Job T)) (log : List T)
      → deal_task posts
          (length (as_jobs ts ++ internal_stop ∷ []))
          normals
          (winding_down [] [] (as_jobs ts ++ internal_stop ∷ []) l log)
        ≡ halted l (log ++ ts)
  unfolding deal_task deal_one run_job pop_of
  drain_normal [] l log = ap (halted l) (sym (append-nil log))
  drain_normal (t ∷ ts) l log =
      ap (deal_task posts (length (as_jobs ts ++ internal_stop ∷ [])) normals)
        (normal_first [] t (as_jobs ts ++ internal_stop ∷ []) l log)
      ∙ drain_normal ts l (log ++ t ∷ [])
      ∙ ap (halted l) (append_assoc log (t ∷ []) ts)

  run_normal :
      (ts : List T) (l : List (Job T)) (log : List T)
      → (run_all posts (winding_down [] [] (as_jobs ts ++ internal_stop ∷ []) l log)).1
        ≡ halted l (log ++ ts)
  unfolding run_all
  run_normal [] l log = drain_normal [] l log
  run_normal (t ∷ ts) l log = drain_normal (t ∷ ts) l log

  run_high :
      (t : T) (hs : List T) (n l : List (Job T)) (log : List T)
      → (run_all posts (winding_down [] (as_jobs (t ∷ hs)) n l log)).1
        ≡ winding_down [] [] n l (log ++ t ∷ hs)
  unfolding run_all
  run_high t hs n l log =
      ap (λ js. deal_task posts (length (as_jobs (t ∷ hs))) highs (winding_down [] js n l log))
        (sym (append-nil (as_jobs (t ∷ hs))))
      ∙ drain_high [] (t ∷ hs) [] n l log

  serve_normal :
      (n : ℕ) (ts : List T) (l : List (Job T)) (log : List T)
      → serve posts (suc (suc n)) (winding_down [] [] (as_jobs ts ++ internal_stop ∷ []) l log)
        ≡ halted l (log ++ ts)
  unfolding serve run_round run_one_sys
  serve_normal n ts l log = ap (serve posts (suc n)) (run_normal ts l log)

  serve_high :
      (n : ℕ) (hs ns : List T) (l : List (Job T)) (log : List T)
      → serve posts
          (suc (suc (suc n)))
          (winding_down [] (as_jobs hs) (as_jobs ns ++ internal_stop ∷ []) l log)
        ≡ halted l (log ++ (hs ++ ns))
  unfolding serve run_round run_one_sys
  serve_high n [] ns l log = serve_normal (suc n) ns l log
  serve_high n (t ∷ hs) ns l log =
      ap (serve posts (suc (suc n))) (run_high t hs (as_jobs ns ++ internal_stop ∷ []) l log)
      ∙ serve_normal n ns l (log ++ t ∷ hs)
      ∙ ap (halted l) (append_assoc log (t ∷ hs) ns)

  -- The rounds that deal with the system tasks leave the other queues as they are.
  serve_sys :
      (ss : List (SysJob T)) (m : ℕ) (h n l : List (Job T)) (log : List T)
      → serve posts (length ss + m) (winding_down ss h n l log)
        ≡ serve posts m (winding_down [] h n l (log ++ still_waiting ss))
  unfolding serve run_round run_one_sys deal_sys
  serve_sys [] m h n l log =
      let none_left : 0 + m ≡ m = omega arith in
      ap (λ k. serve posts k (winding_down [] h n l log)) none_left
      ∙ ap (λ g. serve posts m (winding_down [] h n l g)) (sym (append-nil log))
  serve_sys (waiting t ∷ ss) m h n l log =
      let one_more : suc (length ss) + m ≡ suc (length ss + m) = omega arith in
      ap (λ k. serve posts k (winding_down (waiting t ∷ ss) h n l log)) one_more
      ∙ ap (serve posts (length ss + m)) (run_user ss t h n l log)
      ∙ serve_sys ss m h n l (log ++ t ∷ [])
      ∙ ap (λ g. serve posts m (winding_down [] h n l g))
          (append_assoc log (t ∷ []) (still_waiting ss))
  serve_sys (timed_out ∷ ss) m h n l log =
      let one_more : suc (length ss) + m ≡ suc (length ss + m) = omega arith in
      ap (λ k. serve posts k (winding_down (timed_out ∷ ss) h n l log)) one_more
      ∙ serve_sys ss m h n l log

  stop-open :
      (p : Processor T)
      → exceeds_pause p.state ≡ false
      → stop p ≡ record p { state = stopping; normal = p.normal ++ internal_stop ∷ [] }
  unfolding stop
  stop-open p e = rw e

  stop_winds :
      (hs ns : List T) (p : Processor T)
      → exceeds_pause p.state ≡ false
      → p.high ≡ as_jobs hs
      → p.normal ≡ as_jobs ns
      → stop p ≡ winding_down p.sys (as_jobs hs) (as_jobs ns ++ internal_stop ∷ []) p.low p.log
  stop_winds hs ns p e a b =
      stop-open p e
      ∙ ap (λ (h : List (Job T)). winding_down p.sys h (p.normal ++ internal_stop ∷ []) p.low p.log)
          a
      ∙ ap
          (λ (m : List (Job T)).
            winding_down p.sys (as_jobs hs) (m ++ internal_stop ∷ []) p.low p.log)
          b

  -- After `Stop` on a processor that is running or pausing and whose high and normal queues hold
  -- users' tasks only, one round of the loop of `Run` for each system task that is queued and three
  -- or more rounds besides run the system tasks whose senders still wait, then all high tasks and
  -- then all normal ones, and end in the stopped state with no system task left and with the low
  -- queue as it was, whatever the tasks post.
  pub stop_drains :
      (n : ℕ) (hs ns : List T) (p : Processor T)
      → exceeds_pause p.state ≡ false
      → p.high ≡ as_jobs hs
      → p.normal ≡ as_jobs ns
      → serve posts (length p.sys + suc (suc (suc n))) (stop p)
        ≡ halted p.low (p.log ++ (still_waiting p.sys ++ (hs ++ ns)))
  stop_drains n hs ns p e a b =
      ap (serve posts (length p.sys + suc (suc (suc n)))) (stop_winds hs ns p e a b)
      ∙ serve_sys p.sys (suc (suc (suc n))) (as_jobs hs) (as_jobs ns ++ internal_stop ∷ []) p.low
          p.log
      ∙ serve_high n hs ns p.low (p.log ++ still_waiting p.sys)
      ∙ ap (halted p.low) (append_assoc p.log (still_waiting p.sys) (hs ++ ns))
