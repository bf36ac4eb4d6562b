-- ===== src/Processor/Drain.antt =====
-- One call of `RunAll` works off the tasks of the most urgent queue that has any, and no others.
use qth_frame.Base.{
  ℕ, ◌≡◌, refl, sym, ap, ◌∙◌, subst, true, false, List, [], ◌∷◌, ◌++◌, length, ◌≢◌,
}
use mathlib.Core.List.{append-nil, append_assoc}
use qth_frame.Processor.{
  State, Job, user, internal_stop, Processor, Which, highs, normals, lows, queue_of, tail_of,
  pop_of, stoped, run_job, deal_one, deal_task, is_empty, run_all,
}
use qth_frame.Processor.Growth.{
  Grown, accepted, of_priority, priority_of, sys-pop, post_all-Grown, queue_of-pop, queue_of-pop_ne,
  log-pop, state-pop,
}

module _ {T : Type 0} where
  -- The users' tasks among the jobs.
  abbrev pub users : List (Job T) → List T
  users [] = []
  users (user t ∷ js) = t ∷ users js
  users (internal_stop ∷ js) = users js

  -- The state after the jobs have run: a stop task is never undone.
  abbrev pub state_after : List (Job T) → State → State
  state_after [] s = s
  state_after (user t ∷ js) s = state_after js s
  state_after (internal_stop ∷ js) s = state_after js stoped

module _ {T : Type 0} (posts : T → List (T × ℕ)) where
  -- What the jobs, run one after the other from a state of the processor, post to the queue.
  abbrev pub arrivals : Which → State → List (Job T) → List (Job T)
  arrivals w s [] = []
  arrivals w s (user t ∷ js) = accepted s (of_priority (priority_of w) (posts t)) ++ arrivals w s js
  arrivals w s (internal_stop ∷ js) = arrivals w stoped js

  -- `js`, at the front of queue `w`, have been worked off: `rest` is left there, with what they have
  -- posted behind it, and the other queues have only what was posted to them in addition.
  pub record Dealt (w : Which) (js rest : List (Job T)) (p q : Processor T) : Type 0 where
    pub log : q.log ≡ p.log ++ users js
    pub state : q.state ≡ state_after js p.state
    pub sys : q.sys ≡ p.sys
    pub queue : queue_of w q ≡ rest ++ arrivals w p.state js
    pub others : (v : Which) → v ≢ w → queue_of v q ≡ queue_of v p ++ arrivals v p.state js

  abbrev told : T → Processor T → Processor T
  told t p = record p { log = p.log ++ t ∷ [] }

  told-queue : (v : Which) (t : T) (p : Processor T) → queue_of v (told t p) ≡ queue_of v p
  told-queue highs t p = refl
  told-queue normals t p = refl
  told-queue lows t p = refl

  run_job-user :
      (t : T) (p : Processor T)
      → Grown
          (λ w. accepted p.state (of_priority (priority_of w) (posts t)))
          (told t p)
          (run_job posts (user t) p)
  unfolding run_job
  run_job-user t p = post_all-Grown (posts t) (told t p)

  -- What `run_job` leaves in each queue.
  user-queue :
      (t : T) (v : Which) (p : Processor T)
      → queue_of v (run_job posts (user t) p) ≡ queue_of v p ++ arrivals v p.state (user t ∷ [])
  user-queue t v p =
      (run_job-user t p).queues v
      ∙ ap (λ (ks : List (Job T)). ks ++ accepted p.state (of_priority (priority_of v) (posts t)))
          (told-queue v t p)
      ∙ ap (λ (ks : List (Job T)). queue_of v p ++ ks)
          (sym (append-nil (accepted p.state (of_priority (priority_of v) (posts t)))))

  deal_one-user :
      (t : T) (js : List (Job T)) (w : Which) (p : Processor T)
      → queue_of w p ≡ user t ∷ js
      → Dealt w (user t ∷ []) js p (pop_of w (run_job posts (user t) p))
  deal_one-user t js w p e =
      let q : Processor T = run_job posts (user t) p in
      let g = run_job-user t p in
      record {
        log = log-pop w q ∙ g.log;
        state = state-pop w q ∙ g.state;
        sys = sys-pop w q ∙ g.sys;
        queue =
            queue_of-pop w q
            ∙ ap tail_of (
                user-queue t w p
                ∙ ap (λ (ks : List (Job T)). ks ++ arrivals w p.state (user t ∷ [])) e);
        others = λ v h. queue_of-pop_ne w v q h ∙ user-queue t v p;
      }

  deal_one-stop :
      (js : List (Job T)) (w : Which) (p : Processor T)
      → queue_of w p ≡ internal_stop ∷ js
      → Dealt w (internal_stop ∷ []) js p (pop_of w (run_job posts internal_stop p))
  unfolding run_job
  deal_one-stop js w p e =
      let q : Processor T = record p { state = stoped } in
      record {
        log = log-pop w q ∙ sym (append-nil p.log);
        state = state-pop w q;
        sys = sys-pop w q;
        queue = queue_of-pop w q ∙ ap tail_of (shown w ∙ e) ∙ sym (append-nil js);
        others = λ v h. queue_of-pop_ne w v q h ∙ shown v ∙ sym (append-nil (queue_of v p));
      }
    where
      shown : (v : Which) → queue_of v (record p { state = stoped }) ≡ queue_of v p
      shown highs = refl
      shown normals = refl
      shown lows = refl

  deal_one-Dealt :
      (j : Job T) (js : List (Job T)) (w : Which) (p : Processor T)
      → queue_of w p ≡ j ∷ js
      → Dealt w (j ∷ []) js p (deal_one posts w (j ∷ js) p)
  unfolding deal_one
  deal_one-Dealt (user t) js w p e = deal_one-user t js w p e
  deal_one-Dealt internal_stop js w p e = deal_one-stop js w p e

  users-cons : (j : Job T) (js : List (Job T)) → users (j ∷ js) ≡ users (j ∷ []) ++ users js
  users-cons (user t) js = refl
  users-cons internal_stop js = refl

  state_after-cons :
      (j : Job T) (js : List (Job T)) (s : State)
      → state_after (j ∷ js) s ≡ state_after js (state_after (j ∷ []) s)
  state_after-cons (user t) js s = refl
  state_after-cons internal_stop js s = refl

  arrivals-cons :
      (v : Which) (j : Job T) (js : List (Job T)) (s : State)
      → arrivals v s (j ∷ js) ≡ arrivals v s (j ∷ []) ++ arrivals v (state_after (j ∷ []) s) js
  arrivals-cons v (user t) js s =
      ap (λ (ks : List (Job T)). ks ++ arrivals v s js)
        (sym (append-nil (accepted s (of_priority (priority_of v) (posts t)))))
  arrivals-cons v internal_stop js s = refl

  -- What a queue has when one job and then more have been worked off.
  queue-cons :
      (v : Which) (j : Job T) (js front : List (Job T)) (p q r : Processor T)
      → q.state ≡ state_after (j ∷ []) p.state
      → queue_of v r ≡ (front ++ arrivals v p.state (j ∷ [])) ++ arrivals v q.state js
      → queue_of v r ≡ front ++ arrivals v p.state (j ∷ js)
  queue-cons v j js front p q r e h =
      h
      ∙ append_assoc front (arrivals v p.state (j ∷ [])) (arrivals v q.state js)
      ∙ ap (λ s. front ++ (arrivals v p.state (j ∷ []) ++ arrivals v s js)) e
      ∙ ap (λ (ks : List (Job T)). front ++ ks) (sym (arrivals-cons v j js p.state))

  Dealt-trans :
      (j : Job T) (js rest : List (Job T)) (w : Which) (p q r : Processor T)
      → Dealt w (j ∷ []) (js ++ rest) p q
      → Dealt w js (rest ++ arrivals w p.state (j ∷ [])) q r
      → Dealt w (j ∷ js) rest p r
  Dealt-trans j js rest w p q r d f = record {
    log =
        f.log
        ∙ ap (λ l. l ++ users js) d.log
        ∙ append_assoc p.log (users (j ∷ [])) (users js)
        ∙ ap (λ l. p.log ++ l) (sym (users-cons j js));
    state = f.state ∙ ap (state_after js) d.state ∙ sym (state_after-cons j js p.state);
    sys = f.sys ∙ d.sys;
    queue = queue-cons w j js rest p q r d.state f.queue;
    others = λ v h.
        queue-cons v j js (queue_of v p) p q r d.state
          (f.others v h ∙ ap (λ (ks : List (Job T)). ks ++ arrivals v q.state js) (d.others v h));
  }

  -- `InternalDealTask` runs exactly the tasks that it finds, in order; what they post waits.
  pub deal_task-Dealt :
      (js rest : List (Job T)) (w : Which) (p : Processor T)
      → queue_of w p ≡ js ++ rest
      → Dealt w js rest p (deal_task posts (length js) w p)
  unfolding deal_task
  deal_task-Dealt [] rest w p e = record {
    log = sym (append-nil p.log);
    state = refl;
    sys = refl;
    queue = e ∙ sym (append-nil rest);
    others = λ v h. sym (append-nil (queue_of v p));
  }
  deal_task-Dealt (j ∷ js) rest w p e =
      let q : Processor T = deal_one posts w (queue_of w p) p in
      let d : Dealt w (j ∷ []) (js ++ rest) p q =
        subst (λ ks. Dealt w (j ∷ []) (js ++ rest) p (deal_one posts w ks p)) (sym e)
          (deal_one-Dealt j (js ++ rest) w p e) in
      Dealt-trans j js rest w p q _ d (
        deal_task-Dealt js (rest ++ arrivals w p.state (j ∷ [])) w q
          (d.queue ∙ append_assoc js rest (arrivals w p.state (j ∷ []))))

  -- The queue that a call of `RunAll` serves, if any has a task.
  abbrev pub Serves : Processor T → Which → Type 0
  Serves p highs = p.high ≢ []
  Serves p normals = (p.high ≡ []) × (p.normal ≢ [])
  Serves p lows = (p.high ≡ []) × (p.normal ≡ []) × (p.low ≢ [])

  nonempty : (js : List (Job T)) → js ≢ [] → is_empty js ≡ false
  nonempty [] h = absurd (h refl)
  nonempty (j ∷ js) h = refl

  run_all-Serves :
      (w : Which) (p : Processor T)
      → Serves p w
      → run_all posts p ≡ (true, deal_task posts (length (queue_of w p)) w p)
  unfolding run_all
  run_all-Serves highs p h = rw (nonempty p.high h)
  run_all-Serves normals p h = simp (h.0, nonempty p.normal h.1)
  run_all-Serves lows p h = simp (h.0, h.1, nonempty p.low h.2)

  -- If the high queue has a task, or else the normal one, or else the low one, `RunAll` answers
  -- true and works off exactly the tasks that were in that queue when it was called, in order:
  -- their users' tasks are run, a stop task stops the processor, and each queue then has what was
  -- left in it and behind that, in order, exactly the tasks of its priority that the tasks posted
  -- before any stop, none if the processor was stopping already.
  pub run_all-Dealt :
      (w : Which) (p : Processor T)
      → Serves p w
      → ((run_all posts p).0 ≡ true) × Dealt w (queue_of w p) [] p (run_all posts p).1
  run_all-Dealt w p h =
      rw (run_all-Serves w p h)
        (refl, deal_task-Dealt (queue_of w p) [] w p (sym (append-nil (queue_of w p))))
