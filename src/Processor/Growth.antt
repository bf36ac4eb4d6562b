-- ===== src/Processor/Growth.antt =====
-- What `PostTask` and taking the front task change of the queues of a processor (src/processor.cpp).
use qth_frame.Base.{
  true, false, arith, if◌then◌else◌, ℕ, ◌≡◌, refl, sym, ap, ◌∙◌, List, [], ◌∷◌, ◌++◌, ◌==◌,
  Bool-cases, inl, inr, ◌≢◌,
}
use mathlib.Core.List.{append-nil, append_assoc}
use qth_frame.Processor.{
  State, Job, user, Processor, Which, highs, normals, lows, exceeds_pause, post_task, post_all,
  queue_of, tail_of, pop_of,
}

-- The number in `ETaskPriority` of the queue.
abbrev pub priority_of : Which → ℕ
priority_of highs = 2
priority_of normals = 1
priority_of lows = 0

differs : (pri i j : ℕ) → (pri == i) ≡ true → i ≢ j → (pri == j) ≡ false
differs pri i j e h = ground arith

module _ {T : Type 0} where
  -- The tasks among those posted that have the priority.
  abbrev pub of_priority : ℕ → List (T × ℕ) → List (Job T)
  of_priority k [] = []
  of_priority k ((t, pri) ∷ ts) = if pri == k then user t ∷ of_priority k ts else of_priority k ts

  -- A processor that is stopping or has stopped takes no tasks.
  abbrev pub accepted : State → List (Job T) → List (Job T)
  accepted s js = if exceeds_pause s then [] else js

  -- `q` has what `p` has, with the tasks `js w` behind in queue `w`.
  pub record Grown (js : Which → List (Job T)) (p q : Processor T) : Type 0 where
    pub state : q.state ≡ p.state
    pub log : q.log ≡ p.log
    pub sys : q.sys ≡ p.sys
    pub queues : (w : Which) → queue_of w q ≡ queue_of w p ++ js w

  -- More tasks behind in each of the queues.
  abbrev added : List (T × ℕ) → Processor T → Processor T
  added ts p = record p {
    high = p.high ++ of_priority 2 ts;
    normal = p.normal ++ of_priority 1 ts;
    low = p.low ++ of_priority 0 ts;
  }

  post_task-open :
      (t : T) (pri : ℕ) (p : Processor T)
      → exceeds_pause p.state ≡ false
      → (post_task t pri p).1 ≡ added ((t, pri) ∷ []) p
  unfolding post_task
  post_task-open t pri p e =
      let a = append-nil p.high in
      let b = append-nil p.normal in
      let c = append-nil p.low in
      elim (Bool-cases (pri == 2)) [
        | inl x ↦
            rw (e, x, differs pri 2 1 x (omega arith), differs pri 2 0 x (omega arith), b, c) refl
        | inr x ↦ elim (Bool-cases (pri == 1)) [
          | inl y ↦ rw (e, x, y, differs pri 1 0 y (omega arith), a, c) refl
          | inr y ↦ elim (Bool-cases (pri == 0)) [
            | inl z ↦ rw (e, x, y, z, a, b) refl
            | inr z ↦ rw (e, x, y, z, a, b, c) refl
          ]
        ]
      ]

  post_task-closed :
      (t : T) (pri : ℕ) (p : Processor T) → exceeds_pause p.state ≡ true → (post_task t pri p).1 ≡ p
  unfolding post_task
  post_task-closed t pri p e = rw e refl

  of_priority-cons :
      (k : ℕ) (t : T) (pri : ℕ) (ts : List (T × ℕ))
      → of_priority k ((t, pri) ∷ ts) ≡ of_priority k ((t, pri) ∷ []) ++ of_priority k ts
  of_priority-cons k t pri ts = elim (Bool-cases (pri == k)) [
    | inl e ↦ rw e refl
    | inr e ↦ rw e refl
  ]

  added-cons :
      (t : T) (pri : ℕ) (ts : List (T × ℕ)) (p : Processor T)
      → added ts (added ((t, pri) ∷ []) p) ≡ added ((t, pri) ∷ ts) p
  added-cons t pri ts p =
      rw (of_priority-cons 2 t pri ts, of_priority-cons 1 t pri ts, of_priority-cons 0 t pri ts)
        (rw (append_assoc p.high (of_priority 2 ((t, pri) ∷ [])) (of_priority 2 ts)) (
          rw (append_assoc p.normal (of_priority 1 ((t, pri) ∷ [])) (of_priority 1 ts))
            (rw (append_assoc p.low (of_priority 0 ((t, pri) ∷ [])) (of_priority 0 ts)) refl)))

  post_all-open :
      (ts : List (T × ℕ)) (p : Processor T)
      → exceeds_pause p.state ≡ false
      → post_all ts p ≡ added ts p
  unfolding post_all
  post_all-open [] p e = rw (append-nil p.high, append-nil p.normal, append-nil p.low) refl
  post_all-open ((t, pri) ∷ ts) p e =
      ap (post_all ts) (post_task-open t pri p e)
      ∙ post_all-open ts (added ((t, pri) ∷ []) p) e
      ∙ added-cons t pri ts p

  post_all-closed :
      (ts : List (T × ℕ)) (p : Processor T) → exceeds_pause p.state ≡ true → post_all ts p ≡ p
  unfolding post_all
  post_all-closed [] p e = refl
  post_all-closed ((t, pri) ∷ ts) p e =
      ap (post_all ts) (post_task-closed t pri p e) ∙ post_all-closed ts p e

  added-queue :
      (w : Which) (ts : List (T × ℕ)) (p : Processor T)
      → queue_of w (added ts p) ≡ queue_of w p ++ of_priority (priority_of w) ts
  added-queue highs ts p = refl
  added-queue normals ts p = refl
  added-queue lows ts p = refl

  pub post_all-Grown :
      (ts : List (T × ℕ)) (p : Processor T)
      → Grown (λ w. accepted p.state (of_priority (priority_of w) ts)) p (post_all ts p)
  post_all-Grown ts p = elim (Bool-cases (exceeds_pause p.state)) [
    | inl e ↦
        rw (post_all-closed ts p e, e)
          (record {
            state = refl;
            log = refl;
            sys = refl;
            queues = λ w. sym (append-nil (queue_of w p));
          })
    | inr e ↦
        rw (post_all-open ts p e, e)
          (record { state = refl; log = refl; sys = refl; queues = λ w. added-queue w ts p })
  ]

  pub queue_of-pop :
      (w : Which) (p : Processor T) → queue_of w (pop_of w p) ≡ tail_of (queue_of w p)
  unfolding pop_of
  queue_of-pop highs p = refl
  queue_of-pop normals p = refl
  queue_of-pop lows p = refl

  pub queue_of-pop_ne :
      (w v : Which) (p : Processor T) → v ≢ w → queue_of v (pop_of w p) ≡ queue_of v p
  unfolding pop_of
  queue_of-pop_ne highs highs p h = absurd (h refl)
  queue_of-pop_ne highs normals p h = refl
  queue_of-pop_ne highs lows p h = refl
  queue_of-pop_ne normals highs p h = refl
  queue_of-pop_ne normals normals p h = absurd (h refl)
  queue_of-pop_ne normals lows p h = refl
  queue_of-pop_ne lows highs p h = refl
  queue_of-pop_ne lows normals p h = refl
  queue_of-pop_ne lows lows p h = absurd (h refl)

  pub log-pop : (w : Which) (p : Processor T) → (pop_of w p).log ≡ p.log
  unfolding pop_of
  log-pop highs p = refl
  log-pop normals p = refl
  log-pop lows p = refl

  pub state-pop : (w : Which) (p : Processor T) → (pop_of w p).state ≡ p.state
  unfolding pop_of
  state-pop highs p = refl
  state-pop normals p = refl
  state-pop lows p = refl

  pub sys-pop : (w : Which) (p : Processor T) → (pop_of w p).sys ≡ p.sys
  unfolding pop_of
  sys-pop highs p = refl
  sys-pop normals p = refl
  sys-pop lows p = refl
