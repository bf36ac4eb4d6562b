-- ===== src/Queue/Refine.antt =====
-- `RWQueue` of include/utility/rwqueue.h, seen by a client that pushes and takes.
use qth_frame.Base.{◌≡◌, refl, ap, Option, none, some, List, [], ◌∷◌, ◌++◌, if◌then◌else◌}
use qth_frame.Queue
use qth_frame.Queue.{Queue}
use qth_frame.Queue.Order.{IsQueue, push-IsQueue, pop-IsQueue, empty-IsQueue}

-- A call of a client; `takes` is the test of `empty`, then `front` and `pop`.
pub data Op {ℓ} (A : Type ℓ) : Type ℓ where
  pushes : A → Op A
  takes : Op A

module _ {ℓ} {A : Type ℓ} where
  -- What the client reads, call by call.
  pub run : List (Op A) → Queue A → List (Option A)
  run [] q = []
  run (pushes v ∷ ops) q = run ops (Queue.push v q)
  run (takes ∷ ops) q =
      if Queue.empty q then none ∷ run ops q else some (Queue.front q) ∷ run ops (Queue.pop q)

  -- The same calls of a list.
  pub run_list : List (Op A) → List A → List (Option A)
  run_list [] xs = []
  run_list (pushes v ∷ ops) xs = run_list ops (xs ++ v ∷ [])
  run_list (takes ∷ ops) [] = none ∷ run_list ops []
  run_list (takes ∷ ops) (x ∷ xs) = some x ∷ run_list ops xs

  -- Any sequence of pushes and takes reads from a queue that holds `xs` what it reads from the list
  -- `xs`.
  pub run_refines :
      (ops : List (Op A)) (xs : List A) (q : Queue A) → IsQueue xs q → run ops q ≡ run_list ops xs
  unfolding run run_list
  run_refines [] xs q h = refl
  run_refines (pushes v ∷ ops) xs q h =
      run_refines ops (xs ++ v ∷ []) (Queue.push v q) (push-IsQueue v xs q h)
  run_refines (takes ∷ ops) [] q h =
      rw (empty-IsQueue q h) (ap (λ (rs : List (Option A)). none ∷ rs) (run_refines ops [] q h))
  run_refines (takes ∷ ops) (x ∷ xs) q h =
      let (e, f, h') = pop-IsQueue x xs q h in
      rw (e, f) (ap (λ (rs : List (Option A)). some x ∷ rs) (run_refines ops xs (Queue.pop q) h'))
