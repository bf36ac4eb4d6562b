-- ===== src/Queue/Race/Tests.antt =====
-- Concrete runs of the queue.
use qth_frame.Base.{ℕ, ◌≡◌, refl, List, [], ◌∷◌}
use qth_frame.Queue
use qth_frame.Queue.{Queue, update}
use qth_frame.Queue.Order.{IsQueue, create-IsQueue}
use qth_frame.Queue.Refine.{Op, pushes, takes, run, run_list, run_refines}
use qth_frame.Queue.Race.{
  Race, idle, Reach, here, next, writes, reads, write_at, read_one, IsOrdered, Reach-IsOrdered,
}

abbrev calls : List (Op ℕ)
calls = pushes 3 ∷ takes ∷ pushes 4 ∷ pushes 5 ∷ takes ∷ takes ∷ takes ∷ []

run_refines_example : run calls (Queue.create 0) ≡ run_list calls []
run_refines_example = run_refines calls [] (Queue.create 0) (create-IsQueue 0)

abbrev quiet : Race ℕ
quiet = record { queue = Queue.create 0; pc = idle; sent = []; got = [] }

quiet-IsOrdered : IsOrdered quiet
unfolding Queue.create
quiet-IsOrdered =
    let q : IsQueue [] (Queue.create 0) = create-IsQueue 0 in
    record {
      nodes = q.nodes;
      waiting = [];
      holds = q.holds;
      prepared = tt;
      order = refl;
      counted = refl;
    }

abbrev step_once : Race ℕ → Race ℕ
step_once r = write_at 7 r.pc r

abbrev published : Race ℕ
published = step_once (step_once (step_once (step_once quiet)))

-- A value is read between its publication and the count.
read_early : Reach quiet (read_one published)
unfolding write_at Queue.create Queue.empty Queue.alloc_node Queue.link_node Queue.fill_tail
    Queue.move_tail
read_early =
    next (next (next (next (next here (writes 7)) (writes 7)) (writes 7)) (writes 7)) (reads refl)

Reach-IsOrdered_example : IsOrdered (read_one published)
Reach-IsOrdered_example = Reach-IsOrdered quiet-IsOrdered read_early
