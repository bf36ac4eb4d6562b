-- ===== src/Connect/Stream.antt =====
-- What the user receives, and what becomes of the buffers.
use qth_frame.Base.{
  ℕ, ◌-◌, ◌≡◌, refl, sym, ap, ◌∙◌, true, Option, none, some, List, [], ◌∷◌, ◌++◌, ◌==◌,
  if◌then◌else◌, arith, Bool-cases, inl, inr, subst,
}
use mathlib.Core.List.{append-nil, append_assoc}
use qth_frame.Connect.{
  Task, recv_msg, on_error, Connect, close_open, close, start_recv, post, handle_error, deliver,
  handle_read, handle_read_error, handle_write, free, do_recv_msg, run_task, Event, comes, fails,
  writes, works, happen, happen_all,
}

-- The data and the buffers of the tasks that wait.
abbrev pub waiting : List Task → List ℕ
waiting [] = []
waiting (recv_msg p bytes ∷ ts) = bytes ++ waiting ts
waiting (on_error e ∷ ts) = waiting ts

abbrev pub held : List Task → List ℕ
held [] = []
held (recv_msg p bytes ∷ ts) = p ∷ held ts
held (on_error e ∷ ts) = held ts

waiting-append : (ts us : List Task) → waiting (ts ++ us) ≡ waiting ts ++ waiting us
waiting-append [] us = refl
waiting-append (recv_msg p bytes ∷ ts) us =
    ap (λ bs. bytes ++ bs) (waiting-append ts us)
    ∙ sym (append_assoc bytes (waiting ts) (waiting us))
waiting-append (on_error e ∷ ts) us = waiting-append ts us

held-append : (ts us : List Task) → held (ts ++ us) ≡ held ts ++ held us
held-append [] us = refl
held-append (recv_msg p bytes ∷ ts) us = ap (λ ps. p ∷ ps) (held-append ts us)
held-append (on_error e ∷ ts) us = held-append ts us

-- The bytes that came in.
abbrev pub came : List Event → List ℕ
came [] = []
came (comes bytes p ∷ es) = bytes ++ came es
came (fails shut closed e ∷ es) = came es
came (writes shut closed result ∷ es) = came es
came (works ∷ es) = came es

-- Of the bytes `s`, those not received yet wait, in order; the buffers taken are those of the tasks.
pub record IsStream (s : List ℕ) (c : Connect) : Type 0 where
  pub processor : c.has_processor ≡ true
  pub stream : c.received ++ waiting c.tasks ≡ s
  pub buffers : c.taken ≡ held c.tasks

start_recv-IsStream : (s : List ℕ) (c : Connect) → IsStream s c → IsStream s (start_recv c)
unfolding start_recv
start_recv-IsStream s c v = elim (Bool-cases c.is_open) [
  | inl e ↦ simp e (record { processor = v.processor; stream = v.stream; buffers = v.buffers })
  | inr e ↦ simp e v
]

deliver-IsStream :
    (s bytes : List ℕ) (p : ℕ) (c : Connect)
    → IsStream s c
    → IsStream (s ++ bytes) (deliver bytes (some p) true c)
unfolding deliver
deliver-IsStream s [] p c v = subst (λ t. IsStream t c) (sym (append-nil s)) v
deliver-IsStream s (b ∷ bs) p c v = simp (v.processor) (record {
  processor = refl;
  stream =
      ap (λ ws. c.received ++ ws)
        (waiting-append c.tasks (recv_msg p (b ∷ bs) ∷ [])
          ∙ ap (λ ws. waiting c.tasks ++ ws) (append-nil (b ∷ bs)))
      ∙ sym (append_assoc c.received (waiting c.tasks) (b ∷ bs))
      ∙ ap (λ t. t ++ b ∷ bs) v.stream;
  buffers =
      ap (λ ps. ps ++ p ∷ []) v.buffers ∙ sym (held-append c.tasks (recv_msg p (b ∷ bs) ∷ []));
})

-- A connection with other state of the socket, the same tasks and the same buffers.
same-IsStream :
    (s : List ℕ) (c d : Connect)
    → d.has_processor ≡ c.has_processor
    → d.received ≡ c.received
    → d.tasks ≡ c.tasks
    → d.taken ≡ c.taken
    → IsStream s c
    → IsStream s d
same-IsStream s c d a b e f v = record {
  processor = a ∙ v.processor;
  stream = ap (λ r. r ++ waiting d.tasks) b ∙ ap (λ ts. c.received ++ waiting ts) e ∙ v.stream;
  buffers = f ∙ v.buffers ∙ ap held (sym e);
}

close_open-IsStream :
    (s : List ℕ) (shut closed : Option ℕ) (c : Connect)
    → IsStream s c
    → IsStream s (close_open shut closed c).1
unfolding close_open
close_open-IsStream s (some e) closed c v = same-IsStream s c _ refl refl refl refl v
close_open-IsStream s none (some e) c v = same-IsStream s c _ refl refl refl refl v
close_open-IsStream s none none c v = same-IsStream s c _ refl refl refl refl v

close-IsStream :
    (s : List ℕ) (shut closed : Option ℕ) (c : Connect)
    → IsStream s c
    → IsStream s (close shut closed c).1
unfolding close
close-IsStream s shut closed c v = elim (Bool-cases c.is_open) [
  | inl e ↦ simp e (close_open-IsStream s shut closed c v)
  | inr e ↦ simp e v
]

error-IsStream :
    (s : List ℕ) (e : ℕ) (c : Connect)
    → IsStream s c
    → IsStream s (if c.has_processor then post true (on_error e) c else c)
error-IsStream s e c v = simp (v.processor) (record {
  processor = refl;
  stream =
      ap (λ ws. c.received ++ ws)
        (waiting-append c.tasks (on_error e ∷ []) ∙ append-nil (waiting c.tasks))
      ∙ v.stream;
  buffers = v.buffers ∙ sym (held-append c.tasks (on_error e ∷ []) ∙ append-nil (held c.tasks));
})

handle_error-IsStream :
    (s : List ℕ) (shut closed : Option ℕ) (e : ℕ) (c : Connect)
    → IsStream s c
    → IsStream s (handle_error shut closed true e c)
unfolding handle_error
handle_error-IsStream s shut closed e c v =
    error-IsStream s e (close shut closed c).1 (close-IsStream s shut closed c v)

free-head : (p : ℕ) (ps : List ℕ) → free p (p ∷ ps) ≡ ps
free-head p ps = let e : (p == p) ≡ true = ground arith in rw e refl

run_task-IsStream :
    (s : List ℕ) (c : Connect) (ts : List Task)
    → c.tasks ≡ ts
    → IsStream s c
    → IsStream s (run_task c ts)
unfolding run_task do_recv_msg
run_task-IsStream s c [] e v = v
run_task-IsStream s c (recv_msg p bytes ∷ ts) e v = record {
  processor = v.processor;
  stream =
      append_assoc c.received bytes (waiting ts)
      ∙ ap (λ us. c.received ++ waiting us) (sym e)
      ∙ v.stream;
  buffers = ap (free p) (v.buffers ∙ ap held e) ∙ free-head p (held ts);
}
run_task-IsStream s c (on_error n ∷ ts) e v = record {
  processor = v.processor;
  stream = ap (λ us. c.received ++ waiting us) (sym e) ∙ v.stream;
  buffers = v.buffers ∙ ap held e;
}

happen_all-IsStream :
    (es : List Event) (s : List ℕ) (c : Connect)
    → IsStream s c
    → IsStream (s ++ came es) (happen_all es c)
unfolding happen_all happen handle_read handle_read_error handle_write
happen_all-IsStream [] s c v = subst (λ t. IsStream t c) (sym (append-nil s)) v
happen_all-IsStream (comes bytes p ∷ es) s c v =
    let d : Connect = record c { reads = c.reads - 1 } in
    subst (λ t. IsStream t (happen_all es (start_recv (deliver bytes (some p) true d))))
      (append_assoc s bytes (came es))
      (happen_all-IsStream es (s ++ bytes) _ (
        start_recv-IsStream (s ++ bytes) _
          (deliver-IsStream s bytes p d (same-IsStream s c d refl refl refl refl v))))
happen_all-IsStream (fails shut closed e ∷ es) s c v =
    let d : Connect = record c { reads = c.reads - 1 } in
    happen_all-IsStream es s _
      (handle_error-IsStream s shut closed e d (same-IsStream s c d refl refl refl refl v))
happen_all-IsStream (writes shut closed none ∷ es) s c v = happen_all-IsStream es s c v
happen_all-IsStream (writes shut closed (some e) ∷ es) s c v =
    happen_all-IsStream es s _ (handle_error-IsStream s shut closed e c v)
happen_all-IsStream (works ∷ es) s c v =
    happen_all-IsStream es s _ (run_task-IsStream s c c.tasks refl v)

-- An open connection with a processor, before anything happened.
abbrev pub fresh : Connect
fresh = record {
  is_open = true;
  err_code = 0;
  has_processor = true;
  reads = 1;
  sent = [];
  taken = [];
  tasks = [];
  received = [];
  errors = [];
}

-- On an open connection with a processor that accepts every task, and with memory for each buffer:
-- whatever reads, errors, ends of writes and runs of tasks happen in whatever order, what the user
-- has received and what waits in the tasks is, in order, what came in, and the buffers taken are
-- those of the tasks that wait.
pub fresh-IsStream : (es : List Event) → IsStream (came es) (happen_all es fresh)
fresh-IsStream es =
    happen_all-IsStream es [] fresh (record { processor = refl; stream = refl; buffers = refl })
