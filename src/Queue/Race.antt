-- ===== src/Queue/Race.antt =====
-- One thread pushes, statement by statement, while the reader takes at any moment. The mutex lets in
-- one writer at a time, so one program counter serves all; memory is taken to be sequentially
-- consistent, which is what the code relies on for `m_pHead->pNext` and `m_pTail`.
mod Tests
use qth_frame.Base.{
  ℕ, ◌+◌, ◌-◌, ◌%◌, ◌<◌, ◌≡◌, refl, sym, ap, ◌∙◌, ◌≢◌, false, List, [], ◌∷◌, ◌++◌, arith, length,
  length-append, Lacks,
}
use mathlib.Core.List.{append_assoc}
use qth_frame.Queue.{
  Queue, size_mod, empty, front, alloc_node, link_node, fill_tail, move_tail, count_up, pop,
}
use qth_frame.Queue.Nodes.{IsChain, Lacks-fresh}
use qth_frame.Queue.Order.{
  HoldsAt, alloc_node-HoldsAt, link_node-HoldsAt, fill_tail-HoldsAt, move_tail-HoldsAt,
  count_up-HoldsAt, pop-HoldsAt, front-HoldsAt, empty-nil,
}

-- How far the writer has come in `push`: with its node and its value.
pub data Pc {ℓ} (A : Type ℓ) : Type ℓ where
  idle : Pc A
  allocated linked filled : ℕ → A → Pc A
  moved : Pc A

-- The queue, the writer, and what has been published and read so far.
pub record Race {ℓ} (A : Type ℓ) : Type ℓ where
  pub queue : Queue A
  pub pc : Pc A
  pub sent : List A
  pub got : List A

module _ {ℓ} {A : Type ℓ} where
  -- The writer's next statement; an idle writer starts to push `v`.
  pub write_at : A → Pc A → Race A → Race A
  write_at v idle r = let (n, q) = alloc_node r.queue in record r { queue = q; pc = allocated n v }
  write_at v (allocated n w) r = record r { queue = link_node n r.queue; pc = linked n w }
  write_at v (linked n w) r = record r { queue = fill_tail w r.queue; pc = filled n w }
  write_at v (filled n w) r = record r {
    queue = move_tail n r.queue;
    pc = moved;
    sent = r.sent ++ w ∷ [];
  }
  write_at v moved r = record r { queue = count_up r.queue; pc = idle }

  -- The reader takes one value, which it does only after `empty` has answered false.
  pub read_one : Race A → Race A
  read_one r = record r { queue = pop r.queue; got = r.got ++ front r.queue ∷ [] }

  pub data Step (r : Race A) : Race A → Type ℓ where
    writes : (v : A) → Step r (write_at v r.pc r)
    reads : empty r.queue ≡ false → Step r (read_one r)

  pub data Reach (r : Race A) : Race A → Type ℓ where
    here : Reach r r
    next : {s t : Race A} → Reach r s → Step s t → Reach r t

  -- What the writer has prepared, seen against the queue.
  abbrev pub Prepared : Pc A → List ℕ → Queue A → Type ℓ
  Prepared idle ps q = Unit
  Prepared (allocated n v) ps q = (n < q.fresh) × Lacks n ps × (n ≢ q.tail) × (n ≢ q.head) × Unit
  Prepared (linked n v) ps q =
      (n < q.fresh) × Lacks n ps × (n ≢ q.tail) × (n ≢ q.head) × (q.next q.tail ≡ n) × Unit
  Prepared (filled n v) ps q =
      (n < q.fresh)
      × Lacks n ps
      × (n ≢ q.tail)
      × (n ≢ q.head)
      × (q.next q.tail ≡ n)
      × (q.value q.tail ≡ v)
  Prepared moved ps q = Unit

  -- Values published but not counted yet.
  abbrev pub uncounted : Pc A → ℕ
  uncounted moved = 1
  uncounted idle = 0
  uncounted (allocated n v) = 0
  uncounted (linked n v) = 0
  uncounted (filled n v) = 0

  pub record IsOrdered (r : Race A) : Type ℓ where
    pub nodes : List ℕ
    pub waiting : List A
    pub holds : HoldsAt nodes waiting r.queue
    pub prepared : Prepared r.pc nodes r.queue
    pub order : r.sent ≡ r.got ++ waiting
    pub counted : (r.queue.size + uncounted r.pc) % size_mod ≡ length waiting % size_mod

  -- The same with the program counter known.
  record HoldsIn (r : Race A) (c : Pc A) : Type ℓ where
    nodes : List ℕ
    waiting : List A
    holds : HoldsAt nodes waiting r.queue
    prepared : Prepared c nodes r.queue
    order : r.sent ≡ r.got ++ waiting
    counted : (r.queue.size + uncounted c) % size_mod ≡ length waiting % size_mod

  -- Each statement of the writer keeps the order, whatever the reader has done in between.
  write_at-IsOrdered : (v : A) (c : Pc A) (r : Race A) → HoldsIn r c → IsOrdered (write_at v c r)
  unfolding write_at alloc_node link_node fill_tail move_tail count_up
  write_at-IsOrdered v idle r h = record {
    nodes = h.nodes;
    waiting = h.waiting;
    holds = alloc_node-HoldsAt h.nodes h.waiting r.queue h.holds;
    prepared = (
      omega arith,
      Lacks-fresh r.queue.fresh h.nodes h.holds.nodes.allocated,
      (λ p. omega (arith, h.holds.nodes.tail_allocated)),
      (λ p. omega (arith, h.holds.nodes.head_allocated)),
      tt,
    );
    order = h.order;
    counted = h.counted;
  }
  write_at-IsOrdered v (allocated n w) r h = record {
    nodes = h.nodes;
    waiting = h.waiting;
    holds = link_node-HoldsAt n h.nodes h.waiting r.queue h.holds;
    prepared = (h.prepared.0, h.prepared.1, h.prepared.2, h.prepared.3, ground arith, tt);
    order = h.order;
    counted = h.counted;
  }
  write_at-IsOrdered v (linked n w) r h = record {
    nodes = h.nodes;
    waiting = h.waiting;
    holds = fill_tail-HoldsAt w h.nodes h.waiting r.queue h.holds;
    prepared = (h.prepared.0, h.prepared.1, h.prepared.2, h.prepared.3, h.prepared.4, ground arith);
    order = h.order;
    counted = h.counted;
  }
  write_at-IsOrdered v (filled n w) r h = record {
    nodes = h.nodes ++ r.queue.tail ∷ [];
    waiting = h.waiting ++ w ∷ [];
    holds =
        move_tail-HoldsAt n w h.nodes h.waiting r.queue h.holds h.prepared.4 h.prepared.5
          h.prepared.0 h.prepared.1 h.prepared.2 h.prepared.3;
    prepared = tt;
    order = ap (λ (xs : List A). xs ++ w ∷ []) h.order ∙ append_assoc r.got h.waiting (w ∷ []);
    counted = omega (arith, h.counted, length-append h.waiting (w ∷ []));
  }
  write_at-IsOrdered v moved r h = record {
    nodes = h.nodes;
    waiting = h.waiting;
    holds = count_up-HoldsAt h.nodes h.waiting r.queue h.holds;
    prepared = tt;
    order = h.order;
    counted = omega (arith, h.counted);
  }

  at_pc : (r : Race A) → IsOrdered r → HoldsIn r r.pc
  at_pc r h = record {
    nodes = h.nodes;
    waiting = h.waiting;
    holds = h.holds;
    prepared = h.prepared;
    order = h.order;
    counted = h.counted;
  }

  -- A read moves the head past the first node, which the writer does not touch.
  Prepared-pop :
      (c : Pc A) (p : ℕ) (ps : List ℕ) (q : Queue A)
      → IsChain (p ∷ ps) q
      → Prepared c (p ∷ ps) q
      → Prepared c ps (pop q)
  unfolding pop
  Prepared-pop idle p ps q c h = tt
  Prepared-pop (allocated n v) p ps q c h = (h.0, h.1.1, h.2, h.3, tt)
  Prepared-pop (linked n v) p ps q c h = (h.0, h.1.1, h.2, h.3, ground (arith, c.ends, h.4), tt)
  Prepared-pop (filled n v) p ps q c h = (h.0, h.1.1, h.2, h.3, ground (arith, c.ends, h.4), h.5)
  Prepared-pop moved p ps q c h = tt

  size-pop : (q : Queue A) → (pop q).size ≡ (q.size + size_mod - 1) % size_mod
  unfolding pop
  size-pop q = refl

  read_at :
      (ps : List ℕ) (xs : List A) (r : Race A)
      → HoldsAt ps xs r.queue
      → Prepared r.pc ps r.queue
      → r.sent ≡ r.got ++ xs
      → (r.queue.size + uncounted r.pc) % size_mod ≡ length xs % size_mod
      → empty r.queue ≡ false
      → IsOrdered (read_one r)
  unfolding read_one
  read_at [] xs r h p o n e = cc (empty-nil r.queue h.nodes)
  read_at (p ∷ ps) [] r h pr o n e = cc (h.values)
  read_at (p ∷ ps) (x ∷ xs) r h pr o n e = record {
    nodes = ps;
    waiting = xs;
    holds = pop-HoldsAt p ps x xs r.queue h;
    prepared = Prepared-pop r.pc p ps r.queue h.nodes pr;
    order =
        o
        ∙ sym (append_assoc r.got (x ∷ []) xs)
        ∙ ap (λ y. (r.got ++ y ∷ []) ++ xs) (sym (front-HoldsAt p ps x xs r.queue h));
    counted = omega (arith, size-pop r.queue);
  }

  Step-IsOrdered : {r s : Race A} → IsOrdered r → Step r s → IsOrdered s
  Step-IsOrdered {r} h (writes v) = write_at-IsOrdered v r.pc r (at_pc r h)
  Step-IsOrdered {r} h (reads e) =
      read_at h.nodes h.waiting r h.holds h.prepared h.order h.counted e

  -- While one writer at a time pushes, statement by statement, and the reader takes a value at any
  -- moment when the queue is not empty, the values read and the values waiting, in order, are
  -- always those published, and the count is that of the waiting values modulo 2 ^ 64, less one
  -- between a publication and its count.
  pub Reach-IsOrdered : {r s : Race A} → IsOrdered r → Reach r s → IsOrdered s
  Reach-IsOrdered h here = h
  Reach-IsOrdered h (next p st) = Step-IsOrdered (Reach-IsOrdered h p) st
