-- ===== src/Queue/Order.antt =====
-- `RWQueue` of include/utility/rwqueue.h with one thread: the values that it holds, in order.
use qth_frame.Base.{
  ℕ, ◌+◌, ◌-◌, ◌%◌, ◌<◌, ◌≡◌, refl, ap, ◌∙◌, ◌≢◌, true, false, List, [], ◌∷◌, ◌++◌, map, arith,
  length, length-append, Lacks,
}
use mathlib.Core.List.{map-append}
use qth_frame.Queue.{
  Queue, update, size_mod, create, empty, front, alloc_node, link_node, fill_tail, move_tail,
  count_up, push, pop,
}
use qth_frame.Queue.Nodes.{
  IsChain, alloc_node-IsChain, link_node-IsChain, fill_tail-IsChain, move_tail-IsChain, pop-IsChain,
  Lacks-fresh,
}

module _ {ℓ} {A : Type ℓ} where
  -- The queue holds `xs`, oldest first, in the nodes `ps`.
  pub record HoldsAt (ps : List ℕ) (xs : List A) (q : Queue A) : Type ℓ where
    pub nodes : IsChain ps q
    pub values : map q.value ps ≡ xs

  pub record IsQueue (xs : List A) (q : Queue A) : Type ℓ where
    pub nodes : List ℕ
    pub holds : HoldsAt nodes xs q
    pub sized : q.size ≡ length xs % size_mod

  pub map-update :
      (f : ℕ → A) (n : ℕ) (v : A) (ps : List ℕ) → Lacks n ps → map (update f n v) ps ≡ map f ps
  map-update f n v [] l = refl
  map-update f n v (p ∷ ps) l = ground (arith, l.0, map-update f n v ps l.1)

  pub alloc_node-HoldsAt :
      (ps : List ℕ) (xs : List A) (q : Queue A) → HoldsAt ps xs q → HoldsAt ps xs (alloc_node q).1
  unfolding alloc_node
  alloc_node-HoldsAt ps xs q h = record {
    nodes = alloc_node-IsChain ps q h.nodes;
    values = h.values;
  }

  pub link_node-HoldsAt :
      (n : ℕ) (ps : List ℕ) (xs : List A) (q : Queue A)
      → HoldsAt ps xs q
      → HoldsAt ps xs (link_node n q)
  unfolding link_node
  link_node-HoldsAt n ps xs q h = record {
    nodes = link_node-IsChain n ps q h.nodes;
    values = h.values;
  }

  pub fill_tail-HoldsAt :
      (v : A) (ps : List ℕ) (xs : List A) (q : Queue A)
      → HoldsAt ps xs q
      → HoldsAt ps xs (fill_tail v q)
  unfolding fill_tail
  fill_tail-HoldsAt v ps xs q h = record {
    nodes = fill_tail-IsChain v ps q h.nodes;
    values = map-update q.value q.tail v ps h.nodes.no_tail ∙ h.values;
  }

  -- The step that publishes the value: the old tail node, filled and linked, joins the queue.
  pub move_tail-HoldsAt :
      (n : ℕ) (v : A) (ps : List ℕ) (xs : List A) (q : Queue A)
      → HoldsAt ps xs q
      → q.next q.tail ≡ n
      → q.value q.tail ≡ v
      → n < q.fresh
      → Lacks n ps
      → n ≢ q.tail
      → n ≢ q.head
      → HoldsAt (ps ++ q.tail ∷ []) (xs ++ v ∷ []) (move_tail n q)
  unfolding move_tail
  move_tail-HoldsAt n v ps xs q h e w f l nt nh = record {
    nodes = move_tail-IsChain n ps q h.nodes e f l nt nh;
    values =
        map-append q.value ps (q.tail ∷ [])
        ∙ ap (λ ys. ys ++ q.value q.tail ∷ []) h.values
        ∙ ap (λ y. xs ++ y ∷ []) w;
  }

  pub pop-HoldsAt :
      (p : ℕ) (ps : List ℕ) (x : A) (xs : List A) (q : Queue A)
      → HoldsAt (p ∷ ps) (x ∷ xs) q
      → HoldsAt ps xs (pop q)
  unfolding pop
  pop-HoldsAt p ps x xs q h = record { nodes = pop-IsChain p ps q h.nodes; values = cc (h.values) }

  pub front-HoldsAt :
      (p : ℕ) (ps : List ℕ) (x : A) (xs : List A) (q : Queue A)
      → HoldsAt (p ∷ ps) (x ∷ xs) q
      → front q ≡ x
  unfolding front
  front-HoldsAt p ps x xs q h = cc (ap q.value h.nodes.chain.0, h.values)

  -- The test of `empty` sees the nodes.
  pub empty-cons : (p : ℕ) (ps : List ℕ) (q : Queue A) → IsChain (p ∷ ps) q → empty q ≡ false
  unfolding empty
  empty-cons p ps q c = ground (arith, c.chain.0, c.no_tail.0)

  pub empty-nil : (q : Queue A) → IsChain [] q → empty q ≡ true
  unfolding empty
  empty-nil q c = ground (arith, c.chain)

  pub count_up-HoldsAt :
      (ps : List ℕ) (xs : List A) (q : Queue A) → HoldsAt ps xs q → HoldsAt ps xs (count_up q)
  unfolding count_up
  count_up-HoldsAt ps xs q h = record {
    nodes = record {
      chain = h.nodes.chain;
      distinct = h.nodes.distinct;
      no_tail = h.nodes.no_tail;
      no_head = h.nodes.no_head;
      ends = h.nodes.ends;
      allocated = h.nodes.allocated;
      head_allocated = h.nodes.head_allocated;
      tail_allocated = h.nodes.tail_allocated;
    };
    values = h.values;
  }

  push-HoldsAt :
      (v : A) (ps : List ℕ) (xs : List A) (q : Queue A)
      → HoldsAt ps xs q
      → HoldsAt (ps ++ q.tail ∷ []) (xs ++ v ∷ []) (push v q)
  unfolding push alloc_node link_node fill_tail
  push-HoldsAt v ps xs q h = count_up-HoldsAt _ _ _ (
      move_tail-HoldsAt q.fresh v ps xs (fill_tail v (link_node q.fresh (alloc_node q).1))
        (fill_tail-HoldsAt v ps xs _
          (link_node-HoldsAt q.fresh ps xs _ (alloc_node-HoldsAt ps xs q h)))
        (ground arith) (ground arith) (omega arith) (Lacks-fresh q.fresh ps h.nodes.allocated)
        (ground (arith, h.nodes.tail_allocated)) (ground (arith, h.nodes.head_allocated)))

  size-push : (v : A) (q : Queue A) → (push v q).size ≡ (q.size + 1) % size_mod
  unfolding push alloc_node link_node fill_tail move_tail count_up
  size-push v q = refl

  size-pop : (q : Queue A) → (pop q).size ≡ (q.size + size_mod - 1) % size_mod
  unfolding pop
  size-pop q = refl

  pub create-IsQueue : (blank : A) → IsQueue [] (create blank)
  unfolding create
  create-IsQueue blank = record {
    nodes = [];
    holds = record {
      nodes = record {
        chain = refl;
        distinct = tt;
        no_tail = tt;
        no_head = tt;
        ends = omega arith;
        allocated = tt;
        head_allocated = omega arith;
        tail_allocated = omega arith;
      };
      values = refl;
    };
    sized = refl;
  }

  pub push-IsQueue :
      (v : A) (xs : List A) (q : Queue A) → IsQueue xs q → IsQueue (xs ++ v ∷ []) (push v q)
  push-IsQueue v xs q h = record {
    nodes = h.nodes ++ q.tail ∷ [];
    holds = push-HoldsAt v h.nodes xs q h.holds;
    sized = omega (arith, size-push v q, h.sized, length-append xs (v ∷ []));
  }

  pop-at :
      (ps : List ℕ) (x : A) (xs : List A) (q : Queue A)
      → HoldsAt ps (x ∷ xs) q
      → q.size ≡ length (x ∷ xs) % size_mod
      → (empty q ≡ false) × (front q ≡ x) × IsQueue xs (pop q)
  pop-at [] x xs q h e = cc (h.values)
  pop-at (p ∷ ps) x xs q h e = (
    empty-cons p ps q h.nodes,
    front-HoldsAt p ps x xs q h,
    record { nodes = ps; holds = pop-HoldsAt p ps x xs q h; sized = omega (arith, size-pop q) },
  )

  pub pop-IsQueue :
      (x : A) (xs : List A) (q : Queue A)
      → IsQueue (x ∷ xs) q
      → (empty q ≡ false) × (front q ≡ x) × IsQueue xs (pop q)
  pop-IsQueue x xs q h = pop-at h.nodes x xs q h.holds h.sized

  empty-at : (ps : List ℕ) (q : Queue A) → HoldsAt ps [] q → empty q ≡ true
  empty-at [] q h = empty-nil q h.nodes
  empty-at (p ∷ ps) q h = cc (h.values)

  pub empty-IsQueue : (q : Queue A) → IsQueue [] q → empty q ≡ true
  empty-IsQueue q h = empty-at h.nodes q h.holds
