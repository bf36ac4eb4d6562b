-- ===== src/Queue/Nodes.antt =====
-- The nodes from the head's successor up to the tail, and the values that they hold.
use qth_frame.Base.{
  ℕ, suc, ◌<◌, ◌≡◌, sym, ap, ◌≢◌, List, [], ◌∷◌, ◌++◌, arith, All, Lacks, Distinct,
}
use qth_frame.Queue.{Queue, update, alloc_node, link_node, fill_tail, move_tail, pop}

-- From `p` the `next` fields lead through the nodes `ps` to `t`.
abbrev pub Chain : (ℕ → ℕ) → ℕ → List ℕ → ℕ → Type 0
Chain next p [] t = p ≡ t
Chain next p (q ∷ qs) t = (p ≡ q) × Chain next (next q) qs t

-- The nodes of the queue: allocated, distinct, and neither the head nor the tail.
pub record IsChain {ℓ} {A : Type ℓ} (ps : List ℕ) (q : Queue A) : Type 0 where
  pub chain : Chain q.next (q.next q.head) ps q.tail
  pub distinct : Distinct ps
  pub no_tail : Lacks q.tail ps
  pub no_head : Lacks q.head ps
  pub ends : q.head ≢ q.tail
  pub allocated : All (λ p. p < q.fresh) ps
  pub head_allocated : q.head < q.fresh
  pub tail_allocated : q.tail < q.fresh

Chain-update :
    (next : ℕ → ℕ) (p n v t : ℕ) (ps : List ℕ)
    → Lacks n ps
    → Chain next p ps t
    → Chain (update next n v) p ps t
Chain-update next p n v t [] l c = c
Chain-update next p n v t (q ∷ qs) l c =
    let e : update next n v q ≡ next q = ground (arith, l.0) in
    (c.0, rw e (Chain-update next (next q) n v t qs l.1 c.1))

-- Past the tail the chain goes on to the node that the tail leads to.
Chain-extend :
    (next : ℕ → ℕ) (p t n : ℕ) (ps : List ℕ)
    → Chain next p ps t
    → next t ≡ n
    → Chain next p (ps ++ t ∷ []) n
Chain-extend next p t n [] c e = (c, e)
Chain-extend next p t n (q ∷ qs) c e = (c.0, Chain-extend next (next q) t n qs c.1 e)

All-snoc {κ} : (P : ℕ → Type κ) (xs : List ℕ) (y : ℕ) → All P xs → P y → All P (xs ++ y ∷ [])
All-snoc P [] y h k = (k, tt)
All-snoc P (x ∷ xs) y h k = (h.0, All-snoc P xs y h.1 k)

Distinct-snoc : (xs : List ℕ) (y : ℕ) → Distinct xs → Lacks y xs → Distinct (xs ++ y ∷ [])
Distinct-snoc [] y d l = (tt, tt)
Distinct-snoc (x ∷ xs) y d l =
    (All-snoc (λ z. z ≢ x) xs y d.0 (λ e. l.0 (sym e)), Distinct-snoc xs y d.1 l.1)

pub Lacks-fresh : (n : ℕ) (xs : List ℕ) → All (λ p. p < n) xs → Lacks n xs
Lacks-fresh n [] h = tt
Lacks-fresh n (x ∷ xs) h = ((λ e. omega arith), Lacks-fresh n xs h.1)

All-lt-suc : (n : ℕ) (xs : List ℕ) → All (λ p. p < n) xs → All (λ p. p < suc n) xs
All-lt-suc n [] h = tt
All-lt-suc n (x ∷ xs) h = (omega arith, All-lt-suc n xs h.1)

module _ {ℓ} {A : Type ℓ} where
  pub alloc_node-IsChain : (ps : List ℕ) (q : Queue A) → IsChain ps q → IsChain ps (alloc_node q).1
  unfolding alloc_node
  alloc_node-IsChain ps q c = record {
    chain =
        let e : update q.next q.fresh 0 q.head ≡ q.next q.head = ground (arith, c.head_allocated) in
        rw e (
          Chain-update q.next (q.next q.head) q.fresh 0 q.tail ps
            (Lacks-fresh q.fresh ps c.allocated) c.chain);
    distinct = c.distinct;
    no_tail = c.no_tail;
    no_head = c.no_head;
    ends = c.ends;
    allocated = All-lt-suc q.fresh ps c.allocated;
    head_allocated = omega (arith, c.head_allocated);
    tail_allocated = omega (arith, c.tail_allocated);
  }

  -- What `push` does to the tail before it moves is not seen from the head.
  pub link_node-IsChain :
      (n : ℕ) (ps : List ℕ) (q : Queue A) → IsChain ps q → IsChain ps (link_node n q)
  unfolding link_node
  link_node-IsChain n ps q c = record {
    chain =
        let e : update q.next q.tail n q.head ≡ q.next q.head = ground (arith, c.ends) in
        rw e (Chain-update q.next (q.next q.head) q.tail n q.tail ps c.no_tail c.chain);
    distinct = c.distinct;
    no_tail = c.no_tail;
    no_head = c.no_head;
    ends = c.ends;
    allocated = c.allocated;
    head_allocated = c.head_allocated;
    tail_allocated = c.tail_allocated;
  }

  pub fill_tail-IsChain :
      (v : A) (ps : List ℕ) (q : Queue A) → IsChain ps q → IsChain ps (fill_tail v q)
  unfolding fill_tail
  fill_tail-IsChain v ps q c = record {
    chain = c.chain;
    distinct = c.distinct;
    no_tail = c.no_tail;
    no_head = c.no_head;
    ends = c.ends;
    allocated = c.allocated;
    head_allocated = c.head_allocated;
    tail_allocated = c.tail_allocated;
  }

  -- With the new node linked behind it, the old tail joins the queue.
  pub move_tail-IsChain :
      (n : ℕ) (ps : List ℕ) (q : Queue A)
      → IsChain ps q
      → q.next q.tail ≡ n
      → n < q.fresh
      → Lacks n ps
      → n ≢ q.tail
      → n ≢ q.head
      → IsChain (ps ++ q.tail ∷ []) (move_tail n q)
  unfolding move_tail
  move_tail-IsChain n ps q c e h l nt nh = record {
    chain = Chain-extend q.next (q.next q.head) q.tail n ps c.chain e;
    distinct = Distinct-snoc ps q.tail c.distinct c.no_tail;
    no_tail = All-snoc (λ x. x ≢ n) ps q.tail l (λ p. nt (sym p));
    no_head = All-snoc (λ x. x ≢ q.head) ps q.tail c.no_head (λ p. c.ends (sym p));
    ends = λ p. nh (sym p);
    allocated = All-snoc (λ p. p < q.fresh) ps q.tail c.allocated c.tail_allocated;
    head_allocated = c.head_allocated;
    tail_allocated = h;
  }

  pub pop-IsChain : (p : ℕ) (ps : List ℕ) (q : Queue A) → IsChain (p ∷ ps) q → IsChain ps (pop q)
  unfolding pop
  pop-IsChain p ps q c = record {
    chain =
        let e : update q.next q.head (q.next (q.next q.head)) q.head ≡ q.next p =
          ground (arith, ap q.next c.chain.0) in
        rw e (
          Chain-update q.next (q.next p) q.head (q.next (q.next q.head)) q.tail ps c.no_head.1
            c.chain.1);
    distinct = c.distinct.1;
    no_tail = c.no_tail.1;
    no_head = c.no_head.1;
    ends = c.ends;
    allocated = c.allocated.1;
    head_allocated = c.head_allocated;
    tail_allocated = c.tail_allocated;
  }
