-- ===== src/Queue.antt =====
-- `class RWQueue` of include/utility/rwqueue.h: a linked list with a sentinel at each end, written by
-- many threads under a mutex and read by one thread without it. A node is a number and NULL is 0;
-- the fields of the nodes are `next` and `value`, and a node from `fresh` on is not allocated.
pub mod Nodes
pub mod Order
pub mod Refine
pub mod Race
use qth_frame.Base.{ℕ, suc, ◌+◌, ◌-◌, ◌%◌, ◌^◌, Bool, ◌==◌, if◌then◌else◌}

pub record Queue {ℓ} (A : Type ℓ) : Type ℓ where
  pub head : ℕ
  pub tail : ℕ
  pub next : ℕ → ℕ
  pub value : ℕ → A
  pub size : ℕ
  pub fresh : ℕ

-- A field of one node is written.
abbrev pub update {ℓ} : {A : Type ℓ} → (ℕ → A) → ℕ → A → ℕ → A
update f p v q = if p == q then v else f q

-- `boost::atomic_size_t`
abbrev pub size_mod : ℕ
size_mod = 2 ^ 64

module _ {ℓ} {A : Type ℓ} where
  -- `blank` is what an unwritten value field holds.
  pub create : A → Queue A
  create blank = record {
    head = 1;
    tail = 2;
    next = update (update (λ p. 0) 1 2) 2 0;
    value = λ p. blank;
    size = 0;
    fresh = 3;
  }

  pub empty : Queue A → Bool
  empty q = q.next q.head == q.tail

  pub front : Queue A → A
  front q = q.value (q.next q.head)

  -- `push`, statement by statement: `new SNode` with its `pNext`,
  pub alloc_node : Queue A → ℕ × Queue A
  alloc_node q = (q.fresh, record q { next = update q.next q.fresh 0; fresh = suc q.fresh })

  -- `m_pTail->pNext = pNode;`
  pub link_node : ℕ → Queue A → Queue A
  link_node n q = record q { next = update q.next q.tail n }

  -- `m_pTail->value = value;`
  pub fill_tail : A → Queue A → Queue A
  fill_tail v q = record q { value = update q.value q.tail v }

  -- `m_pTail = pNode;`
  pub move_tail : ℕ → Queue A → Queue A
  move_tail n q = record q { tail = n }

  -- `++m_nSize;`
  pub count_up : Queue A → Queue A
  count_up q = record q { size = (q.size + 1) % size_mod }

  pub push : A → Queue A → Queue A
  push v q = let (n, q') = alloc_node q in count_up (move_tail n (fill_tail v (link_node n q')))

  pub pop : Queue A → Queue A
  pop q =
      let n = q.next q.head in
      record q { size = (q.size + size_mod - 1) % size_mod; next = update q.next q.head (q.next n) }
