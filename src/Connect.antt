-- ===== src/Connect.antt =====
-- `class CTcpConnect` (src/tcp_connect.cpp, include/asio/tcp_connect.h): a connection that reads, with
-- its handlers. The socket is the library's: what its calls answer is an argument, where none is no
-- error. What the allocator of receive buffers and `PostTask` answer are arguments too.
pub mod Stream
mod Tests
use qth_frame.Base.{
  ℕ, zero, suc, ◌+◌, ◌-◌, Bool, true, false, ◌||◌, ◌&&◌, not, Option, none, some, List, [], ◌∷◌,
  ◌++◌, ◌==◌, if◌then◌else◌,
}

-- What is posted to the processor: `doRecvMsg` with its buffer and data, or `OnError` with its code.
pub data Task : Type 0 where
  recv_msg : ℕ → List ℕ → Task
  on_error : ℕ → Task

-- The socket's state, the last error, whether a processor is set, the reads and writes under way, the
-- buffers that are taken, the tasks that wait, and what the user was told.
pub record Connect : Type 0 where
  pub is_open : Bool
  pub err_code : ℕ
  pub has_processor : Bool
  pub reads : ℕ
  pub sent : List (List ℕ)
  pub taken : List ℕ
  pub tasks : List Task
  pub received : List ℕ
  pub errors : List ℕ

abbrev pub set_error : ℕ → Connect → Connect
set_error e c = record c { err_code = e }

-- `Connect`, with the outcomes of `from_string` and `connect`.
pub connect : Option ℕ → Option ℕ → Connect → Bool × Connect
connect (some e) result c = (false, set_error e c)
connect none (some e) c = (false, set_error e c)
connect none none c = (true, record c { is_open = true })

-- The calls of `Close` on an open socket, with the outcomes of `shutdown` and `close`.
pub close_open : Option ℕ → Option ℕ → Connect → Bool × Connect
close_open (some e) result c = (false, set_error e c)
close_open none (some e) c = (false, set_error e c)
close_open none none c = (true, record c { is_open = false })

pub close : Option ℕ → Option ℕ → Connect → Bool × Connect
close shut closed c = if c.is_open then close_open shut closed c else (true, c)

abbrev pub is_empty : List ℕ → Bool
is_empty [] = true
is_empty (b ∷ bs) = false

pub send_msg : List ℕ → Connect → Connect
send_msg bytes c =
    if c.is_open && not (is_empty bytes) then record c { sent = c.sent ++ bytes ∷ [] } else c

pub start_recv : Connect → Connect
start_recv c = if c.is_open then record c { reads = suc c.reads } else c

abbrev pub post : Bool → Task → Connect → Connect
post accepted t c = if accepted then record c { tasks = c.tasks ++ t ∷ [] } else c

pub handle_error : Option ℕ → Option ℕ → Bool → ℕ → Connect → Connect
handle_error shut closed accepted e c =
    let d = (close shut closed c).1 in if d.has_processor then post accepted (on_error e) d else d

-- The bytes read are copied to a buffer and posted.
pub deliver : List ℕ → Option ℕ → Bool → Connect → Connect
deliver bytes place accepted c = if is_empty bytes || not c.has_processor then c else elim place [
  | none ↦ c
  | some p ↦ post accepted (recv_msg p bytes) (record c { taken = c.taken ++ p ∷ [] })
]

-- `handle_read` without an error: the read that is over, the delivery, and the next read.
pub handle_read : List ℕ → Option ℕ → Bool → Connect → Connect
handle_read bytes place accepted c =
    start_recv (deliver bytes place accepted (record c { reads = c.reads - 1 }))

-- `handle_read` with an error.
pub handle_read_error : Option ℕ → Option ℕ → Bool → ℕ → Connect → Connect
handle_read_error shut closed accepted e c =
    handle_error shut closed accepted e (record c { reads = c.reads - 1 })

-- `handle_write`
pub handle_write : Option ℕ → Option ℕ → Bool → Option ℕ → Connect → Connect
handle_write shut closed accepted none c = c
handle_write shut closed accepted (some e) c = handle_error shut closed accepted e c

-- `m_recvAlloctor.Deallocate(pBuff, len)`
abbrev pub free : ℕ → List ℕ → List ℕ
free p [] = []
free p (q ∷ qs) = if p == q then qs else q ∷ free p qs

-- `doRecvMsg`
pub do_recv_msg : ℕ → List ℕ → Connect → Connect
do_recv_msg p bytes c = record c { received = c.received ++ bytes; taken = free p c.taken }

-- The processor runs the first task that waits.
pub run_task : Connect → List Task → Connect
run_task c [] = c
run_task c (recv_msg p bytes ∷ ts) = do_recv_msg p bytes (record c { tasks = ts })
run_task c (on_error e ∷ ts) = record c { tasks = ts; errors = c.errors ++ e ∷ [] }

-- What can happen to a connection: bytes come in, a read fails, a write ends, or the processor works.
pub data Event : Type 0 where
  comes : List ℕ → ℕ → Event
  fails : Option ℕ → Option ℕ → ℕ → Event
  writes : Option ℕ → Option ℕ → Option ℕ → Event
  works : Event

-- With memory for each buffer and a processor that accepts the tasks.
pub happen : Event → Connect → Connect
happen (comes bytes p) c = handle_read bytes (some p) true c
happen (fails shut closed e) c = handle_read_error shut closed true e c
happen (writes shut closed result) c = handle_write shut closed true result c
happen works c = run_task c c.tasks

pub happen_all : List Event → Connect → Connect
happen_all [] c = c
happen_all (e ∷ es) c = happen_all es (happen e c)
