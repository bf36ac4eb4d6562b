-- ===== src/Server.antt =====
-- The states of `class CTcpServer` (src/tcp_server.cpp, include/asio/tcp_server.h): `init`, `uinit` and
-- `run`, with what is held in each state. The acceptor is the library's: whether its calls throw is an
-- argument.
pub mod States
mod Tests
use qth_frame.Base.{ℕ, zero, suc, ◌+◌, ◌-◌, Bool, true, false, List, [], ◌∷◌}

-- `EServerState`
pub data State : Type 0 where
  stoped inited running : State

-- The users of the logical processor that this server is, the timers, the accepts under way, and how
-- often the framework was told that the server starts and stops.
pub record Server : Type 0 where
  pub state : State
  pub processors : ℕ
  pub timers : ℕ
  pub accepts : ℕ
  pub started : ℕ
  pub ended : ℕ

abbrev pub new_server : Server
new_server = record {
  state = stoped;
  processors = 0;
  timers = 0;
  accepts = 0;
  started = 0;
  ended = 0;
}

-- What `open`, `set_option`, `bind` and `listen` come to: all return, or one throws a system error.
pub data Listen : Type 0 where
  listens throws : Listen

-- `init` on a server that is stopped.
pub init_stoped : Listen → Server → Bool × Server
init_stoped throws s = (false, record s { processors = suc s.processors - 1 })
init_stoped listens s = (
  true,
  record s {
    state = inited;
    processors = suc s.processors;
    timers = suc s.timers;
    started = suc s.started;
  },
)

abbrev pub init_at : State → Listen → Server → Bool × Server
init_at stoped l s = init_stoped l s
init_at inited l s = (false, s)
init_at running l s = (false, s)

pub init : Listen → Server → Bool × Server
init l s = init_at s.state l s

-- What the closing of the acceptor and the stop of the IO services come to: both return, or one
-- throws, which leaves the rest of the `try` block out.
pub data Close : Type 0 where
  closes close_throws : Close

-- The `try` block of `uinit`, and its handlers.
pub release_all : Close → Server → Server
release_all closes s = record s { processors = s.processors - 1; timers = s.timers - 1 }
release_all close_throws s = s

-- `uinit` on a server that has been set up; the accept under way ends later, as cancelled.
pub uinit_inited : Close → Server → Server
uinit_inited c s = record (release_all c (record s { ended = suc s.ended })) { state = stoped }

abbrev pub uinit_at : State → Close → Server → Server
uinit_at stoped c s = s
uinit_at inited c s = uinit_inited c s
uinit_at running c s = uinit_inited c s

pub uinit : Close → Server → Server
uinit c s = uinit_at s.state c s

-- `doStartAccept`; `allocated` tells whether there was memory for a connection.
pub start_accept : Bool → Server → Server
start_accept true s = record s { accepts = suc s.accepts }
start_accept false s = s

abbrev pub run_at : State → Bool → Server → Server
run_at stoped allocated s = s
run_at inited allocated s = start_accept allocated s
run_at running allocated s = s

pub run : Bool → Server → Server
run allocated s = run_at s.state allocated s

-- What an accept ends with.
pub data Accepted : Type 0 where
  closed cancelled failed taken : Accepted

-- `doHandleAccept`: the accept that is over, and the next one unless the server is closing.
pub handle_accept : Accepted → Bool → Server → Server
handle_accept closed allocated s = record s { accepts = s.accepts - 1 }
handle_accept cancelled allocated s = record s { accepts = s.accepts - 1 }
handle_accept failed allocated s = start_accept allocated (record s { accepts = s.accepts - 1 })
handle_accept taken allocated s = start_accept allocated (record s { accepts = s.accepts - 1 })

pub data Call : Type 0 where
  inits : Listen → Call
  uinits : Close → Call
  runs : Bool → Call
  accepts_end : Accepted → Bool → Call

pub call : Call → Server → Server
call (inits l) s = (init l s).1
call (uinits c) s = uinit c s
call (runs allocated) s = run allocated s
call (accepts_end a allocated) s = handle_accept a allocated s

pub calls : List Call → Server → Server
calls [] s = s
calls (c ∷ cs) s = calls cs (call c s)
