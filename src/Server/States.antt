-- ===== src/Server/States.antt =====
-- What a server holds in each of its states.
use qth_frame.Base.{◌+◌, ◌≤◌, ℕ, suc, ◌≡◌, refl, Bool, true, false, List, [], ◌∷◌, arith}
use qth_frame.Server.{
  closes, close_throws, release_all, State, stoped, inited, running, Server, new_server, Listen,
  listens, throws, init_stoped, init_at, init, uinit_inited, uinit_at, uinit, start_accept, run_at,
  run, Accepted, closed, cancelled, failed, taken, handle_accept, Call, inits, uinits, runs,
  accepts_end, call, calls,
}

-- What is held in the state, where `k` calls of `uinit` have failed to release: a processor and a timer
-- for each of these, and one more exactly between `init` and `uinit`; the framework has been told as
-- often of starts as of stops, and once more in between.
abbrev pub Holds : ℕ → State → Server → Type 0
Holds k stoped s = (s.processors ≡ k) × (s.timers ≡ k) × (s.started ≡ s.ended)
Holds k inited s = (s.processors ≡ suc k) × (s.timers ≡ suc k) × (s.started ≡ suc s.ended)
Holds k running s = ⊥

-- How many of the calls are calls of `uinit` in which closing or stopping throws.
abbrev pub failures : List Call → ℕ
failures [] = 0
failures (inits l ∷ cs) = failures cs
failures (uinits closes ∷ cs) = failures cs
failures (uinits close_throws ∷ cs) = suc (failures cs)
failures (runs b ∷ cs) = failures cs
failures (accepts_end a b ∷ cs) = failures cs

-- The state and what is held do not depend on the accepts.
with_accepts-Holds :
    (k n : ℕ) (st : State) (s : Server) → Holds k st s → Holds k st (record s { accepts = n })
with_accepts-Holds k n stoped s h = h
with_accepts-Holds k n inited s h = h
with_accepts-Holds k n running s h = h

-- The server holds what it has to, after at most `n` failures to release.
abbrev pub IsServer : ℕ → Server → Type 0
IsServer n s = (k : ℕ) × (k ≤ n) × Holds k s.state s

init_at-IsServer :
    (k : ℕ) (st : State) (l : Listen) (s : Server)
    → s.state ≡ st
    → Holds k st s
    → Holds k (init_at st l s).1.state (init_at st l s).1
unfolding init_stoped
init_at-IsServer k stoped listens s e h =
    (omega (arith, h.0), omega (arith, h.1), omega (arith, h.2))
init_at-IsServer k stoped throws s e h = rw e (omega (arith, h.0), h.1, h.2)
init_at-IsServer k inited l s e h = rw e h
init_at-IsServer k running l s e h = absurd h

uinit_at-closes :
    (k : ℕ) (st : State) (s : Server)
    → s.state ≡ st
    → Holds k st s
    → Holds k (uinit_at st closes s).state (uinit_at st closes s)
unfolding uinit_inited release_all
uinit_at-closes k stoped s e h = rw e h
uinit_at-closes k inited s e h = (omega (arith, h.0), omega (arith, h.1), omega (arith, h.2))
uinit_at-closes k running s e h = absurd h

uinit_at-throws :
    (n k : ℕ) (st : State) (s : Server)
    → s.state ≡ st
    → k ≤ n
    → Holds k st s
    → IsServer (suc n) (uinit_at st close_throws s)
unfolding uinit_inited release_all
uinit_at-throws n k stoped s e b h = (k, omega arith, rw e h)
uinit_at-throws n k inited s e b h = (suc k, omega arith, h)
uinit_at-throws n k running s e b h = absurd h

start_accept-IsServer :
    (n : ℕ) (b : Bool) (s : Server) → IsServer n s → IsServer n (start_accept b s)
unfolding start_accept
start_accept-IsServer n true s (k, l, h) = (k, l, with_accepts-Holds k (suc s.accepts) s.state s h)
start_accept-IsServer n false s h = h

run_at-IsServer :
    (n : ℕ) (st : State) (b : Bool) (s : Server) → IsServer n s → IsServer n (run_at st b s)
run_at-IsServer n stoped b s h = h
run_at-IsServer n inited b s h = start_accept-IsServer n b s h
run_at-IsServer n running b s h = h

accepted-IsServer : (n a : ℕ) (s : Server) → IsServer n s → IsServer n (record s { accepts = a })
accepted-IsServer n a s (k, l, h) = (k, l, with_accepts-Holds k a s.state s h)

handle_accept-IsServer :
    (n : ℕ) (a : Accepted) (b : Bool) (s : Server) → IsServer n s → IsServer n (handle_accept a b s)
unfolding handle_accept
handle_accept-IsServer n closed b s h = accepted-IsServer n _ s h
handle_accept-IsServer n cancelled b s h = accepted-IsServer n _ s h
handle_accept-IsServer n failed b s h = start_accept-IsServer n b _ (accepted-IsServer n _ s h)
handle_accept-IsServer n taken b s h = start_accept-IsServer n b _ (accepted-IsServer n _ s h)

-- One call adds its own failure, if it is one.
call-IsServer :
    (n : ℕ) (c : Call) (s : Server) → IsServer n s → IsServer (n + failures (c ∷ [])) (call c s)
unfolding call init uinit run
call-IsServer n (inits l) s (k, b, h) = (k, omega arith, init_at-IsServer k s.state l s refl h)
call-IsServer n (uinits closes) s (k, b, h) = (k, omega arith, uinit_at-closes k s.state s refl h)
call-IsServer n (uinits close_throws) s (k, b, h) =
    let (j, l, g) = uinit_at-throws n k s.state s refl b h in (j, omega arith, g)
call-IsServer n (runs b) s h =
    let (j, l, g) = run_at-IsServer n s.state b s h in (j, omega arith, g)
call-IsServer n (accepts_end a b) s h =
    let (j, l, g) = handle_accept-IsServer n a b s h in (j, omega arith, g)

failures-cons : (c : Call) (cs : List Call) → failures (c ∷ cs) ≡ failures (c ∷ []) + failures cs
failures-cons (inits l) cs = omega arith
failures-cons (uinits closes) cs = omega arith
failures-cons (uinits close_throws) cs = omega arith
failures-cons (runs b) cs = omega arith
failures-cons (accepts_end a b) cs = omega arith

calls-Holds :
    (n : ℕ) (cs : List Call) (s : Server) → IsServer n s → IsServer (n + failures cs) (calls cs s)
unfolding calls
calls-Holds n [] s (k, b, h) = (k, omega arith, h)
calls-Holds n (c ∷ cs) s h =
    let (j, l, g) = calls-Holds (n + failures (c ∷ [])) cs (call c s) (call-IsServer n c s h) in
    (j, omega (arith, failures-cons c cs), g)

-- After any calls of `init`, `uinit` and `run` and any ends of accepts on a new server, where a
-- call of `init` either listens or throws before it does, and closing or stopping in `uinit` may
-- throw: the server is stopped or initialised and never in the running state; for some number that
-- is at most that of the calls of `uinit` in which closing or stopping throws, it holds that many
-- processors and timers, and one more of each exactly when it is initialised; and the framework has
-- been told of as many starts as stops, and of one more start when it is initialised.
pub calls-IsServer : (cs : List Call) → IsServer (failures cs) (calls cs new_server)
calls-IsServer cs =
    let (k, l, h) = calls-Holds 0 cs new_server (0, omega arith, (refl, refl, refl)) in
    (k, omega arith, h)
