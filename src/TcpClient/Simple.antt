-- ===== src/TcpClient/Simple.antt =====
-- `SimpleTcpClientConnect` (src/tcp_client_connect.cpp). The calls of the system are parameters: their
-- answers, as functions of a state.
pub mod Sending
pub mod Closing
use qth_frame.Base.{
  ℕ, zero, suc, ◌+◌, ◌-◌, Bool, true, false, ◌||◌, Option, none, some, List, [], ◌∷◌, ◌++◌, length,
  drop, ltb, ◌==◌, if◌then◌else◌, ℤ, pos, negsuc,
}
use qth_frame.TcpClient.{timeout_loop}

-- The descriptor `m_socket`, where none is -1, and the descriptors that `close` was called with.
pub record Simple : Type 0 where
  pub socket : Option ℕ
  pub closed : List ℕ

pub close : Simple → Bool × Simple
close c = elim c.socket [
  | none ↦ (true, c)
  | some d ↦ (true, record c { closed = c.closed ++ d ∷ [] })
]

-- `Connect`, with the answers of `socket` and of `connect`.
pub connect : Option ℕ → Bool → Simple → Bool × Simple
connect none connected c = (false, record c { socket = none })
connect (some d) connected c =
    let opened : Simple = record c { socket = some d } in
    if connected then (true, opened) else (false, (close opened).1)

pub is_open : Simple → Bool
is_open c = elim c.socket [ none ↦ false | some d ↦ true ]

-- The destructor.
pub destroy : Simple → Simple
destroy c = (close c).1

module _ {W : Type 0} where
  -- The loop of `Send` on `len` bytes of which `sent` are sent; `send` answers -1, which is none, or how
  -- many of the bytes it has sent. None is a loop that has used up its fuel.
  pub send_loop : (List ℕ → W → Option ℕ × W) → ℕ → List ℕ → ℕ → W → Option (ℤ × W)
  send_loop send zero buff sent w = none
  send_loop send (suc fuel) buff sent w =
      if ltb sent (length buff)
      then (let (tmpres, v) = send (drop sent buff) w in
          elim tmpres [
            | none ↦ some (negsuc 0, v)
            | some n ↦ send_loop send fuel buff (sent + n) v
          ])
      else some (pos sent, w)

  pub send : (List ℕ → W → Option ℕ × W) → ℕ → Option (List ℕ) → W → Option (ℤ × W)
  send sys fuel none w = some (negsuc 0, w)
  send sys fuel (some []) w = some (negsuc 0, w)
  send sys fuel (some (b ∷ bs)) w = send_loop sys fuel (b ∷ bs) 0 w

  -- `Recv` into a buffer for `n` bytes, or into one at NULL.
  pub recv : (ℕ → W → ℤ × W) → Bool → ℕ → W → ℤ × W
  recv sys null n w = if null || (n == 0) then (pos 0, w) else sys n w

  -- `Recv(std::string&)`, which leaves the string alone; none is a loop that has used up its fuel.
  pub recv_string : (ℕ → W → ℤ × W) → ℕ → W → Option (ℤ × W)
  recv_string sys zero w = none
  recv_string sys (suc fuel) w =
      let (ret, v) = sys 256 w in
      elim ret [ negsuc n ↦ some (pos 0, v) | pos n ↦ recv_string sys fuel v ]

  pub timeout_recv : (ℕ → W → ℤ × W) → ℕ → Bool → ℕ → ℕ → ℕ → W → Option (ℤ × W)
  timeout_recv sys fuel null n time_out outvalue w =
      if null || (n == 0)
      then some (pos 0, w)
      else timeout_loop (recv sys false n) fuel 0 time_out outvalue (pos 0) w
