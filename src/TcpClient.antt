-- ===== src/TcpClient.antt =====
-- `CTcpClientConnect` (src/tcp_client_connect.cpp, include/asio/tcp_client_connect.h). The socket of boost
-- is a parameter: its state, and what each call of it answers.
pub mod Errors
pub mod Timeout
pub mod Simple
mod Tests
use Prim.Native.String.{String}
use qth_frame.Base.{
  ℕ, zero, suc, ◌+◌, ◌%◌, ◌^◌, ◌⊎◌, inl, inr, Bool, true, false, ◌||◌, not, Option, none, some,
  List, [], ◌∷◌, length, ltb, ◌==◌, if◌then◌else◌, ℤ, pos, negsuc,
}

-- The value and the message of an `error_code` that tests true; none is one that tests false.
abbrev pub Error : Type 0
Error = ℤ × String

-- `boost::asio::ip::tcp::socket` with state `W`, and `address_v4::from_string`.
pub record Api (W : Type 0) : Type 0 where
  pub from_string : String → Error ⊎ ℕ
  pub connect : ℕ → ℕ → W → Option Error × W
  pub is_open : W → Bool
  pub shutdown : W → Option Error × W
  pub close : W → Option Error × W
  pub write : List ℕ → W → Option Error × ℕ × W
  pub read_some : ℕ → W → Option Error × List ℕ × W
  pub remote_endpoint : W → Error ⊎ (String × ℕ)
  pub local_endpoint : W → Error ⊎ (String × ℕ)
  pub non_blocking : Bool → W → Option Error × W

pub record Client (W : Type 0) : Type 0 where
  pub socket : W
  pub err_code : ℤ
  pub err_msg : String

-- `10035`
abbrev pub is_would_block : ℤ → Bool
is_would_block (pos n) = n == 10035
is_would_block (negsuc n) = false

-- `nRet == 0`
abbrev pub is_zero : ℤ → Bool
is_zero (pos n) = n == 0
is_zero (negsuc n) = false

-- The loop of `TimeoutRecv`, with the receiving call as `recv`; none is a loop that has used up its
-- fuel. The time is a `size_t`.
pub timeout_loop : {W : Type 0} → (W → ℤ × W) → ℕ → ℕ → ℕ → ℕ → ℤ → W → Option (ℤ × W)
timeout_loop recv zero time time_out outvalue ret w = none
timeout_loop recv (suc fuel) time time_out outvalue ret w =
    if ltb time time_out
    then (let (n, v) = recv w in
        elim (is_zero n) [
          | true ↦ timeout_loop recv fuel ((time + outvalue) % 2 ^ 64) time_out outvalue n v
          | false ↦ some (n, v)
        ])
    else some (ret, w)

module _ {W : Type 0} (api : Api W) where
  abbrev pub fail : Error → Client W → Client W
  fail e c = record c { err_code = e.0; err_msg = e.1 }

  -- `if (ec) {...; return false;} return true;`
  abbrev pub report : Option Error → Client W → Bool × Client W
  report none c = (true, c)
  report (some e) c = (false, fail e c)

  pub connect : String → ℕ → Client W → Bool × Client W
  connect ip port c = elim (api.from_string ip) [
    | inl e ↦ (false, fail e c)
    | inr address ↦
        let (ec, w) = api.connect address port c.socket in report ec (record c { socket = w })
  ]

  pub close : Client W → Bool × Client W
  close c =
      if not (api.is_open c.socket)
      then (true, c)
      else (let (ec, w) = api.shutdown c.socket in
          elim ec [
            | some e ↦ (false, fail e (record c { socket = w }))
            | none ↦ let (ed, v) = api.close w in report ed (record c { socket = v })
          ])

  -- `Send`; none is a buffer at NULL.
  pub send : Option (List ℕ) → Client W → ℤ × Client W
  send none c = (negsuc 0, c)
  send (some []) c = (negsuc 0, c)
  send (some (b ∷ bs)) c =
      let (ec, n, w) = api.write (b ∷ bs) c.socket in
      elim ec [
        | some e ↦ (negsuc 0, fail e (record c { socket = w }))
        | none ↦ (pos n, record c { socket = w })
      ]

  -- `Recv` into a buffer for `n` bytes, or into one at NULL; also the bytes that it puts there.
  pub recv : Bool → ℕ → Client W → ℤ × List ℕ × Client W
  recv null n c =
      if null || (n == 0)
      then (pos 0, [], c)
      else (let (ec, bytes, w) = api.read_some n c.socket in
          elim ec [
            | none ↦ (pos (length bytes), bytes, record c { socket = w })
            | some e ↦
                if is_would_block e.0
                then (pos 0, bytes, record c { socket = w })
                else (negsuc 0, bytes, fail e (record c { socket = w }))
          ])

  -- `Recv` on the client and the bytes received so far.
  abbrev pub recv_more : ℕ → Client W × List (List ℕ) → ℤ × (Client W × List (List ℕ))
  recv_more n (c, got) = let (ret, bytes, d) = recv false n c in (ret, (d, bytes ∷ got))

  pub timeout_recv : ℕ → Bool → ℕ → ℕ → ℕ → Client W → Option (ℤ × (Client W × List (List ℕ)))
  timeout_recv fuel null n time_out outvalue c =
      if null || (n == 0)
      then some (pos 0, (c, []))
      else timeout_loop (recv_more n) fuel 0 time_out outvalue (pos 0) (c, [])

  pub get_peer_address : Client W → Option (String × ℕ) × Client W
  get_peer_address c =
      if api.is_open c.socket
      then elim (api.remote_endpoint c.socket) [ inl e ↦ (none, fail e c) | inr ep ↦ (some ep, c) ]
      else (none, c)

  pub get_local_address : Client W → Option (String × ℕ) × Client W
  get_local_address c =
      if api.is_open c.socket
      then elim (api.local_endpoint c.socket) [ inl e ↦ (none, fail e c) | inr ep ↦ (some ep, c) ]
      else (none, c)

  pub set_socket_mode : Bool → Client W → Bool × Client W
  set_socket_mode mode c =
      let (ec, w) = api.non_blocking mode c.socket in report ec (record c { socket = w })
