-- ===== src/TcpClient/Errors.antt =====
-- How `CTcpClientConnect` (src/tcp_client_connect.cpp) reports the errors of the socket.
use Prim.Native.String.{String}
use qth_frame.Base.{
  ℕ, suc, ◌≡◌, refl, ◌⊎◌, inl, inr, Bool, true, false, Option, none, some, List, ◌∷◌, length, arith,
  ◌==◌, if◌then◌else◌, Option-cases, Bool-cases, ℤ, pos, negsuc,
}
use qth_frame.TcpClient.{
  Error, Api, Client, is_would_block, connect, close, send, recv, set_socket_mode,
}

module _ {W : Type 0} (api : Api W) (c : Client W) where
  -- The error that a call ran into: what `GetErrorCode` and `GetErrorInfo` answer after it.
  abbrev pub Noted : Option Error → Client W → Type 0
  Noted none d = (d.err_code ≡ c.err_code) × (d.err_msg ≡ c.err_msg)
  Noted (some e) d = (d.err_code ≡ e.0) × (d.err_msg ≡ e.1)

  -- A call that answers true exactly if it ran into no error, which is noted.
  abbrev pub Reports : Option Error → Bool × Client W → Type 0
  Reports none r = (r.0 ≡ true) × Noted none r.1
  Reports (some e) r = (r.0 ≡ false) × Noted (some e) r.1

  abbrev pub connect_error : String → ℕ → Option Error
  connect_error ip port = elim (api.from_string ip) [
    | inl e ↦ some e
    | inr address ↦ (api.connect address port c.socket).0
  ]

  -- Of the two calls that close an open socket, the second is made if the first succeeds.
  abbrev pub close_error : Option Error
  close_error =
      if api.is_open c.socket
      then elim (api.shutdown c.socket).0 [
        | some e ↦ some e
        | none ↦ (api.close (api.shutdown c.socket).1).0
      ]
      else none

  -- A read that would block is no error.
  abbrev pub recv_error : ℕ → Option Error
  recv_error n = elim (api.read_some n c.socket).0 [
    | none ↦ none
    | some e ↦ if is_would_block e.0 then none else some e
  ]

  abbrev pub recv_value : ℕ → ℤ
  recv_value n =
      let (ec, bytes, w) = api.read_some n c.socket in
      elim ec [ none ↦ pos (length bytes) | some e ↦ pos 0 ]

  -- A call that answers `n` if it ran into no error, and else -1 with the error noted.
  abbrev pub Answers : Option Error → ℤ → ℤ → Client W → Type 0
  Answers none n ret d = (ret ≡ n) × Noted none d
  Answers (some e) n ret d = (ret ≡ negsuc 0) × Noted (some e) d

  connect-Reports :
      (ip : String) (port : ℕ) → Reports (connect_error ip port) (connect api ip port c)
  unfolding connect
  connect-Reports ip port = go (api.from_string ip) refl
    where
      go :
          (r : Error ⊎ ℕ)
          → api.from_string ip ≡ r
          → Reports (connect_error ip port) (connect api ip port c)
      go (inl e) q = rw (connect, connect_error, q) (refl, (refl, refl))
      go (inr a) q = elim (Option-cases (api.connect a port c.socket).0) [
        | inl f ↦ rw (connect, connect_error, q, f) (refl, (refl, refl))
        | inr (e, f) ↦ rw (connect, connect_error, q, f) (refl, (refl, refl))
      ]

  close-Reports : Reports close_error (close api c)
  unfolding close
  close-Reports = elim (Bool-cases (api.is_open c.socket)) [
    | inr p ↦ rw (close, p) (refl, (refl, refl))
    | inl p ↦ elim (Option-cases (api.shutdown c.socket).0) [
      | inr (e, q) ↦ rw (close, p, q) (refl, (refl, refl))
      | inl q ↦ elim (Option-cases (api.close (api.shutdown c.socket).1).0) [
        | inl f ↦ rw (close, p, q, f) (refl, (refl, refl))
        | inr (e, f) ↦ rw (close, p, q, f) (refl, (refl, refl))
      ]
    ]
  ]

  send-Answers :
      (b : ℕ) (bs : List ℕ)
      → let r = send api (some (b ∷ bs)) c in
        Answers (api.write (b ∷ bs) c.socket).0 (pos (api.write (b ∷ bs) c.socket).1) r.0 r.1
  unfolding send
  send-Answers b bs = elim (Option-cases (api.write (b ∷ bs) c.socket).0) [
    | inl f ↦ rw (send, f) (refl, (refl, refl))
    | inr (e, f) ↦ rw (send, f) (refl, (refl, refl))
  ]

  recv-Answers :
      (n : ℕ)
      → let r = recv api false (suc n) c in
        Answers (recv_error (suc n)) (recv_value (suc n)) r.0 r.2
  unfolding recv
  recv-Answers n =
      let z : (suc n == 0) ≡ false = ground arith in
      elim (Option-cases (api.read_some (suc n) c.socket).0) [
        | inl f ↦ rw (recv, recv_error, recv_value, z, f) (refl, (refl, refl))
        | inr (e, f) ↦ elim (Bool-cases (is_would_block e.0)) [
          | inl q ↦ rw (recv, recv_error, recv_value, z, f, q) (refl, (refl, refl))
          | inr q ↦ rw (recv, recv_error, recv_value, z, f, q) (refl, (refl, refl))
        ]
      ]

  set_socket_mode-Reports :
      (mode : Bool) → Reports (api.non_blocking mode c.socket).0 (set_socket_mode api mode c)
  unfolding set_socket_mode
  set_socket_mode-Reports mode = elim (Option-cases (api.non_blocking mode c.socket).0) [
    | inl f ↦ rw (set_socket_mode, f) (refl, (refl, refl))
    | inr (e, f) ↦ rw (set_socket_mode, f) (refl, (refl, refl))
  ]

  -- Every call reports the errors of the socket.
  pub record IsReporting : Type 0 where
    pub connects :
        (ip : String) (port : ℕ) → Reports (connect_error ip port) (connect api ip port c)
    pub closes : Reports close_error (close api c)
    pub sends :
        (b : ℕ) (bs : List ℕ)
        → let r = send api (some (b ∷ bs)) c in
          Answers (api.write (b ∷ bs) c.socket).0 (pos (api.write (b ∷ bs) c.socket).1) r.0 r.1
    pub receives :
        (n : ℕ)
        → let r = recv api false (suc n) c in
          Answers (recv_error (suc n)) (recv_value (suc n)) r.0 r.2
    pub modes :
        (mode : Bool) → Reports (api.non_blocking mode c.socket).0 (set_socket_mode api mode c)

  -- On any socket and in any state, `Connect`, `Close`, `setSocketMode`, and `Send` and `Recv` of
  -- some bytes answer false or -1 exactly if a call of the socket reports an error, of which `Recv`
  -- takes 10035 for no data; then that error is the last error of the client, and else the last
  -- error stays.
  pub calls-IsReporting : IsReporting
  calls-IsReporting = record {
    connects = connect-Reports;
    closes = close-Reports;
    sends = send-Answers;
    receives = recv-Answers;
    modes = set_socket_mode-Reports;
  }
