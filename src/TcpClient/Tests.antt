-- ===== src/TcpClient/Tests.antt =====
-- A socket that gives one byte at the third read, and one that sends one byte a call.
use qth_frame.Base.{
  ◌<◌, ◌≤◌, ap, ℕ, ◌+◌, ◌-◌, ◌≡◌, inr, true, false, Option, none, some, List, [], ◌∷◌, ◌++◌, length,
  take, arith, times, ◌==◌, if◌then◌else◌, ℤ, pos,
}
use qth_frame.TcpClient.{Api, Client, timeout_loop}
use qth_frame.TcpClient.Errors.{IsReporting, calls-IsReporting}
use qth_frame.TcpClient.Timeout.{tries, IsWaits, timeout_loop-IsWaits}
use qth_frame.TcpClient.Simple.{Simple, send, connect, is_open, destroy}
use qth_frame.TcpClient.Simple.Sending.{IsStream, IsSent, send-IsSent}
use qth_frame.TcpClient.Simple.Closing.{close_all, destroy-times}

abbrev countdown : ℕ → ℤ × ℕ
countdown w = if w == 0 then (pos 1, w) else (pos 0, w - 1)

timeout_loop-IsWaits_example :
    (n : ℕ) × IsWaits n 0 100 30
    × (timeout_loop countdown 101 0 100 30 (pos 0) 2 ≡ some (tries countdown n 2))
timeout_loop-IsWaits_example =
    timeout_loop-IsWaits countdown 101 100 30 2 (omega arith) (omega arith) (omega arith)

abbrev one_byte : List ℕ → List ℕ → Option ℕ × List ℕ
one_byte bs w = (some 1, w ++ take 1 bs)

one_byte-IsStream : IsStream one_byte (λ w. w)
one_byte-IsStream = record {
  failed = λ bs w e. cc (e);
  some_sent = λ bs w n h e. one_sent bs w n (cc (e)) h;
}
  where
    one_sent :
        (bs w : List ℕ) (n : ℕ)
        → 1 ≡ n
        → 0 < length bs
        → (0 < n) × (n ≤ length bs) × (w ++ take 1 bs ≡ w ++ take n bs)
    one_sent bs w n e h = (omega arith, omega arith, ap (λ k. w ++ take k bs) e)

send-IsSent_example :
    IsSent (λ w. w) (7 ∷ 8 ∷ []) (6 ∷ []) (send one_byte 3 (some (7 ∷ 8 ∷ [])) (6 ∷ []))
send-IsSent_example =
    send-IsSent one_byte (λ w. w) 3 (7 ∷ 8 ∷ []) (6 ∷ []) one_byte-IsStream (omega arith)
      (omega arith)

abbrev unopened : Simple
unopened = record { socket = none; closed = [] }

destroy-times_example :
    (is_open (close_all 1 (connect (some 4) false unopened).1) ≡ true)
    × (times 4 (destroy (close_all 1 (connect (some 4) false unopened).1)).closed ≡ 3)
destroy-times_example = destroy-times 4 1 false unopened

-- The number of the calls is the state; the third fails.
abbrev failing : Api ℕ
failing = record {
  from_string = λ ip. inr 1;
  connect = λ a p w. (none, w + 1);
  is_open = λ w. true;
  shutdown = λ w. (if w == 3 then some (pos 10057, "not connected") else none, w + 1);
  close = λ w. (none, w + 1);
  write = λ bs w. (none, length bs, w + 1);
  read_some = λ n w. (some (pos 10035, "would block"), [], w + 1);
  remote_endpoint = λ w. inr ("127.0.0.1", 80);
  local_endpoint = λ w. inr ("127.0.0.1", 8080);
  non_blocking = λ b w. (none, w + 1);
}

abbrev client : Client ℕ
client = record { socket = 3; err_code = pos 0; err_msg = "" }

calls-IsReporting_example : IsReporting failing client
calls-IsReporting_example = calls-IsReporting failing client
