-- ===== src/TcpClient/Simple/Closing.antt =====
-- How often `SimpleTcpClientConnect` (src/tcp_client_connect.cpp) closes a descriptor.
use qth_frame.Base.{
  ℕ, zero, suc, ◌+◌, ◌≡◌, refl, ap, ◌∙◌, Bool, true, false, some, [], ◌∷◌, ◌++◌, arith,
  if◌then◌else◌, ◌==◌, times, times-append, Bool-cases, inl, inr,
}
use qth_frame.TcpClient.Simple.{Simple, close, connect, is_open, destroy}

-- `n` calls of `Close`.
pub close_all : ℕ → Simple → Simple
close_all zero c = c
close_all (suc n) c = close_all n (close c).1

close-open :
    (d : ℕ) (c : Simple)
    → c.socket ≡ some d
    → (close c).1 ≡ record c { closed = c.closed ++ d ∷ [] }
unfolding close
close-open d c e = simp (close, e)

close-times :
    (d : ℕ) (c : Simple) → c.socket ≡ some d → times d (close c).1.closed ≡ times d c.closed + 1
close-times d c e =
    ap (λ (s : Simple). times d s.closed) (close-open d c e)
    ∙ times-append d c.closed (d ∷ [])
    ∙ (let q : (d == d) ≡ true = ground arith in rw q refl)

close-socket : (d : ℕ) (c : Simple) → c.socket ≡ some d → (close c).1.socket ≡ some d
close-socket d c e = ap (λ (s : Simple). s.socket) (close-open d c e) ∙ e

-- The descriptor stays where it is, and has been closed `n` times more.
abbrev ClosedMore : ℕ → ℕ → Simple → Simple → Type 0
ClosedMore d n c e = (e.socket ≡ some d) × (times d e.closed ≡ times d c.closed + n)

close_all-ClosedMore : (d n : ℕ) (c : Simple) → c.socket ≡ some d → ClosedMore d n c (close_all n c)
unfolding close_all
close_all-ClosedMore d zero c e = (e, omega arith)
close_all-ClosedMore d (suc n) c e =
    let (s, t) = close_all-ClosedMore d n (close c).1 (close-socket d c e) in
    (s, omega (arith, t, close-times d c e))

connect-ClosedMore :
    (d : ℕ) (b : Bool) (c : Simple) → ClosedMore d (if b then 0 else 1) c (connect (some d) b c).1
unfolding connect
connect-ClosedMore d true c = (refl, omega arith)
connect-ClosedMore d false c =
    let opened : Simple = record c { socket = some d } in
    (close-socket d opened refl, close-times d opened refl)

is_open-some : (d : ℕ) (c : Simple) → c.socket ≡ some d → is_open c ≡ true
unfolding is_open
is_open-some d c e = rw (is_open, e) refl

abbrev more : Bool → ℕ
more k = if k then 0 else 1

abbrev in_all : Bool → ℕ
in_all k = if k then 1 else 2

-- After a `Connect` of `SimpleTcpClientConnect` that got a descriptor, and `n` calls of `Close`,
-- the client still says that it is open, and its destructor leaves the descriptor closed `n` times
-- and once more, or twice more if the `Connect` failed.
pub destroy-times :
    (d n : ℕ) (b : Bool) (c : Simple)
    → (is_open (close_all n (connect (some d) b c).1) ≡ true)
      × (times d (destroy (close_all n (connect (some d) b c).1)).closed
          ≡ times d c.closed + n + (if b then 1 else 2))
unfolding destroy
destroy-times d n b c =
    let (s, t) = connect-ClosedMore d b c in
    let (p, q) = close_all-ClosedMore d n (connect (some d) b c).1 s in
    let r = close-times d (close_all n (connect (some d) b c).1) p in
    (
      is_open-some d _ p,
      elim (Bool-cases b) [
        | inl e ↦ omega (arith, r, q, t, ap more e, ap in_all e)
        | inr e ↦ omega (arith, r, q, t, ap more e, ap in_all e)
      ],
    )
