-- ===== src/TcpClient/Simple/Sending.antt =====
-- What `Send` of `SimpleTcpClientConnect` (src/tcp_client_connect.cpp) sends.
use mathlib.Core.List.{append-nil, append_assoc}
use qth_frame.Base.{
  ℕ, zero, suc, ◌+◌, ◌-◌, ◌≤◌, ◌<◌, ◌≡◌, refl, sym, ap, ◌∙◌, subst, true, false, Option, none, some,
  List, [], ◌∷◌, ◌++◌, length, take, drop, arith, ltb, Option-cases, inl, inr, dec_lt, ℤ, pos,
  negsuc,
}
use qth_frame.TcpClient.Simple.{send_loop, send}

-- The system's `send` on a socket: `sent` is what the other side gets, and a call with some bytes sends
-- one of them or more, from the first on, unless it fails.
pub record IsStream {W : Type 0} (sys : List ℕ → W → Option ℕ × W) (sent : W → List ℕ)
    : Type 0 where
  pub failed : (bs : List ℕ) (w : W) → (sys bs w).0 ≡ none → sent (sys bs w).1 ≡ sent w
  pub some_sent :
      (bs : List ℕ) (w : W) (n : ℕ)
      → 0 < length bs
      → (sys bs w).0 ≡ some n
      → (0 < n) × (n ≤ length bs) × (sent (sys bs w).1 ≡ sent w ++ take n bs)

-- All of the bytes are sent, and counted, or the answer is -1 after some of them.
pub data IsSent {W : Type 0} (sent : W → List ℕ) (buff : List ℕ) (w : W)
    : Option (ℤ × W) → Type 0 where
  all : (v : W) → sent v ≡ sent w ++ buff → IsSent sent buff w (some (pos (length buff), v))
  partly :
      (v : W) (n : ℕ)
      → n < length buff
      → sent v ≡ sent w ++ take n buff
      → IsSent sent buff w (some (negsuc 0, v))

take-length : (bs : List ℕ) (n : ℕ) → length bs ≤ n → take n bs ≡ bs
take-length [] zero h = refl
take-length [] (suc n) h = refl
take-length (b ∷ bs) zero h = absurd (omega arith)
take-length (b ∷ bs) (suc n) h = ap (◌∷◌ b) (take-length bs n (omega arith))

take_nil : (n : ℕ) → take {A = ℕ} n [] ≡ []
take_nil zero = refl
take_nil (suc n) = refl

take-append-drop :
    (bs : List ℕ) (m n k : ℕ) → k ≡ m + n → take m bs ++ take n (drop m bs) ≡ take k bs
take-append-drop [] zero n k h = take_nil n ∙ sym (take_nil k)
take-append-drop [] (suc m) n k h = take_nil n ∙ sym (take_nil k)
take-append-drop (b ∷ bs) zero n k h = ap (λ t. take t (b ∷ bs)) (omega (arith, h))
take-append-drop (b ∷ bs) (suc m) n zero h = absurd (omega arith)
take-append-drop (b ∷ bs) (suc m) n (suc k) h = ap (◌∷◌ b) (take-append-drop bs m n k (omega arith))

length-drop : (bs : List ℕ) (m : ℕ) → length (drop m bs) ≡ length bs - m
length-drop [] zero = omega arith
length-drop [] (suc m) = omega arith
length-drop (b ∷ bs) zero = omega arith
length-drop (b ∷ bs) (suc m) = omega (arith, length-drop bs m)

module _ {W : Type 0} (sys : List ℕ → W → Option ℕ × W) (out : W → List ℕ) (h : IsStream sys out)
    (buff : List ℕ) where
  send_loop-over :
      (fuel s : ℕ) (w : W) → length buff ≤ s → send_loop sys (suc fuel) buff s w ≡ some (pos s, w)
  unfolding send_loop
  send_loop-over fuel s w k =
      let q : ltb s (length buff) ≡ false = ground arith in rw (send_loop, q) refl

  send_loop-failed :
      (fuel s : ℕ) (w : W)
      → s < length buff
      → (sys (drop s buff) w).0 ≡ none
      → send_loop sys (suc fuel) buff s w ≡ some (negsuc 0, (sys (drop s buff) w).1)
  unfolding send_loop
  send_loop-failed fuel s w k e =
      let q : ltb s (length buff) ≡ true = ground arith in rw (send_loop, q, e) refl

  send_loop-more :
      (fuel s n : ℕ) (w : W)
      → s < length buff
      → (sys (drop s buff) w).0 ≡ some n
      → send_loop sys (suc fuel) buff s w ≡ send_loop sys fuel buff (s + n) (sys (drop s buff) w).1
  unfolding send_loop
  send_loop-more fuel s n w k e =
      let q : ltb s (length buff) ≡ true = ground arith in rw (send_loop, q, e) refl

  send_loop-IsSent :
      (fuel s : ℕ) (w v : W)
      → s ≤ length buff
      → length buff - s < fuel
      → out v ≡ out w ++ take s buff
      → IsSent out buff w (send_loop sys fuel buff s v)
  send_loop-IsSent zero s w v k f e = absurd (omega arith)
  send_loop-IsSent (suc fuel) s w v k f e = elim (dec_lt s (length buff)) [
    | no ge ↦
        let same : s ≡ length buff = omega arith in
        subst (IsSent out buff w)
          (sym (send_loop-over fuel s v (omega arith) ∙ ap (λ n. some (pos n, v)) same))
          (all v (e ∙ ap (λ l. out w ++ l) (take-length buff s (omega arith))))
    | yes lt ↦ elim (Option-cases (sys (drop s buff) v).0) [
      | inl q ↦
          subst (IsSent out buff w) (sym (send_loop-failed fuel s v lt q))
            (partly _ s lt (h.failed (drop s buff) v q ∙ e))
      | inr (n, q) ↦
          let (p, r, t) = h.some_sent (drop s buff) v n (omega (arith, length-drop buff s)) q in
          let l = length-drop buff s in
          subst (IsSent out buff w) (sym (send_loop-more fuel s n v lt q)) (
            send_loop-IsSent fuel (s + n) w (sys (drop s buff) v).1 (omega arith) (omega arith) (
              t
              ∙ ap (λ a. a ++ take n (drop s buff)) e
              ∙ append_assoc (out w) (take s buff) (take n (drop s buff))
              ∙ ap (λ a. out w ++ a) (take-append-drop buff s n (s + n) refl)))
    ]
  ]

-- Where the system's `send` on some bytes fails and sends none of them, or sends one or more of
-- them from the first on, `Send` of one or more bytes ends after at most as many rounds and one: it
-- answers their number when the other side gets all of them in order, and -1 only after an initial
-- part that is not all of them.
pub send-IsSent :
    {W : Type 0} (sys : List ℕ → W → Option ℕ × W) (out : W → List ℕ) (fuel : ℕ) (buff : List ℕ)
    (w : W)
    → IsStream sys out
    → 0 < length buff
    → length buff < fuel
    → IsSent out buff w (send sys fuel (some buff) w)
unfolding send
send-IsSent sys out fuel [] w h k f = absurd (omega arith)
send-IsSent sys out fuel (b ∷ bs) w h k f =
    send_loop-IsSent sys out h (b ∷ bs) fuel 0 w w (omega arith) (omega arith)
      (sym (append-nil (out w)))
