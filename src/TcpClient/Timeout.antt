-- ===== src/TcpClient/Timeout.antt =====
-- How often `TimeoutRecv` (src/tcp_client_connect.cpp) receives.
use qth_frame.Base.{
  ℕ, zero, suc, ◌+◌, ◌-◌, ◌*◌, ◌/◌, ◌%◌, ◌^◌, ◌≤◌, ◌<◌, ◌≡◌, ◌⊎◌, refl, ap, ◌∙◌, true, false, none,
  some, arith, ltb, Bool-cases, inl, inr, ℤ, pos, negsuc,
}
use native.Mathlib.Nat.{mod-eq_of_lt, mod-lt, mod-add-div'}
use qth_frame.TcpClient.{is_zero, timeout_loop}

-- `n` is how many waits of length `o` it takes to fill the time from `t` to `e`.
pub record IsWaits (n t e o : ℕ) : Type 0 where
  pub enough : e ≤ t + n * o
  pub needed : (n ≡ 0) ⊎ (t + (n - 1) * o < e)

IsWaits-suc : (n t e o : ℕ) → IsWaits (suc n) t e o → IsWaits n (t + o) e o
IsWaits-suc zero t e o h = record { enough = grind (arith, h.enough); needed = inl refl }
IsWaits-suc (suc n) t e o h = elim h.needed [
  | inl z ↦ absurd (omega arith)
  | inr lt ↦ record { enough = grind (arith, h.enough); needed = inr (grind (arith, lt)) }
]

IsWaits-div : (e o : ℕ) → 0 < o → IsWaits ((e + o - 1) / o) 0 e o
IsWaits-div e o h =
    let whole = mod-add-div' (e + o - 1) o in
    let rest = mod-lt (e + o - 1) h in go ((e + o - 1) / o) whole rest
  where
    go : (n : ℕ) → (e + o - 1) % o + n * o ≡ e + o - 1 → (e + o - 1) % o < o → IsWaits n 0 e o
    go zero w r = record { enough = omega arith; needed = inl refl }
    go (suc n) w r = record { enough = omega arith; needed = inr (grind (arith, w, r, h)) }

IsWaits-lt : (n t e o : ℕ) → 0 < o → IsWaits (suc n) t e o → t < e
IsWaits-lt n t e o z h = elim h.needed [ inl q ↦ absurd (omega arith) | inr q ↦ omega arith ]

IsWaits-le : (n e o : ℕ) → 0 < o → IsWaits n 0 e o → n ≤ e
IsWaits-le zero e o z h = omega arith
IsWaits-le (suc n) e o z h = elim h.needed [
  | inl q ↦ absurd (omega arith)
  | inr q ↦
      let m : n * 1 ≤ n * o = grind (arith, z) in
      let r : n * o < e = grind (arith, q) in omega (arith, r, m)
]

module _ {W : Type 0} (recv : W → ℤ × W) where
  -- At most `n` calls, up to the first that does not answer 0.
  pub tries : ℕ → W → ℤ × W
  tries zero w = (pos 0, w)
  tries (suc n) w =
      let (ret, v) = recv w in elim (is_zero ret) [ true ↦ tries n v | false ↦ (ret, v) ]

  timeout_loop-over :
      (fuel t e o : ℕ) (ret : ℤ) (w : W)
      → e ≤ t
      → timeout_loop recv (suc fuel) t e o ret w ≡ some (ret, w)
  unfolding timeout_loop
  timeout_loop-over fuel t e o ret w h =
      let q : ltb t e ≡ false = ground arith in rw (timeout_loop, q) refl

  zero_answer : (a : ℤ) → is_zero a ≡ true → a ≡ pos 0
  zero_answer (pos n) h = ap pos (ground arith)
  zero_answer (negsuc n) h = cc (h)

  timeout_loop-again :
      (fuel t e o : ℕ) (ret : ℤ) (w : W)
      → t < e
      → e + o ≤ 2 ^ 64
      → is_zero (recv w).0 ≡ true
      → timeout_loop recv (suc fuel) t e o ret w
        ≡ timeout_loop recv fuel (t + o) e o (pos 0) (recv w).1
  unfolding timeout_loop
  timeout_loop-again fuel t e o ret w h b z =
      let q : ltb t e ≡ true = ground arith in
      let m : (t + o) % 2 ^ 64 ≡ t + o = mod-eq_of_lt (omega arith) in
      rw (timeout_loop, q, z, m)
        (ap (λ a. timeout_loop recv fuel (t + o) e o a (recv w).1) (zero_answer (recv w).0 z))

  timeout_loop-found :
      (fuel t e o : ℕ) (ret : ℤ) (w : W)
      → t < e
      → is_zero (recv w).0 ≡ false
      → timeout_loop recv (suc fuel) t e o ret w ≡ some (recv w)
  unfolding timeout_loop
  timeout_loop-found fuel t e o ret w h z =
      let q : ltb t e ≡ true = ground arith in rw (timeout_loop, q, z) refl

  -- The loop is the tries, where the time does not overflow.
  timeout_loop-tries :
      (fuel n t e o : ℕ) (w : W)
      → n < fuel
      → 0 < o
      → e + o ≤ 2 ^ 64
      → IsWaits n t e o
      → timeout_loop recv fuel t e o (pos 0) w ≡ some (tries n w)
  unfolding tries
  timeout_loop-tries zero n t e o w f p b h = absurd (omega arith)
  timeout_loop-tries (suc fuel) zero t e o w f p b h =
      timeout_loop-over fuel t e o (pos 0) w (omega (arith, h.enough))
  timeout_loop-tries (suc fuel) (suc n) t e o w f p b h =
      let q = IsWaits-lt n t e o p h in
      elim (Bool-cases (is_zero (recv w).0)) [
        | inl z ↦
            timeout_loop-again fuel t e o (pos 0) w q b z
            ∙ timeout_loop-tries fuel n (t + o) e o (recv w).1 (omega arith) p b
                (IsWaits-suc n t e o h)
            ∙ rw (tries, z) refl
        | inr z ↦ timeout_loop-found fuel t e o (pos 0) w q z ∙ rw (tries, z) refl
      ]

  -- With waits of some length, and where the time and one wait stay within a `size_t`, the loop of
  -- `TimeoutRecv` ends, and it is the same as at most that many tries to receive, up to the first
  -- that does not answer 0, as it takes waits to fill the time.
  pub timeout_loop-IsWaits :
      (fuel e o : ℕ) (w : W)
      → e < fuel
      → 0 < o
      → e + o ≤ 2 ^ 64
      → (n : ℕ) × IsWaits n 0 e o × (timeout_loop recv fuel 0 e o (pos 0) w ≡ some (tries n w))
  timeout_loop-IsWaits fuel e o w f p b =
      let n = (e + o - 1) / o in
      let h = IsWaits-div e o p in
      (n, h, timeout_loop-tries fuel n 0 e o w (omega (arith, IsWaits-le n e o p h)) p b h)

  -- With a wait of no length the loop does not end while nothing comes.
  pub timeout_loop-idle :
      (fuel e : ℕ) (w : W)
      → 0 < e
      → e ≤ 2 ^ 64
      → ((v : W) → (recv v).0 ≡ pos 0)
      → timeout_loop recv fuel 0 e 0 (pos 0) w ≡ none
  unfolding timeout_loop
  timeout_loop-idle zero e w h b z = refl
  timeout_loop-idle (suc fuel) e w h b z =
      timeout_loop-again fuel 0 e 0 (pos 0) w h (omega arith) (ap is_zero (z w))
      ∙ timeout_loop-idle fuel e (recv w).1 h b z
