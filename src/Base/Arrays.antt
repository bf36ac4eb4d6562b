-- ===== src/Base/Arrays.antt =====
-- Arrays as functions of an index, numbers with a sign, and remainders of numbers that are close.
use Prim.Native.Nat.{ℕ, ◌+◌, ◌-◌, ◌<◌, ◌≤◌, ◌%◌}
use mathlib.Core.Path.{◌≡◌, refl, sym, ap, ◌∙◌}
use mathlib.Core.Logic.{◌≢◌}
use mathlib.Core.Bool.{true, false}
use native.Mathlib.Nat.{mod-lt, mod-eq_of_lt, mod-add-mod, mod-eq-sub-mod}
use native.Mathlib.Decide.{dec_lt, dec_le}
use native.Mathlib.Omega.{arith}
use qth_frame.Base.Tests.{◌==◌, if◌then◌else◌}

-- `pos n` is n, and `negsuc n` is - (n + 1).
pub data ℤ : Type 0 where
  pos negsuc : ℕ → ℤ

module _ {ℓ} {A : Type ℓ} where
  -- `a[i] = v`
  abbrev pub assign : (ℕ → A) → ℕ → A → ℕ → A
  assign f i v j = if i == j then v else f j

  pub assign_self : (f : ℕ → A) (i : ℕ) (v : A) → assign f i v i ≡ v
  assign_self f i v = let e : (i == i) ≡ true = ground arith in rw e refl

  pub assign_other : (f : ℕ → A) (i j : ℕ) (v : A) → i ≢ j → assign f i v j ≡ f j
  assign_other f i j v h = let e : (i == j) ≡ false = ground arith in rw e refl

mod_shift : (n a d : ℕ) → d < n → (a + d) % n ≡ a % n → d ≡ 0
mod_shift n a d h e = elim (dec_lt (a % n + d) n) [
  | yes q ↦ omega (arith, mod-add-mod a n d ∙ e, mod-eq_of_lt q)
  | no q ↦ absurd (
      omega (
        arith,
        mod-add-mod a n d ∙ e,
        mod-eq-sub-mod {n = a % n + d} {m = n} (omega arith),
        mod-eq_of_lt {n = a % n + d - n} {m = n} (omega (arith, mod-lt a {m = n} (omega arith))),
        mod-lt a {m = n} (omega arith),
      ))
]

-- Numbers of a range as long as `n` have different remainders.
pub mod-eq_of_close : (n s a b : ℕ) → s ≤ a → a < s + n → s ≤ b → b < s + n → a % n ≡ b % n → a ≡ b
mod-eq_of_close n s a b ha ka hb kb e = elim (dec_le a b) [
  | yes q ↦
      let w : a + (b - a) ≡ b = omega arith in
      omega (arith, mod_shift n a (b - a) (omega arith) (ap (λ t. t % n) w ∙ sym e))
  | no q ↦
      let w : b + (a - b) ≡ a = omega arith in
      omega (arith, mod_shift n b (a - b) (omega arith) (ap (λ t. t % n) w ∙ e))
]
