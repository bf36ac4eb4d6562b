-- ===== src/Single/Uses.antt =====
-- What the calls of `Singleton::Instance` leave for the end of the program (include/utility/single.h).
use qth_frame.Base.{
  ◌<◌, ◌≤◌, none, Option, All, ℕ, suc, ◌≡◌, refl, sym, ap, ◌∙◌, true, false, List, [], ◌∷◌, length,
  some, if◌then◌else◌, arith, Bool-cases, ◌==◌, ==_iff, subst, inl, inr,
}
use qth_frame.Single.{
  Tracker, World, start, set_longevity, set_flag, at_most_999, instance_of, use_all,
}
use qth_frame.Single.Order.{
  All-inserted, IsFalling, times, insert-IsFalling, length-insert, times-insert,
}

-- Before the exit: the trackers are in order, one for each registration and one for each class that
-- has its instance.
pub record IsTracked (w : World) : Type 0 where
  pub falling : IsFalling w.trackers
  pub counted : w.registered ≡ length w.trackers
  pub none_yet : w.destroyed ≡ []
  pub alive : (k : ℕ) → w.has_instance k ≡ w.live k
  pub once : (k : ℕ) → times k w.trackers ≡ (if w.live k then 1 else 0)

pub start-IsTracked : IsTracked start
start-IsTracked = record {
  falling = tt;
  counted = refl;
  none_yet = refl;
  alive = λ k. refl;
  once = λ k. refl;
}

-- What the first call of `Instance` for class `k` does.
abbrev first_use : ℕ → ℕ → World → World
first_use k n w =
    set_longevity k n
      (record w { has_instance = set_flag w.has_instance k true; live = set_flag w.live k true })

first_use-IsTracked :
    (k n : ℕ) (w : World) → w.live k ≡ false → IsTracked w → IsTracked (first_use k n w)
unfolding set_longevity
first_use-IsTracked k n w e v = record {
  falling = insert-IsFalling _ w.trackers v.falling;
  counted = ap suc v.counted ∙ sym (length-insert _ w.trackers);
  none_yet = v.none_yet;
  alive = λ j. elim (Bool-cases (k == j)) [ inl q ↦ rw q refl | inr q ↦ rw q (v.alive j) ];
  once = λ j. times-insert j _ w.trackers ∙ (elim (Bool-cases (k == j)) [
    | inl q ↦
        let f : w.live j ≡ false = subst (λ i. w.live i ≡ false) ((==_iff k j).0 q) e in
        let o : times j w.trackers ≡ 0 = v.once j ∙ rw f refl in rw (q, o) refl
    | inr q ↦ rw q (omega (arith, v.once j))
  ]);
}

instance_of-there : (k n : ℕ) (w : World) → w.has_instance k ≡ true → instance_of k n w ≡ some w
unfolding instance_of
instance_of-there k n w e = rw (instance_of, e) refl

instance_of-new :
    (k n : ℕ) (w : World)
    → w.has_instance k ≡ false
    → w.live k ≡ false
    → instance_of k n w ≡ some (first_use k (at_most_999 n) w)
unfolding instance_of
instance_of-new k n w e f = rw (instance_of, e, f) refl

use_all-cons :
    (k n : ℕ) (us : List (ℕ × ℕ)) (w v : World)
    → instance_of k n w ≡ some v
    → use_all ((k, n) ∷ us) w ≡ use_all us v
unfolding use_all
use_all-cons k n us w v e = rw (use_all, e) refl

use_all-nil : (w : World) → use_all [] w ≡ w
unfolding use_all
use_all-nil w = refl

-- The first calls for each class make its instance, and no call throws.
pub use_all-IsTracked : (us : List (ℕ × ℕ)) (w : World) → IsTracked w → IsTracked (use_all us w)
use_all-IsTracked [] w v = subst IsTracked (sym (use_all-nil w)) v
use_all-IsTracked ((k, n) ∷ us) w v = elim (Bool-cases (w.has_instance k)) [
  | inl e ↦
      subst IsTracked (sym (use_all-cons k n us w w (instance_of-there k n w e)))
        (use_all-IsTracked us w v)
  | inr e ↦
      let f : w.live k ≡ false = sym (v.alive k) ∙ e in
      let u : World = first_use k (at_most_999 n) w in
      subst IsTracked (sym (use_all-cons k n us w u (instance_of-new k n w e f)))
        (use_all-IsTracked us u (first_use-IsTracked k (at_most_999 n) w f v))
]

-- The longevity that the first call of `Instance` for class `k` has.
abbrev pub declared : ℕ → List (ℕ × ℕ) → Option ℕ
declared k [] = none
declared k ((j, n) ∷ us) = if j == k then some n else declared k us

-- The tracker has the longevity of the first call for its class, or 999 if that is above 999.
pub record IsDeclared (us : List (ℕ × ℕ)) (p : Tracker) : Type 0 where
  pub longevity : ℕ
  pub first : declared p.object us ≡ some longevity
  pub small : longevity ≤ 999 → p.longevity ≡ longevity
  pub large : 999 < longevity → p.longevity ≡ 999

pub at_most_999-small : (n : ℕ) → n ≤ 999 → at_most_999 n ≡ n
at_most_999-small n h = ground arith

pub at_most_999-large : (n : ℕ) → 999 < n → at_most_999 n ≡ 999
at_most_999-large n h = ground arith

-- `P` holds of what the calls still make for a class that has never had its instance.
abbrev Makes : (Tracker → Type 0) → List (ℕ × ℕ) → World → Type 0
Makes P us w =
    (k n : ℕ)
    → w.live k ≡ false
    → declared k us ≡ some n
    → P (record { object = k; longevity = at_most_999 n })

Makes-there :
    (P : Tracker → Type 0) (k n : ℕ) (us : List (ℕ × ℕ)) (w : World)
    → w.live k ≡ true
    → Makes P ((k, n) ∷ us) w
    → Makes P us w
Makes-there P k n us w e h j m l d = elim (Bool-cases (k == j)) [
  | inl q ↦ cc (e, l, ap w.live ((==_iff k j).0 q))
  | inr q ↦ h j m l (rw q d)
]

Makes-new :
    (P : Tracker → Type 0) (k n m : ℕ) (us : List (ℕ × ℕ)) (w : World)
    → Makes P ((k, n) ∷ us) w
    → Makes P us (first_use k m w)
unfolding set_longevity
Makes-new P k n m us w h j i l d = elim (Bool-cases (k == j)) [
  | inl q ↦ cc (q, l)
  | inr q ↦ h j i (subst (λ b. (if b then true else w.live j) ≡ false) q l) (rw q d)
]

first_use-All :
    (P : Tracker → Type 0) (k n : ℕ) (w : World)
    → P (record { object = k; longevity = n })
    → All P w.trackers
    → All P (first_use k n w).trackers
unfolding set_longevity
first_use-All P k n w h a = All-inserted P _ w.trackers h a

-- All trackers after the calls were there before or are made by them.
pub use_all-All :
    (P : Tracker → Type 0) (us : List (ℕ × ℕ)) (w : World)
    → IsTracked w
    → All P w.trackers
    → Makes P us w
    → All P (use_all us w).trackers
use_all-All P [] w v a h = subst (λ (u : World). All P u.trackers) (sym (use_all-nil w)) a
use_all-All P ((k, n) ∷ us) w v a h = elim (Bool-cases (w.has_instance k)) [
  | inl e ↦
      subst (λ (u : World). All P u.trackers)
        (sym (use_all-cons k n us w w (instance_of-there k n w e)))
        (use_all-All P us w v a (Makes-there P k n us w (sym (v.alive k) ∙ e) h))
  | inr e ↦
      let f : w.live k ≡ false = sym (v.alive k) ∙ e in
      let u : World = first_use k (at_most_999 n) w in
      subst (λ (t : World). All P t.trackers)
        (sym (use_all-cons k n us w u (instance_of-new k n w e f)))
        (use_all-All P us u (first_use-IsTracked k (at_most_999 n) w f v)
          (first_use-All P k (at_most_999 n) w (h k n f (rw ((==_iff k k).1 refl) refl)) a)
          (Makes-new P k n (at_most_999 n) us w h))
]
