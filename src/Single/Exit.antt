-- ===== src/Single/Exit.antt =====
-- What the end of the program does with the singletons (src/single.cpp, include/utility/single.h).
use qth_frame.Base.{
  All, ℕ, zero, suc, ◌≡◌, refl, sym, ap, ◌∙◌, List, [], ◌∷◌, ◌++◌, drop_last, length, ◌-◌,
  length-append, if◌then◌else◌, arith, subst, get_or-append_last,
}
use mathlib.Core.List.{append-nil, append_assoc}
use qth_frame.Single.{Tracker, World, start, back, at_exit_fn, exits, exit_all, use_all}
use qth_frame.Single.Order.{
  All-reversed, IsRising, times, reversed, times-reversed, reversed-IsRising,
}
use qth_frame.Single.Uses.{
  IsTracked, start-IsTracked, use_all-IsTracked, IsDeclared, use_all-All, at_most_999-small,
  at_most_999-large,
}

drop_last-append : (ps : List Tracker) (p : Tracker) → drop_last (ps ++ p ∷ []) ≡ ps
drop_last-append [] p = refl
drop_last-append (q ∷ []) p = refl
drop_last-append (q ∷ r ∷ ps) p = ap (λ qs. q ∷ qs) (drop_last-append (r ∷ ps) p)

back-append : (ps : List Tracker) (p : Tracker) → back (ps ++ p ∷ []) ≡ p
back-append ps p =
    get_or-append_last ps p _ (length (ps ++ p ∷ []) - 1) (omega (arith, length-append ps (p ∷ [])))

-- The trackers and the instances destroyed are what the exit is about.
abbrev pub Left : World → List Tracker → List Tracker → Type 0
Left w ts ds = (w.trackers ≡ ts) × (w.destroyed ≡ ds)

at_exit_fn-Left :
    (w : World) (ps : List Tracker) (p : Tracker) (ds : List Tracker)
    → Left w (ps ++ p ∷ []) ds
    → Left (at_exit_fn w) ps (ds ++ p ∷ [])
unfolding at_exit_fn
at_exit_fn-Left w ps p ds h = (
  ap drop_last h.0 ∙ drop_last-append ps p,
  ap (λ (es : List Tracker). es ++ back w.trackers ∷ []) h.1
      ∙ ap (λ (q : Tracker). ds ++ q ∷ []) (ap back h.0 ∙ back-append ps p),
)

exits-suc : (n : ℕ) (w : World) → exits (suc n) w ≡ at_exit_fn (exits n w)
unfolding exits
exits-suc zero w = refl
exits-suc (suc n) w = exits-suc n (at_exit_fn w)

exits-Left :
    (ps rs : List Tracker) (w : World) (ds : List Tracker)
    → Left w (ps ++ rs) ds
    → Left (exits (length rs) w) ps (ds ++ reversed rs)
unfolding exits
exits-Left ps [] w ds h = (h.0 ∙ append-nil ps, h.1 ∙ sym (append-nil ds))
exits-Left ps (r ∷ rs) w ds h =
    let before : Left w ((ps ++ r ∷ []) ++ rs) ds =
      (h.0 ∙ sym (append_assoc ps (r ∷ []) rs), h.1) in
    let after : Left (at_exit_fn (exits (length rs) w)) ps ((ds ++ reversed rs) ++ r ∷ []) =
      at_exit_fn-Left (exits (length rs) w) ps r (ds ++ reversed rs)
        (exits-Left (ps ++ r ∷ []) rs w ds before) in
    (
      ap (λ (v : World). v.trackers) (exits-suc (length rs) w) ∙ after.0,
      ap (λ (v : World). v.destroyed) (exits-suc (length rs) w)
          ∙ after.1
          ∙ append_assoc ds (reversed rs) (r ∷ []),
    )

-- After the exit: no tracker is left, the instances were destroyed by rising longevity, each with the
-- longevity declared for it, and each class that had an instance exactly once.
pub record IsExited (us : List (ℕ × ℕ)) (w v : World) : Type 0 where
  pub empty : v.trackers ≡ []
  pub rising : IsRising v.destroyed
  pub longevities : All (IsDeclared us) v.destroyed
  pub once : (k : ℕ) → times k v.destroyed ≡ (if w.live k then 1 else 0)

exit_all-IsExited :
    (us : List (ℕ × ℕ)) (w : World)
    → IsTracked w
    → All (IsDeclared us) w.trackers
    → IsExited us w (exit_all w)
unfolding exit_all
exit_all-IsExited us w v a =
    let l : Left (exits w.registered w) [] (reversed w.trackers) =
      subst (λ n. Left (exits n w) [] (reversed w.trackers)) (sym v.counted)
        (exits-Left [] w.trackers w [] (refl, v.none_yet)) in
    record {
      empty = l.0;
      rising = subst IsRising (sym l.1) (reversed-IsRising w.trackers v.falling);
      longevities =
          subst (All (IsDeclared us)) (sym l.1) (All-reversed (IsDeclared us) w.trackers a);
      once = λ k. ap (times k) l.1 ∙ times-reversed k w.trackers ∙ v.once k;
    }

-- After any calls of `Instance` for any classes and longevities, the exit leaves no tracker,
-- destroys the instances in the order of rising longevity, where an instance has the longevity of
-- the first call for its class, or 999 if that is above 999, and destroys the instance of each
-- class exactly once if it was made and never otherwise.
pub exit_all-use_all :
    (us : List (ℕ × ℕ)) → IsExited us (use_all us start) (exit_all (use_all us start))
exit_all-use_all us =
    exit_all-IsExited us (use_all us start) (use_all-IsTracked us start start-IsTracked) (
      use_all-All (IsDeclared us) us start start-IsTracked tt (λ k n l d. record {
        longevity = n;
        first = d;
        small = at_most_999-small n;
        large = at_most_999-large n;
      }))
