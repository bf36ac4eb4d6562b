-- ===== src/Single.antt =====
-- Singletons and the order in which they are destroyed (src/single.cpp, include/utility/single.h). A
-- class with a single instance is a number. `std::atexit` runs what is registered, once for each
-- registration, which is what `exit_all` does.
pub mod Order
pub mod Uses
pub mod Exit
mod Tests
use qth_frame.Base.{
  ℕ, zero, suc, ◌+◌, Bool, true, false, List, [], ◌∷◌, ◌++◌, drop_last, get_or, length, ◌-◌, Option,
  none, some, ltb, leb, if◌then◌else◌, ◌==◌,
}

-- A `LifetimeTracker` and the class whose instance it destroys.
pub record Tracker : Type 0 where
  pub object : ℕ
  pub longevity : ℕ

-- `pTrackerArray`, which is NULL when it is empty; the registrations; whether each class has its
-- instance and whether it ever had one; and the instances destroyed, in order.
pub record World : Type 0 where
  pub trackers : List Tracker
  pub registered : ℕ
  pub has_instance : ℕ → Bool
  pub live : ℕ → Bool
  pub destroyed : List Tracker

abbrev pub start : World
start = record {
  trackers = [];
  registered = 0;
  has_instance = λ k. false;
  live = λ k. false;
  destroyed = [];
}

-- `LifetimeTracker::Compare`
pub compare : Tracker → Tracker → Bool
compare p q = ltb q.longevity p.longevity

-- The insertion at `std::upper_bound`: before the first tracker that the new one compares to.
pub insert : Tracker → List Tracker → List Tracker
insert p [] = p ∷ []
insert p (q ∷ qs) = if compare p q then p ∷ q ∷ qs else q ∷ insert p qs

pub set_longevity : ℕ → ℕ → World → World
set_longevity k longevity w = record w {
  trackers = insert (record { object = k; longevity = longevity }) w.trackers;
  registered = suc w.registered;
}

abbrev pub set_flag : (ℕ → Bool) → ℕ → Bool → ℕ → Bool
set_flag f k b j = if k == j then b else f j

-- `if (longevity <= 999)`
abbrev pub at_most_999 : ℕ → ℕ
at_most_999 n = if leb n 999 then n else 999

-- `Singleton::Instance` in one thread; none is the exception.
pub instance_of : ℕ → ℕ → World → Option World
instance_of k longevity w =
    if w.has_instance k
    then some w
    else if w.live k
    then none
    else some (
        set_longevity k (at_most_999 longevity) (record w {
          has_instance = set_flag w.has_instance k true;
          live = set_flag w.live k true;
        }))

abbrev pub back : List Tracker → Tracker
back ts = get_or ts (length ts - 1) (record { object = 0; longevity = 0 })

-- `atExitFn`: the last tracker goes, and its destructor destroys the instance.
pub at_exit_fn : World → World
at_exit_fn w = record w {
  trackers = drop_last w.trackers;
  has_instance = set_flag w.has_instance (back w.trackers).object false;
  destroyed = w.destroyed ++ back w.trackers ∷ [];
}

pub exits : ℕ → World → World
exits zero w = w
exits (suc n) w = exits n (at_exit_fn w)

-- The end of the program.
pub exit_all : World → World
exit_all w = exits w.registered w

-- Calls of `Instance`, by class and longevity; a call that throws changes nothing.
pub use_all : List (ℕ × ℕ) → World → World
use_all [] w = w
use_all ((k, longevity) ∷ us) w = elim (instance_of k longevity w) [
  | none ↦ use_all us w
  | some v ↦ use_all us v
]
