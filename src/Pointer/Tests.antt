-- ===== src/Pointer/Tests.antt =====
-- An owner and an observer.
use qth_frame.Base.{◌≡◌, refl, arith}
use qth_frame.Pointer.{
  Shared, owned, add_weak_ref, release_owner, sub_shared_ref, unique, lock, Reach, here, next,
  observes, drops,
}
use qth_frame.Pointer.Count.{IsCounted, Reach-IsCounted, owned-IsCounted, release_owner-lock}

abbrev left : Shared
left = release_owner (add_weak_ref owned)

leaving : Reach owned left
unfolding add_weak_ref
leaving = next (next here (observes (omega arith))) (drops (omega arith))

Reach-IsCounted_example : IsCounted left
Reach-IsCounted_example = Reach-IsCounted owned-IsCounted leaving

release_owner-lock_example : (release_owner (lock left)).deletes ≡ 2
unfolding add_weak_ref release_owner sub_shared_ref unique
release_owner-lock_example =
    release_owner-lock left (Reach-IsCounted owned-IsCounted leaving) refl (omega arith)
