-- ===== src/Pointer/Count.antt =====
-- The deletions of the object and of the count (include/utility/shared_ptr.h, weak_ptr.h, sp_count.h).
use qth_frame.Base.{◌+◌, ◌<◌, ◌≡◌, refl, ◌&&◌, ◌==◌, if◌then◌else◌, arith}
use qth_frame.Pointer.{
  Shared, owned, add_shared_ref, sub_shared_ref, add_weak_ref, sub_weak_ref, unique, release_owner,
  assign_owner, assign_observer, lock, Step, copies, drops, assigns, observes, copies_weak,
  drops_weak, assigns_weak, locks, Reach, here, next,
}

pub record IsCounted (s : Shared) : Type 0 where
  pub object : s.deletes ≡ (if s.use_count == 0 then 1 else 0)
  pub count : s.destroys ≡ (if (s.use_count == 0) && (s.weak_count == 0) then 1 else 0)

copy-IsCounted : (s : Shared) → 0 < s.use_count → IsCounted s → IsCounted (add_shared_ref s)
unfolding add_shared_ref
copy-IsCounted s h v = record { object = ground (arith, v.object); count = ground (arith, v.count) }

release_owner-IsCounted : (s : Shared) → 0 < s.use_count → IsCounted s → IsCounted (release_owner s)
unfolding release_owner sub_shared_ref unique
release_owner-IsCounted s h v = record {
  object = ground (arith, v.object);
  count = ground (arith, v.count);
}

observe-IsCounted :
    (s : Shared) → 0 < s.use_count + s.weak_count → IsCounted s → IsCounted (add_weak_ref s)
unfolding add_weak_ref
observe-IsCounted s h v = record {
  object = ground (arith, v.object);
  count = ground (arith, v.count);
}

sub_weak_ref-IsCounted : (s : Shared) → 0 < s.weak_count → IsCounted s → IsCounted (sub_weak_ref s)
unfolding sub_weak_ref
sub_weak_ref-IsCounted s h v = record {
  object = ground (arith, v.object);
  count = ground (arith, v.count);
}

assign_owner-IsCounted : (s : Shared) → 1 < s.use_count → IsCounted s → IsCounted (assign_owner s)
unfolding assign_owner release_owner add_shared_ref sub_shared_ref unique
assign_owner-IsCounted s h v = record {
  object = ground (arith, v.object);
  count = ground (arith, v.count);
}

assign_observer-IsCounted :
    (s : Shared) → 1 < s.weak_count → IsCounted s → IsCounted (assign_observer s)
unfolding assign_observer add_weak_ref sub_weak_ref
assign_observer-IsCounted s h v = record {
  object = ground (arith, v.object);
  count = ground (arith, v.count);
}

Step-IsCounted : {s t : Shared} → IsCounted s → Step s t → IsCounted t
unfolding lock
Step-IsCounted {s} v (copies h) = copy-IsCounted s h v
Step-IsCounted {s} v (drops h) = release_owner-IsCounted s h v
Step-IsCounted {s} v (assigns h) = assign_owner-IsCounted s h v
Step-IsCounted {s} v (observes h) = observe-IsCounted s (omega arith) v
Step-IsCounted {s} v (copies_weak h) = observe-IsCounted s (omega arith) v
Step-IsCounted {s} v (drops_weak h) = sub_weak_ref-IsCounted s h v
Step-IsCounted {s} v (assigns_weak h) = assign_observer-IsCounted s h v
Step-IsCounted {s} v (locks h k) = copy-IsCounted s k v

-- Whatever is done with the pointers that share a count, where an observer is locked only while
-- there is an owner: the object has been deleted once if no owner is left and not at all otherwise,
-- and the count once if no pointer is left and not at all otherwise.
pub Reach-IsCounted : {s t : Shared} → IsCounted s → Reach s t → IsCounted t
Reach-IsCounted v here = v
Reach-IsCounted v (next r st) = Step-IsCounted (Reach-IsCounted v r) st

pub owned-IsCounted : IsCounted owned
owned-IsCounted = record { object = refl; count = refl }

-- If an observer is locked when no owner is left, the end of the new owner deletes the object a
-- second time.
pub release_owner-lock :
    (s : Shared)
    → IsCounted s
    → s.use_count ≡ 0
    → 0 < s.weak_count
    → (release_owner (lock s)).deletes ≡ 2
unfolding lock release_owner add_shared_ref sub_shared_ref unique
release_owner-lock s v e h = ground (arith, v.object)
