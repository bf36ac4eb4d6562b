-- ===== src/Pointer.antt =====
-- `shared_ptr` and `weak_ptr` with their count (include/utility/shared_ptr.h, weak_ptr.h, sp_count.h):
-- one object, and all the pointers that share its count. A pointer that owns the object is an owner,
-- a `weak_ptr` an observer.
pub mod Count
mod Tests
use qth_frame.Base.{ℕ, suc, ◌+◌, ◌-◌, ◌<◌, Bool, true, false, ◌&&◌, ◌==◌, if◌then◌else◌}

-- `use_count` and `weak_count`, and how often the object and the count have been deleted.
pub record Shared : Type 0 where
  pub use_count : ℕ
  pub weak_count : ℕ
  pub deletes : ℕ
  pub destroys : ℕ

-- `shared_ptr(T* p)`
abbrev pub owned : Shared
owned = record { use_count = 1; weak_count = 0; deletes = 0; destroys = 0 }

pub add_shared_ref : Shared → Shared
add_shared_ref s = record s { use_count = s.use_count + 1 }

pub sub_shared_ref : Shared → Shared
sub_shared_ref s =
    if (s.use_count - 1 == 0) && (s.weak_count == 0)
    then record s { use_count = s.use_count - 1; destroys = suc s.destroys }
    else record s { use_count = s.use_count - 1 }

pub add_weak_ref : Shared → Shared
add_weak_ref s = record s { weak_count = s.weak_count + 1 }

pub sub_weak_ref : Shared → Shared
sub_weak_ref s =
    if (s.weak_count - 1 == 0) && (s.use_count == 0)
    then record s { weak_count = s.weak_count - 1; destroys = suc s.destroys }
    else record s { weak_count = s.weak_count - 1 }

pub unique : Shared → Bool
unique s = s.use_count == 1

-- `~shared_ptr`
pub release_owner : Shared → Shared
release_owner s = sub_shared_ref (if unique s then record s { deletes = suc s.deletes } else s)

-- The assignment of an owner to another owner of the same object.
pub assign_owner : Shared → Shared
assign_owner s = add_shared_ref (release_owner s)

-- The assignment of an observer to another observer of the same object: the copy, the swap, and the
-- end of the copy.
pub assign_observer : Shared → Shared
assign_observer s = sub_weak_ref (add_weak_ref s)

pub expired : Shared → Bool
expired s = s.use_count == 0

-- `weak_ptr::lock`, by the constructor of a `shared_ptr` from a `weak_ptr`.
pub lock : Shared → Shared
lock s = add_shared_ref s

-- What can be done with the pointers that there are.
pub data Step (s : Shared) : Shared → Type 0 where
  copies : 0 < s.use_count → Step s (add_shared_ref s)
  drops : 0 < s.use_count → Step s (release_owner s)
  assigns : 1 < s.use_count → Step s (assign_owner s)
  observes : 0 < s.use_count → Step s (add_weak_ref s)
  copies_weak : 0 < s.weak_count → Step s (add_weak_ref s)
  drops_weak : 0 < s.weak_count → Step s (sub_weak_ref s)
  assigns_weak : 1 < s.weak_count → Step s (assign_observer s)
  locks : 0 < s.weak_count → 0 < s.use_count → Step s (lock s)

pub data Reach (s : Shared) : Shared → Type 0 where
  here : Reach s s
  next : {t u : Shared} → Reach s t → Step t u → Reach s u
