-- ===== src/Manager.antt =====
-- `class CProcessorMgr` (src/processor_mgr.cpp, include/utility/processor_mgr.h): processors shared by
-- name, with a count of their users. A name is a number, and so is a processor; a processor that is
-- freed is stopped, its thread joined, and deleted.
pub mod Count
mod Tests
use qth_frame.Base.{
  ℕ, zero, suc, ◌+◌, ◌-◌, Bool, true, false, Option, none, some, List, [], ◌∷◌, ◌++◌, ◌==◌,
  if◌then◌else◌,
}

-- `SProcInfo`
pub record Info : Type 0 where
  pub processor : ℕ
  pub ref_count : ℕ

-- `m_mapProcessors`; the processors that were made, and those that were deleted, in order.
pub record Manager : Type 0 where
  pub table : ℕ → Option Info
  pub fresh : ℕ
  pub deleted : List ℕ

abbrev pub no_processors : Manager
no_processors = record { table = λ k. none; fresh = 0; deleted = [] }

abbrev pub put : (ℕ → Option Info) → ℕ → Option Info → ℕ → Option Info
put f k v j = if k == j then v else f j

-- The processor, which is new if the name has none.
pub alloc_processor : ℕ → Manager → ℕ × Manager
alloc_processor k m = elim (m.table k) [
  | some i ↦ (
    i.processor,
    record m { table = put m.table k (some (record i { ref_count = i.ref_count + 1 })) },
  )
  | none ↦ (
    m.fresh,
    record m {
      table = put m.table k (some (record { processor = m.fresh; ref_count = 1 }));
      fresh = suc m.fresh;
    },
  )
]

-- `FreeProcessor`, by the name or by a processor, which has its name.
pub free_processor : ℕ → Manager → Manager
free_processor k m = elim (m.table k) [
  | none ↦ m
  | some i ↦
      if i.ref_count - 1 == 0
      then record m { table = put m.table k none; deleted = m.deleted ++ i.processor ∷ [] }
      else record m { table = put m.table k (some (record i { ref_count = i.ref_count - 1 })) }
]

-- A call of a user.
pub data Call : Type 0 where
  allocs frees : ℕ → Call

pub serve : List Call → Manager → Manager
serve [] m = m
serve (allocs k ∷ cs) m = serve cs (alloc_processor k m).1
serve (frees k ∷ cs) m = serve cs (free_processor k m)
