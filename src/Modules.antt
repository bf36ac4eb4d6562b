-- ===== src/Modules.antt =====
-- The storing of modules by `ModuleManager` (src/module_manager.cpp, include/frame/module_manager.h).
-- A module is code of the framework's user; here it is what its `serialize` writes into a room of a
-- given size, and how many of the bytes that it is given its `unserialize` says that it has read.
pub mod Store
pub mod Manager
mod Tests
use qth_frame.Base.{
  ℕ, zero, suc, ◌+◌, ◌-◌, ◌%◌, ◌^◌, ◌≡◌, ◌<◌, Option, none, some, List, [], ◌∷◌, ◌++◌, length, drop,
  ◌==◌, if◌then◌else◌,
}

pub record Module : Type 0 where
  pub save : ℕ → List ℕ
  pub load : List ℕ → ℕ → ℕ

-- How the compiler lays out a `SerailizeHead`: its bytes, and the fields read from bytes.
pub record Layout : Type 0 where
  pub head_size : ℕ
  pub head : ℕ → ℕ → List ℕ
  pub id_of : List ℕ → ℕ
  pub size_of : List ℕ → ℕ

-- Fields that are read from the bytes of a head are those that were written, where they fit into a
-- byte and into 8 bytes.
pub record IsLayout (y : Layout) : Type 0 where
  pub sized : (i n : ℕ) → length (y.head i n) ≡ y.head_size
  pub id_of-head :
      (i n : ℕ) (rest : List ℕ) → i < 256 → n < 2 ^ 64 → y.id_of (y.head i n ++ rest) ≡ i
  pub size_of-head :
      (i n : ℕ) (rest : List ℕ) → i < 256 → n < 2 ^ 64 → y.size_of (y.head i n ++ rest) ≡ n

-- `m_modules`
abbrev pub Table : Type 0
Table = ℕ → Option Module

-- `QTH_MAX_PROTOCOL_NUM`
abbrev pub max_protocol_num : ℕ
max_protocol_num = 255

-- The modules of `n` numbers from `i` on.
pub present : ℕ → ℕ → Table → List (ℕ × Module)
present zero i t = []
present (suc n) i t =
    let later = present n (i + 1) t in elim (t i) [ none ↦ later | some m ↦ (i, m) ∷ later ]

-- `return 0`, or the size.
abbrev pub or_zero : Option ℕ → ℕ
or_zero none = 0
or_zero (some n) = n

module _ (y : Layout) where
  -- `len - total_size - sizeof(SerailizeHead)`, for a `size_t`.
  abbrev pub room : ℕ → ℕ → ℕ
  room len total = (len + 2 ^ 64 - (total + y.head_size) % 2 ^ 64) % 2 ^ 64

  -- The second loop of `serialize`: what it writes, and the size that it counts.
  pub save_all : List (ℕ × Module) → ℕ → ℕ → List ℕ × ℕ
  save_all [] len total = ([], total)
  save_all ((i, m) ∷ ms) len total =
      let data' = m.save (room len total) in
      let (bytes, size) = save_all ms len (total + (y.head_size + length data')) in
      (y.head i (length data') ++ (data' ++ bytes), size)

  pub serialize : Table → ℕ → List ℕ × ℕ
  serialize t len =
      let ms = present max_protocol_num 0 t in
      let (bytes, size) = save_all ms len 1 in (length ms % 256 ∷ bytes, size)

  -- The loop of `unserialize` with `n` modules left: its answer, where none is its `return 0`, and the
  -- modules whose `unserialize` it calls, with the bytes that they are given.
  pub load_all : ℕ → Table → List ℕ → ℕ → ℕ → Option ℕ × List (ℕ × List ℕ)
  load_all zero t bytes len total = (some total, [])
  load_all (suc n) t bytes len total =
      let id = y.id_of bytes in
      let size = y.size_of bytes in
      let later =
        load_all n t (drop (y.head_size + size) bytes) len (total + (y.head_size + size)) in
      elim (t id) [
        | none ↦ later
        | some m ↦
            if m.load bytes (room len total) == size
            then (later.0, (id, bytes) ∷ later.1)
            else (none, (id, bytes) ∷ [])
      ]

  -- The answer for no bytes stands for a read out of range, which the assertion on `len` excludes.
  pub unserialize : Table → List ℕ → ℕ → ℕ × List (ℕ × List ℕ)
  unserialize t [] len = (0, [])
  unserialize t (b ∷ bytes) len =
      let (answer, calls) = load_all b t bytes len 1 in (or_zero answer, calls)
