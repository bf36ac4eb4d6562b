-- ===== src/Modules/Store.antt =====
-- `serialize` and `unserialize` of src/module_manager.cpp together.
use qth_frame.Base.{
  ◌<◌, ◌^◌, Option, false, ==_iff, ℕ_discrete, if◌then◌else◌, ℕ, zero, suc, ◌+◌, ◌%◌, ◌≤◌, ◌≡◌,
  refl, sym, ap, ◌∙◌, none, some, List, [], ◌∷◌, ◌++◌, length, length-append, drop, ◌==◌, arith,
  Option-cases, inl, inr, All, subst, true,
}
use mathlib.Core.List.{append_assoc}
use qth_frame.Modules.{
  Module, Layout, IsLayout, Table, max_protocol_num, present, room, save_all, serialize, load_all,
  unserialize, or_zero,
}

present-absent : (n i : ℕ) (t : Table) → t i ≡ none → present (suc n) i t ≡ present n (i + 1) t
unfolding present
present-absent n i t e = rw (present, e) refl

present-there :
    (n i : ℕ) (t : Table) (m : Module)
    → t i ≡ some m
    → present (suc n) i t ≡ (i, m) ∷ present n (i + 1) t
unfolding present
present-there n i t m e = rw (present, e) refl

present-le : (n i : ℕ) (t : Table) → length (present n i t) ≤ n
unfolding present
present-le zero i t = omega arith
present-le (suc n) i t = elim (Option-cases (t i)) [
  | inl e ↦ omega (arith, ap length (present-absent n i t e), present-le n (i + 1) t)
  | inr (m, e) ↦ omega (arith, ap length (present-there n i t m e), present-le n (i + 1) t)
]

-- Each entry is of the table, with a number of the array.
abbrev IsEntry : Table → ℕ × Module → Type 0
IsEntry t e = (t e.0 ≡ some e.1) × (e.0 < 255)

present-IsEntry : (n i : ℕ) (t : Table) → n + i ≤ 255 → All (IsEntry t) (present n i t)
unfolding present
present-IsEntry zero i t h = tt
present-IsEntry (suc n) i t h = elim (Option-cases (t i)) [
  | inl e ↦
      subst (All (IsEntry t)) (sym (present-absent n i t e))
        (present-IsEntry n (i + 1) t (omega arith))
  | inr (m, e) ↦
      subst (All (IsEntry t)) (sym (present-there n i t m e))
        ((e, omega arith), present-IsEntry n (i + 1) t (omega arith))
]

-- How often the number is among the entries.
abbrev pub times_in : {A : Type 0} → ℕ → List (ℕ × A) → ℕ
times_in i [] = 0
times_in i ((j, a) ∷ es) = (if j == i then 1 else 0) + times_in i es

-- One for a module, zero for none.
abbrev pub held : Option Module → ℕ
held none = 0
held (some m) = 1

times_in-before : (n j i : ℕ) (t : Table) → i < j → times_in i (present n j t) ≡ 0
unfolding present
times_in-before zero j i t h = refl
times_in-before (suc n) j i t h = elim (Option-cases (t j)) [
  | inl e ↦ ap (times_in i) (present-absent n j t e) ∙ times_in-before n (j + 1) i t (omega arith)
  | inr (m, e) ↦
      let ne : (j == i) ≡ false = ground arith in
      ap (times_in i) (present-there n j t m e)
      ∙ rw ne (omega (arith, times_in-before n (j + 1) i t (omega arith)))
]

times_in-present :
    (n j i : ℕ) (t : Table) → j ≤ i → i < j + n → times_in i (present n j t) ≡ held (t i)
times_in-present zero j i t h k = absurd (omega arith)
times_in-present (suc n) j i t h k = elim (ℕ_discrete j i) [
  | yes q ↦ elim (Option-cases (t j)) [
    | inl e ↦
        ap (times_in i) (present-absent n j t e)
        ∙ times_in-before n (j + 1) i t (omega arith)
        ∙ sym (ap held (ap t (sym q) ∙ e))
    | inr (m, e) ↦
        let same : (j == i) ≡ true = (==_iff j i).1 q in
        ap (times_in i) (present-there n j t m e)
        ∙ rw same (ap (λ (r : ℕ). 1 + r) (times_in-before n (j + 1) i t (omega arith)))
        ∙ sym (ap held (ap t (sym q) ∙ e))
  ]
  | no q ↦ elim (Option-cases (t j)) [
    | inl e ↦
        ap (times_in i) (present-absent n j t e)
        ∙ times_in-present n (j + 1) i t (omega arith) (omega arith)
    | inr (m, e) ↦
        let ne : (j == i) ≡ false = ground arith in
        ap (times_in i) (present-there n j t m e)
        ∙ rw ne (omega (arith, times_in-present n (j + 1) i t (omega arith) (omega arith)))
  ]
]

drop-append : (xs ys : List ℕ) (n : ℕ) → n ≡ length xs → drop n (xs ++ ys) ≡ ys
drop-append [] ys n e = rw e refl
drop-append (x ∷ xs) ys n e = rw e (drop-append xs ys (length xs) refl)

-- Every module writes fewer than 2 ^ 64 bytes and, given what `unserialize` gives it, which is a head
-- and its data with anything behind, answers the size of its data.
abbrev pub Reads : Layout → Table → Type 0
Reads y t =
    (i : ℕ) (m : Module)
    → t i ≡ some m
    → (len r : ℕ) (rest : List ℕ)
    → (length (m.save len) < 2 ^ 64)
      × (m.load (y.head i (length (m.save len)) ++ (m.save len ++ rest)) r ≡ length (m.save len))

-- One more call before those of the rest.
abbrev called : ℕ × List ℕ → Option ℕ × List (ℕ × List ℕ) → Option ℕ × List (ℕ × List ℕ)
called c r = (r.0, c ∷ r.1)

load_all-there :
    (y : Layout) (n i : ℕ) (t : Table) (bytes rest : List ℕ) (len total size : ℕ) (m : Module)
    → y.id_of bytes ≡ i
    → t i ≡ some m
    → y.size_of bytes ≡ size
    → m.load bytes (room y len total) ≡ size
    → drop (y.head_size + size) bytes ≡ rest
    → load_all y (suc n) t bytes len total
      ≡ called (i, bytes) (load_all y n t rest len (total + (y.head_size + size)))
unfolding load_all
load_all-there y n i t bytes rest len total size m d e f g h =
    let q : (m.load bytes (room y len total) == y.size_of bytes) ≡ true = ground arith in
    let w : t (y.id_of bytes) ≡ some m = ap t d ∙ e in
    rw (load_all, w, q)
      (ap
          (λ s.
            called (y.id_of bytes, bytes)
              (load_all y n t (drop (y.head_size + s) bytes) len (total + (y.head_size + s))))
          f
        ∙ ap
            (λ r.
              called (y.id_of bytes, bytes) (load_all y n t r len (total + (y.head_size + size))))
            h
        ∙ ap (λ k. called (k, bytes) (load_all y n t rest len (total + (y.head_size + size)))) d)

module _ (y : Layout) (v : IsLayout y) where
  save_all-length :
      (ms : List (ℕ × Module)) (len total : ℕ)
      → (save_all y ms len total).1 ≡ total + length (save_all y ms len total).0
  unfolding save_all
  save_all-length [] len total = omega arith
  save_all-length ((i, m) ∷ ms) len total =
      let d : List ℕ = m.save (room y len total) in
      let total' : ℕ = total + (y.head_size + length d) in
      let bytes : List ℕ = (save_all y ms len total').0 in
      omega (
        arith,
        length-append (y.head i (length d)) (d ++ bytes),
        length-append d bytes,
        v.sized i (length d),
        save_all-length ms len total',
      )

  -- The size that `serialize` answers is the number of bytes that it writes, for a layout whose
  -- heads have one size.
  pub serialize-length :
      (t : Table) (len : ℕ) → (serialize y t len).1 ≡ length (serialize y t len).0
  unfolding serialize
  serialize-length t len = omega (arith, save_all-length (present max_protocol_num 0 t) len 1)

-- The calls that reading what the modules write leads to.
abbrev trace : Layout → List (ℕ × Module) → ℕ → ℕ → List (ℕ × List ℕ)
trace y [] len total = []
trace y ((i, m) ∷ ms) len total =
    let d = m.save (room y len total) in
    let total' = total + (y.head_size + length d) in
    (i, y.head i (length d) ++ (d ++ (save_all y ms len total').0)) ∷ trace y ms len total'

times_in-trace :
    (y : Layout) (i : ℕ) (ms : List (ℕ × Module)) (len total : ℕ)
    → times_in i (trace y ms len total) ≡ times_in i ms
times_in-trace y i [] len total = refl
times_in-trace y i ((j, m) ∷ ms) len total =
    ap (λ (r : ℕ). (if j == i then 1 else 0) + r) (times_in-trace y i ms len _)

-- The module of the number is given a head with its number and the size of its data, and behind that
-- its data, as it wrote them for some room, with more behind.
abbrev pub IsGiven : Layout → Table → ℕ × List ℕ → Type 0
IsGiven y t c =
    (m : Module) × (k : ℕ) × (rest : List ℕ) × (c.0 < 255)
    × (t c.0 ≡ some m)
    × (c.1 ≡ y.head c.0 (length (m.save k)) ++ (m.save k ++ rest))

trace-IsGiven :
    (y : Layout) (t : Table) (ms : List (ℕ × Module)) (len total : ℕ)
    → All (IsEntry t) ms
    → All (IsGiven y t) (trace y ms len total)
trace-IsGiven y t [] len total a = tt
trace-IsGiven y t ((i, m) ∷ ms) len total (a, b) =
    ((m, room y len total, _, a.1, a.0, refl), trace-IsGiven y t ms len _ b)

-- Every module of the table has been called exactly once and with its data, and nothing else has.
pub record IsRestored (y : Layout) (t : Table) (calls : List (ℕ × List ℕ)) : Type 0 where
  pub once : (i : ℕ) → i < 255 → times_in i calls ≡ held (t i)
  pub given : All (IsGiven y t) calls

module _ (y : Layout) (v : IsLayout y) (t : Table) (reads : Reads y t) where
  load_one :
      (n i len total k : ℕ) (m : Module) (rest : List ℕ)
      → t i ≡ some m
      → i < 256
      → load_all y (suc n) t (y.head i (length (m.save k)) ++ (m.save k ++ rest)) len total
        ≡ called
            (i, y.head i (length (m.save k)) ++ (m.save k ++ rest))
            (load_all y n t rest len (total + (y.head_size + length (m.save k))))
  load_one n i len total k m rest e b =
      let s : ℕ = length (m.save k) in
      let bytes : List ℕ = y.head i s ++ (m.save k ++ rest) in
      let (fits, read) = reads i m e k (room y len total) rest in
      load_all-there y n i t bytes rest len total s m (v.id_of-head i s (m.save k ++ rest) b fits) e
        (v.size_of-head i s (m.save k ++ rest) b fits) read
        (ap (drop (y.head_size + s)) (sym (append_assoc (y.head i s) (m.save k) rest))
          ∙ drop-append (y.head i s ++ m.save k) rest (y.head_size + s)
              (omega (arith, length-append (y.head i s) (m.save k), v.sized i s)))

  load_saved :
      (ms : List (ℕ × Module)) (len len' total : ℕ)
      → All (IsEntry t) ms
      → load_all y (length ms) t (save_all y ms len total).0 len' total
        ≡ (some (save_all y ms len total).1, trace y ms len total)
  unfolding load_all save_all
  load_saved [] len len' total a = refl
  load_saved ((i, m) ∷ ms) len len' total (a, b) =
      let k : ℕ = room y len total in
      let total' : ℕ = total + (y.head_size + length (m.save k)) in
      let rest : List ℕ = (save_all y ms len total').0 in
      load_one (length ms) i len' total k m rest a.0 (omega (arith, a.1))
      ∙ ap (called (i, y.head i (length (m.save k)) ++ (m.save k ++ rest)))
          (load_saved ms len len' total' b)

  unserialize-some :
      (b : ℕ) (bytes : List ℕ) (len n : ℕ) (calls : List (ℕ × List ℕ))
      → load_all y b t bytes len 1 ≡ (some n, calls)
      → unserialize y t (b ∷ bytes) len ≡ (n, calls)
  unfolding unserialize
  unserialize-some b bytes len n calls e =
      ap (λ (r : Option ℕ × List (ℕ × List ℕ)). (or_zero r.0, r.1)) e

  serialize-trace :
      (len len' : ℕ)
      → unserialize y t (serialize y t len).0 len'
        ≡ ((serialize y t len).1, trace y (present max_protocol_num 0 t) len 1)
  unfolding serialize
  serialize-trace len len' =
      let ms : List (ℕ × Module) = present max_protocol_num 0 t in
      let q : length ms % 256 ≡ length ms = omega (arith, present-le max_protocol_num 0 t) in
      unserialize-some (length ms % 256) (save_all y ms len 1).0 len' (save_all y ms len 1).1
        (trace y ms len 1)
        (ap (λ b. load_all y b t (save_all y ms len 1).0 len' 1) q
          ∙ load_saved ms len len' 1 (present-IsEntry max_protocol_num 0 t (omega arith)))

  trace-IsRestored : (len : ℕ) → IsRestored y t (trace y (present max_protocol_num 0 t) len 1)
  trace-IsRestored len = record {
    once = λ i h.
        times_in-trace y i (present max_protocol_num 0 t) len 1
        ∙ times_in-present max_protocol_num 0 i t (omega arith) (omega arith);
    given =
        trace-IsGiven y t (present max_protocol_num 0 t) len 1
          (present-IsEntry max_protocol_num 0 t (omega arith));
  }

  -- For a table of modules each of which writes fewer than 2 ^ 64 bytes and, given what
  -- `unserialize` gives it, which is the head and its data with anything behind, answers the size
  -- of its data, and in a layout of the head whose fields are read as they were written where they
  -- fit: `unserialize` of what `serialize` writes calls every module of the table exactly once and
  -- no other, each with its head and behind that the data that it wrote, and answers the size that
  -- `serialize` counted, which is the number of bytes that it wrote.
  pub unserialize-serialize :
      (len len' : ℕ)
      → ((unserialize y t (serialize y t len).0 len').0 ≡ (serialize y t len).1)
        × ((serialize y t len).1 ≡ length (serialize y t len).0)
        × IsRestored y t (unserialize y t (serialize y t len).0 len').1
  unserialize-serialize len len' =
      let e = serialize-trace len len' in
      (
        ap (λ (r : ℕ × List (ℕ × List ℕ)). r.0) e,
        serialize-length y v t len,
        subst (λ (r : ℕ × List (ℕ × List ℕ)). IsRestored y t r.1) (sym e) (trace-IsRestored len),
      )
