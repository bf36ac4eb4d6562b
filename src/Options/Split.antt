-- ===== src/Options/Split.antt =====
-- `str_split` of src/uitility.cpp, against a split by recursion on the string.
use qth_frame.Base.{
  ℕ, zero, suc, ◌+◌, ◌-◌, ◌≤◌, ◌<◌, ◌≡◌, refl, sym, ap, ◌∙◌, ◌≢◌, true, false, Option, none, some,
  List, [], ◌∷◌, ◌++◌, arith, length, take, drop, ◌==◌, if◌then◌else◌, Bool-cases, inl, inr, ==_iff,
  All,
}
use mathlib.Core.List.{append_assoc}
use qth_frame.Options.{Str, find_in, find, split_loop, str_split, split}

-- `c` in front of the first piece.
abbrev pub onto_first : ℕ → List Str → List Str
onto_first c [] = (c ∷ []) ∷ []
onto_first c (p ∷ ps) = (c ∷ p) ∷ ps

-- What a split should be, by recursion on the string.
abbrev pub pieces : ℕ → Str → List Str
pieces d [] = [] ∷ []
pieces d (c ∷ s) = if c == d then [] ∷ pieces d s else onto_first c (pieces d s)

-- The pieces with a delimiter between any two.
abbrev pub join : ℕ → List Str → Str
join d [] = []
join d (p ∷ []) = p
join d (p ∷ q ∷ ps) = p ++ d ∷ join d (q ∷ ps)

-- The first cut of `r`, whose first character is at `pos`.
abbrev Cuts : ℕ → ℕ → Str → Option ℕ → Type 0
Cuts d pos r none = pieces d r ≡ r ∷ []
Cuts d pos r (some l) =
    (pos ≤ l)
    × (l - pos < length r)
    × (pieces d r ≡ take (l - pos) r ∷ pieces d (drop (suc (l - pos)) r))

Cuts-cons :
    (d pos c : ℕ) (r : Str) (o : Option ℕ)
    → (c == d) ≡ false
    → Cuts d (pos + 1) r o
    → Cuts d pos (c ∷ r) o
Cuts-cons d pos c r none e h = rw (e, h) refl
Cuts-cons d pos c r (some l) e h =
    let k : l - pos ≡ suc (l - (pos + 1)) = omega (arith, h.0) in
    (omega (arith, h.0), omega (arith, h.0, h.1), rw (e, h.2, k) refl)

Cuts-here : (d pos c : ℕ) (r : Str) → (c == d) ≡ true → Cuts d pos (c ∷ r) (some pos)
Cuts-here d pos c r e =
    let k : pos - pos ≡ 0 = omega arith in (omega arith, omega arith, rw (e, k) refl)

find_in-Cuts : (d pos : ℕ) (r : Str) → Cuts d pos r (find_in d pos r)
find_in-Cuts d pos [] = refl
find_in-Cuts d pos (c ∷ r) = elim (Bool-cases (c == d)) [
  | inl e ↦ rw e (Cuts-here d pos c r e)
  | inr e ↦ rw e (Cuts-cons d pos c r (find_in d (pos + 1) r) e (find_in-Cuts d (pos + 1) r))
]

drop-nil : (n : ℕ) → drop {A = ℕ} n [] ≡ []
drop-nil zero = refl
drop-nil (suc n) = refl

drop-drop : (m n : ℕ) (s : Str) → drop m (drop n s) ≡ drop (n + m) s
drop-drop m zero s = ap (λ k. drop k s) (omega arith)
drop-drop m (suc n) [] = drop-nil m ∙ sym (drop-nil (suc n + m))
drop-drop m (suc n) (c ∷ s) =
    let e : suc n + m ≡ suc (n + m) = omega arith in rw e (drop-drop m n s)

length-drop : (n : ℕ) (s : Str) → length (drop n s) ≡ length s - n
length-drop zero s = omega arith
length-drop (suc n) [] = omega arith
length-drop (suc n) (c ∷ s) = omega (arith, length-drop n s)

-- What the loop does with the outcome of `find`.
abbrev split_at : ℕ → List Str → Str → ℕ → ℕ → Option ℕ → Option (List Str)
split_at n vec s d pos none = some (vec ++ drop pos s ∷ [])
split_at n vec s d pos (some lpos) =
    split_loop n (vec ++ take (lpos - pos) (drop pos s) ∷ []) s d (lpos + 1)

split_loop-suc :
    (n : ℕ) (vec : List Str) (s : Str) (d pos : ℕ)
    → split_loop (suc n) vec s d pos ≡ split_at n vec s d pos (find s d pos)
unfolding split_loop
split_loop-suc n vec s d pos = go (find s d pos)
  where
    go :
        (o : Option ℕ)
        → elim o as (λ x. Option (List Str)) [
          | some lpos ↦ split_loop n (vec ++ take (lpos - pos) (drop pos s) ∷ []) s d (lpos + 1)
          | none ↦ some (vec ++ drop pos s ∷ [])
        ]
          ≡ split_at n vec s d pos o
    go none = refl
    go (some l) = refl

-- One turn of the loop, given what the turns with less fuel come to.
split_at-pieces :
    (n : ℕ) (vec : List Str) (s : Str) (d pos : ℕ) (o : Option ℕ)
    → length (drop pos s) < suc n
    → Cuts d pos (drop pos s) o
    → ((w : List Str) (k : ℕ)
        → length (drop k s) < n
        → split_loop n w s d k ≡ some (w ++ pieces d (drop k s)))
    → split_at n vec s d pos o ≡ some (vec ++ pieces d (drop pos s))
split_at-pieces n vec s d pos none h c rest = rw c refl
split_at-pieces n vec s d pos (some l) h (a, b, c) rest =
    let r : Str = drop pos s in
    let k : drop (l + 1) s ≡ drop (suc (l - pos)) r =
      ap (λ j. drop j s) (omega arith) ∙ sym (drop-drop (suc (l - pos)) pos s) in
    rest (vec ++ take (l - pos) r ∷ []) (l + 1)
      (omega (arith, ap length k, length-drop (suc (l - pos)) r))
    ∙ ap some (
        append_assoc vec (take (l - pos) r ∷ []) (pieces d (drop (l + 1) s))
        ∙ ap (λ ps. vec ++ take (l - pos) r ∷ ps) (ap (pieces d) k)
        ∙ ap (λ ps. vec ++ ps) (sym c))

split_loop-pieces :
    (n : ℕ) (vec : List Str) (s : Str) (d pos : ℕ)
    → length (drop pos s) < n
    → split_loop n vec s d pos ≡ some (vec ++ pieces d (drop pos s))
split_loop-pieces zero vec s d pos h = absurd (omega arith)
split_loop-pieces (suc n) vec s d pos h =
    split_loop-suc n vec s d pos
    ∙ split_at-pieces n vec s d pos (find s d pos) h (find_in-Cuts d pos (drop pos s))
        (λ w k l. split_loop-pieces n w s d k l)

-- `str_split` ends, and adds the pieces to the vector.
pub str_split-pieces :
    (vec : List Str) (s : Str) (d : ℕ) → str_split vec s d ≡ some (vec ++ pieces d s)
unfolding str_split
str_split-pieces vec s d = split_loop-pieces (length s + 1) vec s d 0 (omega arith)

pub split-pieces : (s : Str) (d : ℕ) → split s d ≡ pieces d s
unfolding split
split-pieces s d = rw (split, str_split-pieces [] s d) refl

-- No character of `p` is `d`.
abbrev pub Free : ℕ → Str → Type 0
Free d p = All (λ c. c ≢ d) p

onto_first-Free :
    (d c : ℕ) (ps : List Str) → c ≢ d → All (Free d) ps → All (Free d) (onto_first c ps)
onto_first-Free d c [] h a = ((h, tt), tt)
onto_first-Free d c (p ∷ ps) h a = ((h, a.0), a.1)

pub pieces-Free : (d : ℕ) (s : Str) → All (Free d) (pieces d s)
pieces-Free d [] = (tt, tt)
pieces-Free d (c ∷ s) = elim (Bool-cases (c == d)) [
  | inl e ↦ rw e (tt, pieces-Free d s)
  | inr e ↦ rw e (onto_first-Free d c (pieces d s) (ground arith) (pieces-Free d s))
]

join-onto_first : (d c : ℕ) (ps : List Str) → ps ≢ [] → join d (onto_first c ps) ≡ c ∷ join d ps
join-onto_first d c [] h = absurd (h refl)
join-onto_first d c (p ∷ []) h = refl
join-onto_first d c (p ∷ q ∷ ps) h = refl

onto_first-ne : (c : ℕ) (ps : List Str) → onto_first c ps ≢ []
onto_first-ne c [] = cc
onto_first-ne c (p ∷ ps) = cc

pub pieces-ne : (d : ℕ) (s : Str) → pieces d s ≢ []
pieces-ne d [] = cc
pieces-ne d (c ∷ s) = elim (Bool-cases (c == d)) [
  | inl e ↦ rw e cc
  | inr e ↦ rw e (onto_first-ne c (pieces d s))
]

join-nil : (d : ℕ) (ps : List Str) → ps ≢ [] → join d ([] ∷ ps) ≡ d ∷ join d ps
join-nil d [] h = absurd (h refl)
join-nil d (p ∷ ps) h = refl

pub join-pieces : (d : ℕ) (s : Str) → join d (pieces d s) ≡ s
join-pieces d [] = refl
join-pieces d (c ∷ s) = elim (Bool-cases (c == d)) [
  | inl e ↦ rw e (
      join-nil d (pieces d s) (pieces-ne d s)
      ∙ ap (λ k. k ∷ join d (pieces d s)) (sym ((==_iff c d).0 e))
      ∙ ap (λ t. c ∷ t) (join-pieces d s))
  | inr e ↦
      rw e (join-onto_first d c (pieces d s) (pieces-ne d s) ∙ ap (λ t. c ∷ t) (join-pieces d s))
]

-- A split ends with pieces that have no delimiter and that, joined by it, are the string.
pub record IsSplit (d : ℕ) (s : Str) (r : Option (List Str)) : Type 0 where
  pub parts : List Str
  pub ends : r ≡ some parts
  pub free : All (Free d) parts
  pub joined : join d parts ≡ s

-- A split of any string at any character ends, with pieces that do not have the character and that,
-- joined by it, are the string.
pub str_split-IsSplit : (s : Str) (d : ℕ) → IsSplit d s (str_split [] s d)
str_split-IsSplit s d = record {
  parts = pieces d s;
  ends = str_split-pieces [] s d;
  free = pieces-Free d s;
  joined = join-pieces d s;
}

pub pieces-append : (d : ℕ) (p s : Str) → Free d p → pieces d (p ++ d ∷ s) ≡ p ∷ pieces d s
pieces-append d [] s h = let e : (d == d) ≡ true = ground arith in rw e refl
pieces-append d (c ∷ p) s h =
    let e : (c == d) ≡ false = ground (arith, h.0) in
    rw e (ap (onto_first c) (pieces-append d p s h.1))

pub pieces-whole : (d : ℕ) (p : Str) → Free d p → pieces d p ≡ p ∷ []
pieces-whole d [] h = refl
pieces-whole d (c ∷ p) h =
    let e : (c == d) ≡ false = ground (arith, h.0) in
    rw e (ap (onto_first c) (pieces-whole d p h.1))

-- Pieces with no delimiter come back from their join.
pub pieces-join :
    (d : ℕ) (p : Str) (ps : List Str) → All (Free d) (p ∷ ps) → pieces d (join d (p ∷ ps)) ≡ p ∷ ps
pieces-join d p [] h = pieces-whole d p h.0
pieces-join d p (q ∷ ps) h =
    pieces-append d p (join d (q ∷ ps)) h.0 ∙ ap (λ qs. p ∷ qs) (pieces-join d q ps h.1)

-- One or more pieces that do not have a character, joined by it, are split to these pieces again.
pub split-join :
    (d : ℕ) (p : Str) (ps : List Str)
    → All (Free d) (p ∷ ps)
    → str_split [] (join d (p ∷ ps)) d ≡ some (p ∷ ps)
split-join d p ps h = str_split-pieces [] (join d (p ∷ ps)) d ∙ ap some (pieces-join d p ps h)
