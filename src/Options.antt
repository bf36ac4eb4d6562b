-- ===== src/Options.antt =====
-- `str_split` (src/uitility.cpp) and `class CmdParse` (src/property.cpp, include/common/property.h).
-- A character is a number and a string a list of them. `std::string::npos` is none.
pub mod Split
pub mod Parse
pub mod Print
mod Tests
use qth_frame.Base.{
  ℕ, zero, suc, ◌+◌, ◌-◌, Bool, true, false, ◌&&◌, ◌||◌, not, Option, none, some, List, [], ◌∷◌,
  ◌++◌, length, take, drop, ◌==◌, if◌then◌else◌,
}

abbrev pub Str : Type 0
Str = List ℕ

-- The first `d` in `s`, whose first character is the one at `pos`.
abbrev pub find_in : ℕ → ℕ → Str → Option ℕ
find_in d pos [] = none
find_in d pos (c ∷ s) = if c == d then some pos else find_in d (pos + 1) s

-- `in.find(delimiter, pos)`
abbrev pub find : Str → ℕ → ℕ → Option ℕ
find s d pos = find_in d pos (drop pos s)

-- The loop from `pos` on; none is a loop that has used up its fuel.
pub split_loop : ℕ → List Str → Str → ℕ → ℕ → Option (List Str)
split_loop zero vec s d pos = none
split_loop (suc n) vec s d pos = elim (find s d pos) [
  | some lpos ↦ split_loop n (vec ++ take (lpos - pos) (drop pos s) ∷ []) s d (lpos + 1)
  | none ↦ some (vec ++ drop pos s ∷ [])
]

pub str_split : List Str → Str → ℕ → Option (List Str)
str_split vec s d = split_loop (length s + 1) vec s d 0

-- A split into a new vector, empty if the loop had run out of fuel.
pub split : Str → ℕ → List Str
split s d = elim (str_split [] s d) [ none ↦ [] | some v ↦ v ]

abbrev pub same : Str → Str → Bool
same [] [] = true
same [] (c ∷ s) = false
same (c ∷ s) [] = false
same (c ∷ s) (d ∷ t) = (c == d) && same s t

-- The map of a `CmdParse`: its pairs in the order of their insertion, which `boost` does not keep.
abbrev pub Map : Type 0
Map = List (Str × Str)

-- `m_kvMap->find(key)`
abbrev pub lookup : Str → Map → Option Str
lookup k [] = none
lookup k ((j, v) ∷ m) = if same j k then some v else lookup k m

-- `m_kvMap->insert(...)`, which leaves a key that is there as it is.
abbrev pub insert : Str → Str → Map → Map
insert k v m = elim (lookup k m) [ none ↦ m ++ (k, v) ∷ [] | some w ↦ m ]

abbrev pub is_empty : {A : Type 0} → List A → Bool
is_empty [] = true
is_empty (x ∷ xs) = false

abbrev pub space : ℕ
space = 32

abbrev pub equals : ℕ
equals = 61

-- The pair of a token that is split at '=', unless the loop of `parse` skips it.
abbrev pub pair_of : List Str → Option (Str × Str)
pair_of [] = none
pair_of (k ∷ []) = none
pair_of (k ∷ v ∷ []) = if is_empty k || is_empty v then none else some (k, v)
pair_of (k ∷ v ∷ w ∷ ws) = none

abbrev pub insert_pair : Option (Str × Str) → Map → Map
insert_pair none m = m
insert_pair (some (k, v)) m = insert k v m

pub insert_all : List Str → Map → Map
insert_all [] m = m
insert_all (t ∷ ts) m = insert_all ts (insert_pair (pair_of (split t equals)) m)

-- The answer, and the map, which is cleared at the start.
pub parse : Str → Bool × Map
parse s =
    let pairs = split s space in
    let m = insert_all pairs [] in if is_empty pairs then (false, []) else (not (is_empty m), m)

pub check : Str → Map → Bool
check k m = elim (lookup k m) [ none ↦ false | some v ↦ true ]

-- `operator[]`: the value, and the map, which a missing key is added to.
pub index : Str → Map → Str × Map
index k m = elim (lookup k m) [ none ↦ ([], m ++ (k, []) ∷ []) | some v ↦ (v, m) ]

-- The loop of `reverse`, over the pairs in the order of the iterator.
pub print_all : Map → Str
print_all [] = []
print_all ((k, v) ∷ m) = (k ++ equals ∷ v ++ space ∷ []) ++ print_all m

-- `strReverse.substr(0, strReverse.size() - 1)`, where the size 0 leads to `npos`.
pub reverse : Map → Str
reverse m = take (length (print_all m) - 1) (print_all m)
