-- ===== src/Options/Parse.antt =====
-- `CmdParse::parse` and the reads of its map (src/property.cpp).
use qth_frame.Base.{
  ◌≡◌, refl, sym, ap, ◌∙◌, ◌≢◌, subst, Bool, true, false, ◌||◌, not, Option, none, some, List, [],
  ◌∷◌, ◌++◌, ◌==◌, if◌then◌else◌, Bool-cases, Option-cases, inl, inr, ==_iff,
}
use qth_frame.Options.{
  Str, split, same, Map, lookup, insert, is_empty, space, equals, pair_of, insert_pair, insert_all,
  parse, check, index,
}
use qth_frame.Options.Split.{pieces, split-pieces, pieces-ne}

same-eq : (s t : Str) → same s t ≡ true → s ≡ t
same-eq [] [] e = refl
same-eq [] (c ∷ t) e = cc
same-eq (c ∷ s) [] e = cc
same-eq (c ∷ s) (d ∷ t) e = elim (Bool-cases (c == d)) [
  | inl a ↦ elim (Bool-cases (same s t)) [
    | inl b ↦ ap (λ k. k ∷ s) ((==_iff c d).0 a) ∙ ap (λ u. d ∷ u) (same-eq s t b)
    | inr b ↦ cc (a, b)
  ]
  | inr a ↦ cc (a)
]

abbrev pub is_some : Option Str → Bool
is_some none = false
is_some (some v) = true

-- The first of two answers that there is.
abbrev pub or_else : Option Str → Option Str → Option Str
or_else none o = o
or_else (some v) o = some v

pub lookup-append :
    (k j v : Str) (m : Map)
    → lookup k (m ++ (j, v) ∷ []) ≡ or_else (lookup k m) (if same j k then some v else none)
lookup-append k j v [] = refl
lookup-append k j v ((i, w) ∷ m) = elim (Bool-cases (same i k)) [
  | inl e ↦ rw e refl
  | inr e ↦ rw e (lookup-append k j v m)
]

or_else-none : (o : Option Str) → or_else o none ≡ o
or_else-none none = refl
or_else-none (some v) = refl

or_else_assoc : (a b c : Option Str) → or_else (or_else a b) c ≡ or_else a (or_else b c)
or_else_assoc none b c = refl
or_else_assoc (some v) b c = refl

pub insert_new : (j v : Str) (m : Map) → lookup j m ≡ none → insert j v m ≡ m ++ (j, v) ∷ []
insert_new j v m e = rw (insert, e) refl

insert_old : (j v w : Str) (m : Map) → lookup j m ≡ some w → insert j v m ≡ m
insert_old j v w m e = rw (insert, e) refl

lookup-kept :
    (k j v w : Str) (m : Map)
    → lookup j m ≡ some w
    → lookup k m ≡ or_else (lookup k m) (if same j k then some v else none)
lookup-kept k j v w m e = elim (Bool-cases (same j k)) [
  | inl q ↦
      let f : lookup k m ≡ some w = subst (λ i. lookup i m ≡ some w) (same-eq j k q) e in rw f refl
  | inr q ↦ rw q (sym (or_else-none (lookup k m)))
]

lookup-insert :
    (k j v : Str) (m : Map)
    → lookup k (insert j v m) ≡ or_else (lookup k m) (if same j k then some v else none)
lookup-insert k j v m = elim (Option-cases (lookup j m)) [
  | inl e ↦ ap (lookup k) (insert_new j v m e) ∙ lookup-append k j v m
  | inr (w, e) ↦ ap (lookup k) (insert_old j v w m e) ∙ lookup-kept k j v w m e
]

-- The value that the pair gives to `k`.
abbrev pub value_in : Str → Option (Str × Str) → Option Str
value_in k none = none
value_in k (some (j, v)) = if same j k then some v else none

-- The value that two pieces, neither of them empty, give to `k`.
abbrev pub value_of : Str → List Str → Option Str
value_of k [] = none
value_of k (j ∷ []) = none
value_of k ([] ∷ v ∷ ws) = none
value_of k ((c ∷ j) ∷ [] ∷ ws) = none
value_of k ((c ∷ j) ∷ (d ∷ v) ∷ []) = if same (c ∷ j) k then some (d ∷ v) else none
value_of k ((c ∷ j) ∷ (d ∷ v) ∷ w ∷ ws) = none

value_in-pair_of : (k : Str) (ps : List Str) → value_in k (pair_of ps) ≡ value_of k ps
value_in-pair_of k [] = refl
value_in-pair_of k (j ∷ []) = refl
value_in-pair_of k ([] ∷ v ∷ []) = refl
value_in-pair_of k ([] ∷ v ∷ w ∷ ws) = refl
value_in-pair_of k ((c ∷ j) ∷ [] ∷ []) = refl
value_in-pair_of k ((c ∷ j) ∷ [] ∷ w ∷ ws) = refl
value_in-pair_of k ((c ∷ j) ∷ (d ∷ v) ∷ []) = refl
value_in-pair_of k ((c ∷ j) ∷ (d ∷ v) ∷ w ∷ ws) = refl

-- The first value that a token gives to `k`.
abbrev pub first_value : Str → List Str → Option Str
first_value k [] = none
first_value k (t ∷ ts) = or_else (value_of k (pieces equals t)) (first_value k ts)

lookup-insert_pair :
    (k : Str) (o : Option (Str × Str)) (m : Map)
    → lookup k (insert_pair o m) ≡ or_else (lookup k m) (value_in k o)
lookup-insert_pair k none m = sym (or_else-none (lookup k m))
lookup-insert_pair k (some (j, v)) m = lookup-insert k j v m

lookup-insert_all :
    (k : Str) (ts : List Str) (m : Map)
    → lookup k (insert_all ts m) ≡ or_else (lookup k m) (first_value k ts)
unfolding insert_all
lookup-insert_all k [] m = sym (or_else-none (lookup k m))
lookup-insert_all k (t ∷ ts) m =
    lookup-insert_all k ts (insert_pair (pair_of (split t equals)) m)
    ∙ ap (λ o. or_else o (first_value k ts))
        (lookup-insert_pair k (pair_of (split t equals)) m
          ∙ ap (λ ps. or_else (lookup k m) (value_in k (pair_of ps))) (split-pieces t equals)
          ∙ ap (or_else (lookup k m)) (value_in-pair_of k (pieces equals t)))
    ∙ or_else_assoc (lookup k m) (value_of k (pieces equals t)) (first_value k ts)

is_empty-false : {A : Type 0} (xs : List A) → xs ≢ [] → is_empty xs ≡ false
is_empty-false [] h = absurd (h refl)
is_empty-false (x ∷ xs) h = refl

pub parse-insert_all :
    (s : Str)
    → parse s ≡ (not (is_empty (insert_all (pieces space s) [])), insert_all (pieces space s) [])
unfolding parse
parse-insert_all s =
    rw (split-pieces s space) (rw (is_empty-false (pieces space s) (pieces-ne space s)) refl)

-- After `parse`, every key has the value of the first of the pieces between spaces that are split
-- at '=' to the key and a value, neither of them empty, and no value if there is no such piece.
pub parse-lookup : (s k : Str) → lookup k (parse s).1 ≡ first_value k (pieces space s)
parse-lookup s k =
    ap (λ (r : Bool × Map). lookup k r.1) (parse-insert_all s)
    ∙ lookup-insert_all k (pieces space s) []

index-insert : (k : Str) (m : Map) → (index k m).1 ≡ insert k [] m
unfolding index
index-insert k m = elim (Option-cases (lookup k m)) [
  | inl e ↦ rw (index, e) (sym (insert_new k [] m e))
  | inr (w, e) ↦ rw (index, e) (sym (insert_old k [] w m e))
]

check-lookup : (k : Str) (m : Map) (o : Option Str) → lookup k m ≡ o → check k m ≡ is_some o
unfolding check
check-lookup k m none e = rw (check, e) refl
check-lookup k m (some v) e = rw (check, e) refl

is_some-or_else :
    (o : Option Str) (b : Bool) (v : Str)
    → is_some (or_else o (if b then some v else none)) ≡ (is_some o || b)
is_some-or_else none false v = refl
is_some-or_else none true v = refl
is_some-or_else (some w) b v = refl

-- After `operator[]` with a key, `check` answers true for that key and, for other keys, what it
-- answered before.
pub check-index : (j k : Str) (m : Map) → check j (index k m).1 ≡ (check j m || same k j)
check-index j k m =
    check-lookup j (index k m).1 _ (ap (lookup j) (index-insert k m) ∙ lookup-insert j k [] m)
    ∙ is_some-or_else (lookup j m) (same k j) []
    ∙ ap (λ b. b || same k j) (sym (check-lookup j m (lookup j m) refl))
