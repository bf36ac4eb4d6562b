-- ===== src/Options/Print.antt =====
-- `CmdParse::reverse` and `CmdParse::parse` together (src/property.cpp).
use qth_frame.Base.{
  ℕ, ◌-◌, ◌≡◌, refl, sym, ap, ◌∙◌, true, false, not, none, some, [], ◌∷◌, ◌++◌, map, arith, length,
  length-append, take, All,
}
use mathlib.Core.List.{append-nil, append_assoc}
use qth_frame.Options.{
  Str, same, Map, lookup, is_empty, space, equals, pair_of, insert_pair, insert_all, parse,
  print_all, reverse,
}
use qth_frame.Options.Split.{
  Free, pieces, join, split-pieces, pieces-append, pieces-whole, pieces-join,
}
use qth_frame.Options.Parse.{insert_new, lookup-append, parse-insert_all}

-- A key or a value that can be printed: some character, and no space and no '='.
pub record IsWord (w : Str) : Type 0 where
  pub some_char : is_empty w ≡ false
  pub no_space : Free space w
  pub no_equals : Free equals w

-- The pairs of a map that can be printed.
abbrev pub IsPlain : Map → Type 0
IsPlain m = All (λ (e : Str × Str). IsWord e.0 × IsWord e.1) m

-- The keys of a map: no two are the same.
abbrev pub IsKeyed : Map → Type 0
IsKeyed [] = Unit
IsKeyed ((k, v) ∷ m) = All (λ (e : Str × Str). same k e.0 ≡ false) m × IsKeyed m

abbrev token : Str × Str → Str
token (k, v) = k ++ equals ∷ v

token-pieces :
    (k v : Str) → IsWord k → IsWord v → pair_of (pieces equals (token (k, v))) ≡ some (k, v)
token-pieces k v h i =
    rw (pieces-append equals k v h.no_equals, pieces-whole equals v i.no_equals)
      (pair k v h.some_char i.some_char)
  where
    pair :
        (k v : Str) → is_empty k ≡ false → is_empty v ≡ false → pair_of (k ∷ v ∷ []) ≡ some (k, v)
    pair k v a b = rw (a, b) refl

-- The map lacks every key of the pairs.
abbrev IsNew : Map → Map → Type 0
IsNew es m = All (λ (e : Str × Str). lookup e.0 m ≡ none) es

IsNew-append :
    (k v : Str) (es m : Map)
    → All (λ (e : Str × Str). same k e.0 ≡ false) es
    → IsNew es m
    → IsNew es (m ++ (k, v) ∷ [])
IsNew-append k v [] m a n = tt
IsNew-append k v ((j, w) ∷ es) m a n =
    (lookup-append j k v m ∙ rw (n.0, a.0) refl, IsNew-append k v es m a.1 n.1)

insert_all-token :
    (es m : Map) → IsPlain es → IsKeyed es → IsNew es m → insert_all (map token es) m ≡ m ++ es
unfolding insert_all
insert_all-token [] m p d n = sym (append-nil m)
insert_all-token ((k, v) ∷ es) m p d n =
    ap (λ ps. insert_all (map token es) (insert_pair (pair_of ps) m))
      (split-pieces (token (k, v)) equals)
    ∙ ap (λ o. insert_all (map token es) (insert_pair o m)) (token-pieces k v p.0.0 p.0.1)
    ∙ ap (insert_all (map token es)) (insert_new k v m n.0)
    ∙ insert_all-token es (m ++ (k, v) ∷ []) p.1 d.1 (IsNew-append k v es m d.0 n.1)
    ∙ append_assoc m ((k, v) ∷ []) es

Free-append : (d : ℕ) (s t : Str) → Free d s → Free d t → Free d (s ++ t)
Free-append d [] t h i = i
Free-append d (c ∷ s) t h i = (h.0, Free-append d s t h.1 i)

tokens-Free : (es : Map) → IsPlain es → All (Free space) (map token es)
tokens-Free [] p = tt
tokens-Free ((k, v) ∷ es) p = (
  Free-append space k (equals ∷ v) p.0.0.no_space ((λ e. omega arith), p.0.1.no_space),
  tokens-Free es p.1,
)

print_all-join :
    (e : Str × Str) (es : Map) → print_all (e ∷ es) ≡ join space (map token (e ∷ es)) ++ space ∷ []
unfolding print_all
print_all-join (k, v) [] = append-nil (token (k, v) ++ space ∷ [])
print_all-join (k, v) (f ∷ es) =
    ap (λ t. (token (k, v) ++ space ∷ []) ++ t) (print_all-join f es)
    ∙ append_assoc (token (k, v)) (space ∷ []) (join space (map token (f ∷ es)) ++ space ∷ [])
    ∙ sym (append_assoc (token (k, v)) (space ∷ join space (map token (f ∷ es))) (space ∷ []))

take-length : (s t : Str) → take (length s) (s ++ t) ≡ s
take-length [] t = refl
take-length (c ∷ s) t = ap (λ u. c ∷ u) (take-length s t)

take-last : (s : Str) (c : ℕ) → take (length (s ++ c ∷ []) - 1) (s ++ c ∷ []) ≡ s
take-last s c =
    ap (λ n. take n (s ++ c ∷ [])) (omega (arith, length-append s (c ∷ [])))
    ∙ take-length s (c ∷ [])

reverse-join : (e : Str × Str) (es : Map) → reverse (e ∷ es) ≡ join space (map token (e ∷ es))
unfolding reverse
reverse-join e es =
    ap (λ t. take (length t - 1) t) (print_all-join e es)
    ∙ take-last (join space (map token (e ∷ es))) space

-- What `reverse` prints of one or more pairs, with different keys, whose keys and values are not
-- empty and have no space and no '=', is parsed to these pairs again, with the answer true.
pub parse-reverse :
    (e : Str × Str) (es : Map)
    → IsPlain (e ∷ es)
    → IsKeyed (e ∷ es)
    → parse (reverse (e ∷ es)) ≡ (true, e ∷ es)
parse-reverse e es p d =
    ap parse (reverse-join e es)
    ∙ parse-insert_all (join space (map token (e ∷ es)))
    ∙ ap (λ ts. (not (is_empty (insert_all ts [])), insert_all ts []))
        (pieces-join space (token e) (map token es) (tokens-Free (e ∷ es) p))
    ∙ ap (λ (m : Map). (not (is_empty m), m)) (insert_all-token (e ∷ es) [] p d (all_new (e ∷ es)))
  where
    all_new : (es : Map) → IsNew es []
    all_new [] = tt
    all_new (e ∷ es) = (refl, all_new es)
