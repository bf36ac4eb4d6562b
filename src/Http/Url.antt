-- ===== src/Http/Url.antt =====
-- What the URL functions read from URLs of the form scheme://host:port/path.
use qth_frame.Base.{
  ℕ, ◌+◌, ◌≡◌, refl, ap, ◌∙◌, ◌≢◌, true, false, ◌||◌, Option, none, some, [], ◌∷◌, ◌++◌, arith,
  length, take, drop, ◌==◌,
}
use qth_frame.Options.{Str}
use qth_frame.Options.Split.{Free}
use qth_frame.Http.{slash, colon, uri_loop, host_end_loop, host_loop, slash_loop, port_loop}

abbrev pub IsStop : ℕ → Type 0
IsStop c = ((c == colon) || (c == slash)) ≡ true

pub host_end_loop-append :
    (h t : Str) (c o : ℕ)
    → Free colon h
    → Free slash h
    → IsStop c
    → host_end_loop (h ++ c ∷ t) o ≡ o + length h
unfolding host_end_loop
host_end_loop-append [] t c o a b s = rw s (omega arith)
host_end_loop-append (x ∷ h) t c o a b s =
    let e : (x == colon) ≡ false = ground (arith, a.0) in
    let f : (x == slash) ≡ false = ground (arith, b.0) in
    rw (e, f) (host_end_loop-append h t c (o + 1) a.1 b.1 s ∙ omega arith)

pub take-append : (s t : Str) (n : ℕ) → n ≡ length s → take n (s ++ t) ≡ s
take-append [] t n e = rw e refl
take-append (c ∷ s) t n e = rw e (ap (λ u. c ∷ u) (take-append s t (length s) refl))

pub slash_loop-append :
    (p t : Str) (o : ℕ) → Free slash p → slash_loop (p ++ slash ∷ t) o ≡ some (o + length p)
unfolding slash_loop
slash_loop-append [] t o a = ap some (omega arith)
slash_loop-append (x ∷ p) t o a =
    let f : (x == slash) ≡ false = ground (arith, a.0) in
    rw f (slash_loop-append p t (o + 1) a.1 ∙ ap some (omega arith))

pub slash_loop-none : (p : Str) (o : ℕ) → Free slash p → slash_loop p o ≡ none
unfolding slash_loop
slash_loop-none [] o a = refl
slash_loop-none (x ∷ p) o a =
    let f : (x == slash) ≡ false = ground (arith, a.0) in rw f (slash_loop-none p (o + 1) a.1)

-- The characters before the first ':' are passed over.
pub port_loop-append :
    (h t : Str) (o : ℕ) → Free colon h → port_loop (h ++ t) o ≡ port_loop t (o + length h)
unfolding port_loop
port_loop-append [] t o a = ap (port_loop t) (omega arith)
port_loop-append (x ∷ h) t o a =
    let f : (x == colon) ≡ false = ground (arith, a.0) in
    rw f (port_loop-append h t (o + 1) a.1 ∙ ap (port_loop t) (omega arith))

pub uri_loop-append :
    (h t : Str) (o : ℕ) → Free slash h → uri_loop (h ++ t) o ≡ uri_loop t (o + length h)
unfolding uri_loop
uri_loop-append [] t o a = ap (uri_loop t) (omega arith)
uri_loop-append (x ∷ h) t o a =
    let f : (x == slash) ≡ false = ground (arith, a.0) in
    rw f (uri_loop-append h t (o + 1) a.1 ∙ ap (uri_loop t) (omega arith))

pub drop-append : (s t : Str) (n : ℕ) → n ≡ length s → drop n (s ++ t) ≡ t
drop-append [] t n e = rw e refl
drop-append (c ∷ s) t n e = rw e (drop-append s t (length s) refl)

-- The two schemes, with the text before "//", and the port that each stands for.
pub data Scheme : Type 0 where
  plain secure : Scheme

abbrev pub text : Scheme → Str
text plain = 104 ∷ 116 ∷ 116 ∷ 112 ∷ 58 ∷ []
text secure = 104 ∷ 116 ∷ 116 ∷ 112 ∷ 115 ∷ 58 ∷ []

abbrev pub default_port : Scheme → ℕ
default_port plain = 80
default_port secure = 443

-- A URL with its scheme, and what follows "//".
abbrev pub url_of : Scheme → Str → Str
url_of s rest = text s ++ slash ∷ slash ∷ rest

pub some-pair : (a b c d : ℕ) → a ≡ c → b ≡ d → ◌≡◌ {A = Option (ℕ × ℕ)} (some (a, b)) (some (c, d))
some-pair a b c d p q = ap (λ x. both x b) p ∙ ap (λ y. both c y) q
  where
    both : ℕ → ℕ → Option (ℕ × ℕ)
    both x y = some (x, y)

pub host_loop-slashes :
    (c : ℕ) (h t : Str) (k o : ℕ)
    → c ≢ slash
    → Free colon h
    → Free slash h
    → IsStop k
    → host_loop (slash ∷ slash ∷ c ∷ h ++ k ∷ t) o ≡ some (o + 2, o + 3 + length h)
unfolding host_loop
host_loop-slashes c h t k o n a b s =
    let f : (c == slash) ≡ false = ground arith in
    rw f (
      ap (λ e. some (o + 1 + 1, e)) (host_end_loop-append h t k (o + 1 + 1 + 1) a b s)
      ∙ some-pair _ _ _ _ (omega arith) (omega arith))
