-- ===== src/Http/Host.antt =====
-- What `GetHost` and `GetUri` read from URLs of the form scheme://host:port/path.
use qth_frame.Base.{
  ℕ, ◌+◌, ◌-◌, ◌≡◌, refl, sym, ap, ◌∙◌, ◌≢◌, true, false, Option, none, some, [], ◌∷◌, ◌++◌, arith,
  ltb, ◌<◌, ◌≤◌, length-append, length, take, drop, if◌then◌else◌,
}
use mathlib.Core.List.{append-nil}
use qth_frame.Options.{Str}
use qth_frame.Options.Split.{Free}
use qth_frame.Http.{slash, colon, start, uri_loop, get_uri, host_loop, get_host}
use qth_frame.Http.Url.{
  IsStop, Scheme, plain, secure, text, url_of, take-append, uri_loop-append, drop-append,
  host_loop-slashes,
}

-- What `get_host` makes of the outcome of its loop.
abbrev cut_host : Str → Option (ℕ × ℕ) → Option Str
cut_host url none = none
cut_host url (some (b, e)) = some (take (e - b) (drop b url))

get_host-cut :
    (url : Str) → get_host url ≡ cut_host url (host_loop (drop (start 6 5 url) url) (start 6 5 url))
unfolding get_host
get_host-cut url = go (host_loop (drop (start 6 5 url) url) (start 6 5 url))
  where
    go :
        (o : Option (ℕ × ℕ))
        → elim o as (λ x. Option Str) [
          | none ↦ none
          | some (host_begin, host_end) ↦ some (take (host_end - host_begin) (drop host_begin url))
        ]
          ≡ cut_host url o
    go none = refl
    go (some (b, e)) = refl

cut_host-slashes :
    (s : Scheme) (o c : ℕ) (h t : Str) (k : ℕ)
    → o ≡ length (text s)
    → cut_host (url_of s (c ∷ h ++ k ∷ t)) (some (o + 2, o + 3 + length h)) ≡ some (c ∷ h)
cut_host-slashes plain o c h t k e = rw e (ap some (take-append (c ∷ h) (k ∷ t) _ (omega arith)))
cut_host-slashes secure o c h t k e = rw e (ap some (take-append (c ∷ h) (k ∷ t) _ (omega arith)))

-- Of a URL with http or https, "//", a host with some character and no ':' or '/', and then ':' or
-- '/' and any text, `GetHost` reads the host.
pub get_host-url_of :
    (s : Scheme) (c k : ℕ) (h t : Str)
    → c ≢ slash
    → Free colon h
    → Free slash h
    → IsStop k
    → get_host (url_of s (c ∷ h ++ k ∷ t)) ≡ some (c ∷ h)
get_host-url_of plain c k h t n a b e =
    get_host-cut (url_of plain (c ∷ h ++ k ∷ t))
    ∙ ap (cut_host (url_of plain (c ∷ h ++ k ∷ t))) (host_loop-slashes c h t k 5 n a b e)
    ∙ cut_host-slashes plain 5 c h t k refl
get_host-url_of secure c k h t n a b e =
    get_host-cut (url_of secure (c ∷ h ++ k ∷ t))
    ∙ ap (cut_host (url_of secure (c ∷ h ++ k ∷ t))) (host_loop-slashes c h t k 6 n a b e)
    ∙ cut_host-slashes secure 6 c h t k refl

-- What `get_uri` makes of the offset that its loop ends at.
abbrev cut_uri : Str → ℕ → Str
cut_uri url offset = if ltb offset (length url) then drop offset url else slash ∷ []

length-url_of : (s : Scheme) (r : Str) → length (url_of s r) ≡ length (text s) + 2 + length r
length-url_of plain r = omega arith
length-url_of secure r = omega arith

pub drop-url_of :
    (s : Scheme) (a r : Str) (n : ℕ)
    → n ≡ length (text s) + 2 + length a
    → drop n (url_of s (a ++ r)) ≡ r
drop-url_of plain a r n e = drop-append (url_of plain a) r n (omega (arith, e))
drop-url_of secure a r n e = drop-append (url_of secure a) r n (omega (arith, e))

get_uri-loop :
    (s : Scheme) (r : Str)
    → get_uri (url_of s r) ≡ cut_uri (url_of s r) (uri_loop r (length (text s) + 2))
unfolding get_uri
get_uri-loop plain r = refl
get_uri-loop secure r = refl

uri_loop-slash : (u : Str) (o : ℕ) → uri_loop (slash ∷ u) o ≡ o
unfolding uri_loop
uri_loop-slash u o = refl

uri_loop-nil : (o : ℕ) → uri_loop [] o ≡ o
unfolding uri_loop
uri_loop-nil o = refl

cut_uri-inside : (url : Str) (o : ℕ) (t : Str) → o < length url → drop o url ≡ t → cut_uri url o ≡ t
cut_uri-inside url o t h e = let k : ltb o (length url) ≡ true = ground arith in rw k e

cut_uri-outside : (url : Str) (o : ℕ) → length url ≤ o → cut_uri url o ≡ slash ∷ []
cut_uri-outside url o h = let k : ltb o (length url) ≡ false = ground arith in rw k refl

-- Of a URL with http or https, "//", a text without '/', and then '/' and any text, `GetUri` reads
-- what starts with that '/'.
pub get_uri-url_of :
    (s : Scheme) (a u : Str) → Free slash a → get_uri (url_of s (a ++ slash ∷ u)) ≡ slash ∷ u
get_uri-url_of s a u h =
    let o : ℕ = length (text s) + 2 in
    get_uri-loop s (a ++ slash ∷ u)
    ∙ ap (cut_uri (url_of s (a ++ slash ∷ u)))
        (uri_loop-append a (slash ∷ u) o h ∙ uri_loop-slash u (o + length a))
    ∙ cut_uri-inside (url_of s (a ++ slash ∷ u)) (o + length a) (slash ∷ u)
        (omega (arith, length-url_of s (a ++ slash ∷ u), length-append a (slash ∷ u)))
        (drop-url_of s a (slash ∷ u) (o + length a) refl)

pub get_uri-no_path : (s : Scheme) (a : Str) → Free slash a → get_uri (url_of s a) ≡ slash ∷ []
get_uri-no_path s a h =
    let o : ℕ = length (text s) + 2 in
    get_uri-loop s a
    ∙ ap (cut_uri (url_of s a)) (
        ap (λ r. uri_loop r o) (sym (append-nil a))
        ∙ uri_loop-append a [] o h
        ∙ uri_loop-nil (o + length a))
    ∙ cut_uri-outside (url_of s a) (o + length a) (omega (arith, length-url_of s a))
