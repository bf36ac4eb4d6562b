-- ===== src/Http/Port.antt =====
-- What `GetPort` reads from URLs of the form scheme://host:port/path.
use qth_frame.Base.{
  ℕ, ◌+◌, ◌-◌, ◌≡◌, refl, sym, ap, ◌∙◌, Option, none, some, [], ◌∷◌, ◌++◌, arith, length-append,
  length, take, drop,
}
use mathlib.Core.List.{append-nil, append_assoc}
use qth_frame.Options.{Str}
use qth_frame.Options.Split.{Free}
use qth_frame.Http.{slash, colon, slash_loop, port_loop, get_port}
use qth_frame.Http.Url.{
  slash_loop-append, slash_loop-none, port_loop-append, default_port, Scheme, plain, secure, text,
  url_of, take-append,
}
use qth_frame.Http.Host.{drop-url_of}

module _ {Int : Type 0} (literal : ℕ → Int) (atoi : Str → Int) where
  -- What `get_port` makes of the outcome of its loop.
  abbrev cut_port : Int → Str → Option (ℕ × ℕ) → Int
  cut_port port url none = port
  cut_port port url (some (b, e)) = atoi (take (e - b) (drop (b + 1) url))

  get_port-loop :
      (s : Scheme) (r : Str)
      → get_port literal atoi (url_of s r)
        ≡ cut_port
            (literal (default_port s))
            (url_of s r)
            (port_loop (slash ∷ slash ∷ r) (length (text s)))
  unfolding get_port
  get_port-loop plain r = go (port_loop (slash ∷ slash ∷ r) 5)
    where
      go :
          (o : Option (ℕ × ℕ))
          → elim o as (λ x. Int) [
            | none ↦ literal 80
            | some (b, e) ↦ atoi (take (e - b) (drop (b + 1) (url_of plain r)))
          ]
            ≡ cut_port (literal 80) (url_of plain r) o
      go none = refl
      go (some (b, e)) = refl
  get_port-loop secure r = go (port_loop (slash ∷ slash ∷ r) 6)
    where
      go :
          (o : Option (ℕ × ℕ))
          → elim o as (λ x. Int) [
            | none ↦ literal 443
            | some (b, e) ↦ atoi (take (e - b) (drop (b + 1) (url_of secure r)))
          ]
            ≡ cut_port (literal 443) (url_of secure r) o
      go none = refl
      go (some (b, e)) = refl

  -- The loop past "//" and a host.
  port_loop-host :
      (h t : Str) (o : ℕ)
      → Free colon h
      → port_loop (slash ∷ slash ∷ h ++ t) o ≡ port_loop t (o + (length h + 2))
  port_loop-host h t o a =
      port_loop-append (slash ∷ slash ∷ h) t o ((λ e. omega arith), ((λ e. omega arith), a))
      ∙ ap (port_loop t) (omega arith)

  port_loop-colon :
      (t : Str) (o : ℕ) (r : Option ℕ)
      → slash_loop t (o + 1) ≡ r
      → port_loop (colon ∷ t) o ≡ elim r [ none ↦ none | some e ↦ some (o, e) ]
  unfolding port_loop
  port_loop-colon t o none h = rw (port_loop, h) refl
  port_loop-colon t o (some e) h = rw (port_loop, h) refl

  port_loop-nil : (o : ℕ) → port_loop [] o ≡ none
  unfolding port_loop
  port_loop-nil o = refl

  past_colon :
      (s : Scheme) (h r : Str)
      → drop (length (text s) + (length h + 2) + 1) (url_of s (h ++ colon ∷ r)) ≡ r
  past_colon s h r =
      ap (λ t. drop (length (text s) + (length h + 2) + 1) (url_of s t))
        (sym (append_assoc h (colon ∷ []) r))
      ∙ drop-url_of s (h ++ colon ∷ []) r (length (text s) + (length h + 2) + 1)
          (omega (arith, length-append h (colon ∷ [])))

  -- Of a URL with http or https, "//", a text without ':', then ':', a text without '/', and then
  -- '/' and any text, `GetPort` reads with `atoi` the text between ':' and '/', with the '/'.
  pub get_port-url_of :
      (s : Scheme) (h p u : Str)
      → Free colon h
      → Free slash p
      → get_port literal atoi (url_of s (h ++ colon ∷ (p ++ slash ∷ u))) ≡ atoi (p ++ slash ∷ [])
  get_port-url_of s h p u a b =
      let o : ℕ = length (text s) in
      let q : ℕ = o + (length h + 2) in
      let r : Str = p ++ slash ∷ u in
      get_port-loop s (h ++ colon ∷ r)
      ∙ ap (cut_port (literal (default_port s)) (url_of s (h ++ colon ∷ r))) (
          port_loop-host h (colon ∷ r) o a
          ∙ port_loop-colon r q (some (q + 1 + length p)) (slash_loop-append p u (q + 1) b))
      ∙ ap (λ t. atoi (take (q + 1 + length p - q) t)) (past_colon s h r)
      ∙ ap atoi (
          ap (take (q + 1 + length p - q)) (sym (append_assoc p (slash ∷ []) u))
          ∙ take-append (p ++ slash ∷ []) u _ (omega (arith, length-append p (slash ∷ []))))

  -- Of a URL with http or https, "//", a text without ':', then ':' and a text without '/',
  -- `GetPort` reads the port of the scheme, whatever the port in the URL.
  pub get_port-no_path :
      (s : Scheme) (h p : Str)
      → Free colon h
      → Free slash p
      → get_port literal atoi (url_of s (h ++ colon ∷ p)) ≡ literal (default_port s)
  get_port-no_path s h p a b =
      get_port-loop s (h ++ colon ∷ p)
      ∙ ap (cut_port (literal (default_port s)) (url_of s (h ++ colon ∷ p))) (
          port_loop-host h (colon ∷ p) (length (text s)) a
          ∙ port_loop-colon p (length (text s) + (length h + 2)) none (slash_loop-none p _ b))

  pub get_port-no_colon :
      (s : Scheme) (r : Str)
      → Free colon r
      → get_port literal atoi (url_of s r) ≡ literal (default_port s)
  get_port-no_colon s r a =
      get_port-loop s r
      ∙ ap (cut_port (literal (default_port s)) (url_of s r)) (
          ap (λ t. port_loop (slash ∷ slash ∷ t) (length (text s))) (sym (append-nil r))
          ∙ port_loop-host r [] (length (text s)) a
          ∙ port_loop-nil (length (text s) + (length r + 2)))
