-- ===== src/Http/Tests.antt =====
-- Concrete URLs, with the characters a = 97 and 8 = 56.
use qth_frame.Base.{◌≡◌, refl, some, [], ◌∷◌, ◌++◌, arith, length}
use qth_frame.Http.{colon, slash, get_host, get_uri, get_port}
use qth_frame.Http.Url.{plain, secure, url_of}
use qth_frame.Http.Host.{get_host-url_of, get_uri-url_of, get_uri-no_path}
use qth_frame.Http.Port.{get_port-url_of, get_port-no_path, get_port-no_colon}

get_host-url_of_example :
    get_host (url_of plain (97 ∷ (98 ∷ []) ++ colon ∷ 56 ∷ slash ∷ [])) ≡ some (97 ∷ 98 ∷ [])
get_host-url_of_example =
    get_host-url_of plain 97 colon (98 ∷ []) (56 ∷ slash ∷ []) (λ e. omega arith)
      ((λ e. omega arith), tt) ((λ e. omega arith), tt) refl

get_uri-url_of_example : get_uri (url_of secure ((97 ∷ []) ++ slash ∷ 98 ∷ [])) ≡ slash ∷ 98 ∷ []
get_uri-url_of_example = get_uri-url_of secure (97 ∷ []) (98 ∷ []) ((λ e. omega arith), tt)

get_port-url_of_example :
    get_port (λ n. n) length (url_of plain ((97 ∷ []) ++ colon ∷ ((56 ∷ 56 ∷ []) ++ slash ∷ [])))
    ≡ 3
get_port-url_of_example =
    get_port-url_of (λ n. n) length plain (97 ∷ []) (56 ∷ 56 ∷ []) [] ((λ e. omega arith), tt)
      ((λ e. omega arith), ((λ e. omega arith), tt))

get_port-no_path_example :
    get_port (λ n. n) length (url_of secure ((97 ∷ []) ++ colon ∷ 56 ∷ 56 ∷ [])) ≡ 443
get_port-no_path_example =
    get_port-no_path (λ n. n) length secure (97 ∷ []) (56 ∷ 56 ∷ []) ((λ e. omega arith), tt)
      ((λ e. omega arith), ((λ e. omega arith), tt))

get_port-no_colon_example : get_port (λ n. n) length (url_of plain (97 ∷ slash ∷ [])) ≡ 80
get_port-no_colon_example =
    get_port-no_colon (λ n. n) length plain (97 ∷ slash ∷ [])
      ((λ e. omega arith), ((λ e. omega arith), tt))

get_uri-no_path_example : get_uri (url_of plain (97 ∷ [])) ≡ slash ∷ []
get_uri-no_path_example = get_uri-no_path plain (97 ∷ []) ((λ e. omega arith), tt)
