-- ===== src/Http.antt =====
-- The URL functions of `CHttpRequest` (src/http_request.cpp, include/asio/http_request.h). A character
-- is a number and a string a list of them. The loops walk an offset through the URL; here they walk
-- the rest of it from that offset on, with what was noted on the way. An offset that is `INF`, 999999, is
-- none: a URL is taken to be shorter than that.
pub mod Url
pub mod Host
pub mod Port
mod Tests
use qth_frame.Base.{
  ℕ, zero, suc, ◌+◌, ◌-◌, ◌*◌, Bool, true, false, ◌&&◌, ◌||◌, Option, none, some, List, [], ◌∷◌,
  ◌++◌, length, take, drop, ◌==◌, ltb, leb, if◌then◌else◌, map,
}
use qth_frame.Options.{Str, same}

abbrev pub slash : ℕ
slash = 47

abbrev pub colon : ℕ
colon = 58

-- "http"
abbrev pub http : Str
http = 104 ∷ 116 ∷ 116 ∷ 112 ∷ []

-- "https"
abbrev pub https : Str
https = 104 ∷ 116 ∷ 116 ∷ 112 ∷ 115 ∷ []

-- The offset that a loop starts at, by the scheme of the URL.
abbrev pub start : ℕ → ℕ → Str → ℕ
start for_https for_http url =
    if same (take 5 url) https then for_https else if same (take 4 url) http then for_http else 0

-- The loop of `GetUri`, at `offset` with `rest` to come.
pub uri_loop : Str → ℕ → ℕ
uri_loop [] offset = offset
uri_loop (c ∷ rest) offset = if c == slash then offset else uri_loop rest (offset + 1)

pub get_uri : Str → Str
get_uri url =
    let from = start 8 7 url in
    let offset = uri_loop (drop from url) from in
    if ltb offset (length url) then drop offset url else slash ∷ []

-- The loop of `GetHost`: `host_begin`, then the offset at which it ends.
pub host_end_loop : Str → ℕ → ℕ
host_end_loop [] offset = offset
host_end_loop (c ∷ rest) offset =
    if (c == colon) || (c == slash) then offset else host_end_loop rest (offset + 1)

pub host_loop : Str → ℕ → Option (ℕ × ℕ)
host_loop [] offset = none
host_loop (c ∷ rest) offset =
    if c == slash
    then host_loop rest (offset + 1)
    else some (offset, host_end_loop rest (offset + 1))

-- `none` where the code takes a substring at an offset that was never set.
pub get_host : Str → Option Str
get_host url =
    let from = start 6 5 url in
    elim (host_loop (drop from url) from) [
      | none ↦ none
      | some (host_begin, host_end) ↦ some (take (host_end - host_begin) (drop host_begin url))
    ]

-- The loop of `GetPort`: the offset of the first '/' from here on.
pub slash_loop : Str → ℕ → Option ℕ
slash_loop [] offset = none
slash_loop (c ∷ rest) offset = if c == slash then some offset else slash_loop rest (offset + 1)

-- `port_begin` and `port_end`, if both are set.
pub port_loop : Str → ℕ → Option (ℕ × ℕ)
port_loop [] offset = none
port_loop (c ∷ rest) offset =
    if c == colon
    then (elim (slash_loop rest (offset + 1)) [ none ↦ none | some e ↦ some (offset, e) ])
    else port_loop rest (offset + 1)

-- `int` with its literals and `atoi` of the C library are parameters.
module _ {Int : Type 0} (literal : ℕ → Int) (atoi : Str → Int) where
  pub get_port : Str → Int
  get_port url =
      let from = start 6 5 url in
      let port = if same (take 5 url) https then literal 443 else literal 80 in
      elim (port_loop (drop from url) from) [
        | none ↦ port
        | some (port_begin, port_end) ↦
            atoi (take (port_end - port_begin) (drop (port_begin + 1) url))
      ]

abbrev pub Headers : Type 0
Headers = List (Str × Str)

-- `m_header[key] = value`; the keys of the map are in order, here in the order of their insertion.
pub set_header : Str → Str → Headers → Headers
set_header k v [] = (k, v) ∷ []
set_header k v ((j, w) ∷ hs) = if same j k then (j, v) ∷ hs else (j, w) ∷ set_header k v hs
