-- ===== src/Handlers/ClientIp.antt =====
-- `extractClientIP` of handlers/ratelimit.go, and handlers/clientip.go: the client's address, as the
-- headers of a request give it.
pub mod Laws
use mcp_searxng.Prelude.{Option, none, some, List, [], ◌∷◌, take, if◌then◌else◌}
use mcp_searxng.Text.{Str, str, str_eq, index_byte}
use mcp_searxng.Text.HostPort.{split_host_port}
use mcp_searxng.Text.Trim.{trim_space}
use mcp_searxng.Packages.{Body}
use mcp_searxng.Context.{Context, with_client_ip}

-- net/http's Header: the first value of each key, by its canonical spelling.
abbrev pub Header : Type 0
Header = List (Str × Str)

-- Header.Get; a missing key gives "".
unfoldable pub get_header : Str → Header → Str
get_header key [] = []
get_header key ((k, v) ∷ h) = if str_eq k key then v else get_header key h

-- The parts of an http.Request that the middleware reads.
pub record Request : Type 0 where
  pub method : Str
  pub path : Str
  pub header : Header
  pub remote_addr : Str
  pub context : Context
  pub body : Body

-- The host of an address with a port, or the address as it is.
unfoldable pub host_or_all : Str → Str
host_or_all s = elim (split_host_port s) [ some (host, port) ↦ host | none ↦ s ]

-- The part of X-Forwarded-For before its first comma, trimmed; without a comma, all of it as it is.
unfoldable pub first_forwarded : Str → Str
first_forwarded fwd = elim (index_byte b',' fwd) [ some i ↦ trim_space (take i fwd) | none ↦ fwd ]

-- extractClientIP
unfoldable pub extract_client_ip : Request → Str
extract_client_ip r =
    let direct = get_header (str "X-Client-Ip") r.header in
    let forwarded = get_header (str "X-Forwarded-For") r.header in
    if str_eq direct []
    then if str_eq forwarded []
      then host_or_all r.remote_addr
      else host_or_all (first_forwarded forwarded)
    else host_or_all direct

-- proxyClientIP; `none` is ("", false).
unfoldable pub proxy_client_ip : Request → Option Str
proxy_client_ip r =
    let real = trim_space (get_header (str "X-Real-Ip") r.header) in
    let forwarded = get_header (str "X-Forwarded-For") r.header in
    if str_eq real []
    then if str_eq forwarded [] then none else some (first_forwarded forwarded)
    else some real

-- ClientIPMiddleware: the request that the next handler is given.
unfoldable pub client_ip_middleware : Request → Request
client_ip_middleware r = elim (proxy_client_ip r) [
  | some ip ↦ record r { context = with_client_ip r.context ip }
  | none ↦ r
]
