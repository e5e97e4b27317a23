-- ===== src/Handlers/ClientIp/Laws.antt =====
-- Which address the headers of a request give.
use mcp_searxng.Prelude.{
  ℕ, ◌≡◌, ◌≢◌, refl, ap, ◌∙◌, [], ◌∷◌, ◌++◌, some, arith, All, false, take-append,
}
use mcp_searxng.Text.{Str, str, str_eq, str_eq_refl}
use mcp_searxng.Text.Search.{Lacks, index_byte-append, last_index_byte_of_Lacks}
use mcp_searxng.Text.HostPort.{split_host_port}
use mcp_searxng.Text.HostPort.Laws.{IsPlain, split_host_port_plain}
use mcp_searxng.Text.Trim.{trim_space}
use mcp_searxng.Text.Trim.Laws.{IsVisible, trim_space_of_visible}
use mcp_searxng.Handlers.ClientIp.{
  Request, get_header, host_or_all, first_forwarded, extract_client_ip, proxy_client_ip,
}

-- An address without a port, as a proxy writes it: visible characters, and no comma, colon or bracket.
pub record IsAddress (ip : Str) : Type 0 where
  pub nonempty : ip ≢ []
  pub visible : All IsVisible ip
  pub no_comma : Lacks b',' ip
  pub plain : IsPlain ip

no_port : (ip : Str) → IsPlain ip → host_or_all ip ≡ ip
unfolding host_or_all split_host_port
no_port ip h = ground (arith, last_index_byte_of_Lacks b':' ip h.0)

append_cons_nonempty : (s : Str) (c : ℕ) (t : Str) → str_eq (s ++ c ∷ t) [] ≡ false
unfolding str_eq
append_cons_nonempty [] c t = refl
append_cons_nonempty (b ∷ s) c t = refl

-- The leftmost address of a chain "client, proxy1, proxy2".
first_forwarded_chain : (ip rest : Str) → IsAddress ip → first_forwarded (ip ++ b',' ∷ rest) ≡ ip
unfolding first_forwarded
first_forwarded_chain ip rest a =
    rw (index_byte-append b',' ip rest a.no_comma, first_forwarded)
      (ap trim_space (take-append ip (b',' ∷ rest)) ∙ trim_space_of_visible ip a.visible)

-- Behind a proxy that sends only X-Forwarded-For, with an address without a port before its first
-- comma, the rate limiter and the access log both take the
-- leftmost address of the chain, whoever the direct peer is.
pub forwarded_client :
    (r : Request) (ip rest : Str)
    → IsAddress ip
    → get_header (str "X-Client-Ip") r.header ≡ []
    → get_header (str "X-Real-Ip") r.header ≡ []
    → get_header (str "X-Forwarded-For") r.header ≡ ip ++ b',' ∷ rest
    → (extract_client_ip r ≡ ip) × (proxy_client_ip r ≡ some ip)
unfolding extract_client_ip proxy_client_ip
forwarded_client r ip rest a c x f =
    let chain : str_eq (ip ++ b',' ∷ rest) [] ≡ false = append_cons_nonempty ip b',' rest in
    let address = first_forwarded_chain ip rest a in
    let blank = trim_space_of_visible [] tt in
    rw (c, x, f) (ground (arith, chain, address, blank, str_eq_refl [], no_port ip a.plain))

-- Without the headers that extractClientIP reads, the client is the host of the peer's address, for
-- a host and a port without colons and brackets.
pub direct_client :
    (r : Request) (host port : Str)
    → get_header (str "X-Client-Ip") r.header ≡ []
    → get_header (str "X-Forwarded-For") r.header ≡ []
    → r.remote_addr ≡ host ++ b':' ∷ port
    → IsPlain host
    → IsPlain port
    → extract_client_ip r ≡ host
unfolding extract_client_ip host_or_all str_eq
direct_client r host port c f e h p =
    rw (c, f, e) (rw (split_host_port_plain host port h p, host_or_all))
