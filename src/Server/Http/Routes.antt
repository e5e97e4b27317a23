-- ===== src/Server/Http/Routes.antt =====
-- What is served where.
use mcp_searxng.Prelude.{
  ◌≡◌, Bool, ◌&&◌, ◌||◌, ◌∷◌, ◌++◌, none, some, arith, if◌then◌else◌, Bool-cases, inl, inr,
}
use mcp_searxng.Text.{Str, str, str_eq, str_eq_iff, has_prefix}
use mcp_searxng.Config.{Config}
use mcp_searxng.Handlers.Observability.{
  Endpoint, prometheus, health, pprof_index, pprof_cmdline, pprof_profile, pprof_symbol,
  pprof_trace, register_pprof, observability_handler,
}
use mcp_searxng.Handlers.Observability.Mux.{
  takes_method, is_subtree, takes_path, takes, is_more_specific, best_route, serve_mux,
}
use mcp_searxng.Server.Http.{
  probe, mcp, main_mux, new_main_server, new_metrics_server, http_main_server, http_metrics_server,
  stdio_metrics_server,
}

-- A request that a GET pattern takes.
abbrev pub is_get : Str → Bool
is_get m = str_eq (str "GET") m || str_eq m (str "HEAD")

-- The main server has the liveness probe at GET /healthz, and everything else goes to the MCP handler
-- with its middleware.
pub main_routes :
    (cfg : Config) (m p : Str)
    → (http_main_server cfg).handler m (b'/' ∷ p)
      ≡ some (if is_get m && str_eq p (str "healthz") then probe else mcp)
unfolding http_main_server new_main_server main_mux serve_mux best_route takes takes_method
    takes_path is_subtree is_more_specific has_prefix str_eq
main_routes cfg m p = ground (arith, str_eq_iff (str "healthz") p, str_eq_iff p (str "healthz"))

metrics_route :
    (cfg : Config) (m p : Str)
    → (http_metrics_server cfg).handler m p
      ≡ (if is_get m && str_eq (str "/metrics") p then some prometheus else none)
unfolding http_metrics_server new_metrics_server observability_handler register_pprof serve_mux
    best_route takes takes_method takes_path is_subtree is_more_specific has_prefix str_eq
metrics_route cfg m p = elim (Bool-cases (str_eq (str "/metrics") p)) [
  | inr f ↦ rw f (ground arith)
  | inl e ↦ rw (← (str_eq_iff (str "/metrics") p).0 e) (ground arith)
]

-- The pprof handler at a path below /debug/pprof/.
abbrev pub pprof_endpoint : Str → Endpoint
pprof_endpoint rest =
    if str_eq (str "cmdline") rest
    then pprof_cmdline
    else if str_eq (str "profile") rest
    then pprof_profile
    else if str_eq (str "symbol") rest
    then pprof_symbol
    else if str_eq (str "trace") rest
    then pprof_trace
    else pprof_index

pprof_route :
    (cfg : Config) (m rest : Str)
    → (stdio_metrics_server cfg).handler m (str "/debug/pprof/" ++ rest)
      ≡ some (pprof_endpoint rest)
unfolding stdio_metrics_server observability_handler register_pprof serve_mux best_route takes
    takes_method takes_path is_subtree is_more_specific has_prefix str_eq
pprof_route cfg m rest = elim (Bool-cases (str_eq (str "cmdline") rest)) [
  | inl e ↦ rw (← (str_eq_iff (str "cmdline") rest).0 e) (ground arith)
  | inr a ↦ elim (Bool-cases (str_eq (str "profile") rest)) [
    | inl e ↦ rw (← (str_eq_iff (str "profile") rest).0 e) (ground arith)
    | inr b ↦ elim (Bool-cases (str_eq (str "symbol") rest)) [
      | inl e ↦ rw (← (str_eq_iff (str "symbol") rest).0 e) (ground arith)
      | inr c ↦ elim (Bool-cases (str_eq (str "trace") rest)) [
        | inl e ↦ rw (← (str_eq_iff (str "trace") rest).0 e) (ground arith)
        | inr d ↦ rw (a, b, c, d) (ground arith)
      ]
    ]
  ]
]

-- In http mode the internal server answers GET (and HEAD) /metrics and nothing else, so /debug/pprof/
-- is not reached. In stdio mode it answers GET /metrics, GET /healthz and, by any method, what is
-- below /debug/pprof/.
pub internal_routes :
    (cfg : Config) (m p rest : Str)
    → ((http_metrics_server cfg).handler m p
        ≡ (if is_get m && str_eq (str "/metrics") p then some prometheus else none))
      × ((stdio_metrics_server cfg).handler m (str "/metrics")
          ≡ (if is_get m then some prometheus else none))
      × ((stdio_metrics_server cfg).handler m (str "/healthz")
          ≡ (if is_get m then some health else none))
      × ((stdio_metrics_server cfg).handler m (str "/debug/pprof/" ++ rest)
          ≡ some (pprof_endpoint rest))
unfolding stdio_metrics_server observability_handler register_pprof serve_mux best_route takes
    takes_method takes_path is_subtree is_more_specific has_prefix str_eq
internal_routes cfg m p rest =
    (metrics_route cfg m p, ground arith, ground arith, pprof_route cfg m rest)
