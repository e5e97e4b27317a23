-- ===== src/Handlers/Observability.antt =====
-- handlers/observability.go: the handlers of the internal server, and the http.ServeMux that they are
-- put in.
pub mod Mux
use mcp_searxng.Prelude.{Bool, List, [], ◌∷◌, Option, none, some, if◌then◌else◌}
use mcp_searxng.Prelude.Int.{ℤ, pos}
use mcp_searxng.Text.{Str, str}
use mcp_searxng.Handlers.Observability.Mux.{Router, Route, always, serve_mux}

-- The handlers of promhttp and net/http/pprof, and Healthz.
pub data Endpoint : Type 0 where
  prometheus : Endpoint
  pprof_index pprof_cmdline pprof_profile pprof_symbol pprof_trace : Endpoint
  health : Endpoint

-- registerPprof
unfoldable pub register_pprof : List (Route Endpoint) → List (Route Endpoint)
register_pprof mux =
    record { method = none; path = str "/debug/pprof/"; target = always pprof_index }
    ∷ record { method = none; path = str "/debug/pprof/cmdline"; target = always pprof_cmdline }
    ∷ record { method = none; path = str "/debug/pprof/profile"; target = always pprof_profile }
    ∷ record { method = none; path = str "/debug/pprof/symbol"; target = always pprof_symbol }
    ∷ record { method = none; path = str "/debug/pprof/trace"; target = always pprof_trace }
    ∷ mux

-- What a handler answers: its headers, its status and its body.
pub record HttpReply : Type 0 where
  pub headers : List (Str × Str)
  pub status : ℤ
  pub body : Str

-- Healthz
unfoldable pub healthz : HttpReply
healthz = record {
  headers = (str "Content-Type", str "application/json") ∷ [];
  status = pos 200;
  body = str "{\"status\":\"ok\"}";
}

-- ObservabilityHandler
unfoldable pub observability_handler : Bool → Router Endpoint
unfolding register_pprof
observability_handler include_healthz =
    let mux = register_pprof (
      record { method = some (str "GET"); path = str "/metrics"; target = always prometheus }
      ∷ []) in
    serve_mux (
      if include_healthz
      then record { method = some (str "GET"); path = str "/healthz"; target = always health } ∷ mux
      else mux)
