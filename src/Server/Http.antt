-- ===== src/Server/Http.antt =====
-- The http.Servers of cmd/server/main.go and what they serve.
pub mod Routes
use mcp_searxng.Prelude.{ℕ, ◌*◌, true, false, List, [], ◌∷◌, none, some}
use mcp_searxng.Prelude.Int.{ℤ, pos}
use mcp_searxng.Text.{Str, str}
use mcp_searxng.Config.{Config}
use mcp_searxng.Handlers.Observability.{Endpoint, observability_handler}
use mcp_searxng.Handlers.Observability.Mux.{Router, always, serve_mux}

-- The times are in nanoseconds, and 0 is no limit.
pub record HttpServer {ℓ} (T : Type ℓ) : Type ℓ where
  pub addr : Str
  pub handler : Router T
  pub read_header_timeout : ℤ
  pub read_timeout : ℤ
  pub write_timeout : ℤ
  pub idle_timeout : ℤ

abbrev seconds : ℕ → ℤ
seconds n = pos (n * 1000000000)

-- What the main server serves: Healthz, and the handler of buildHTTPHandler.
pub data Target : Type 0 where
  probe mcp : Target

-- The mux of runHTTP.
unfoldable pub main_mux : Router Target
main_mux = serve_mux (
    record { method = some (str "GET"); path = str "/healthz"; target = always probe }
    ∷ record { method = none; path = str "/"; target = always mcp }
    ∷ [])

-- newMainServer
unfoldable pub new_main_server : {T : Type 0} → Config → Router T → HttpServer T
new_main_server cfg handler = record {
  addr = cfg.listen_addr;
  handler = handler;
  read_header_timeout = seconds 30;
  read_timeout = seconds 60;
  write_timeout = cfg.write_timeout;
  idle_timeout = seconds 120;
}

-- The internal server of either mode, by its address and its mux.
abbrev internal_server : {T : Type 0} → Str → Router T → HttpServer T
internal_server addr mux = record {
  addr = addr;
  handler = mux;
  read_header_timeout = seconds 10;
  read_timeout = pos 0;
  write_timeout = seconds 30;
  idle_timeout = seconds 60;
}

-- newMetricsServer
unfoldable pub new_metrics_server : {T : Type 0} → Str → Router T → HttpServer T
new_metrics_server addr handler =
    internal_server addr (
      serve_mux
        (record { method = some (str "GET"); path = str "/metrics"; target = handler } ∷ []))

-- The two servers of runHTTP, and the one of runStdio.
unfoldable pub http_main_server : Config → HttpServer Target
unfolding new_main_server main_mux
http_main_server cfg = new_main_server cfg main_mux

unfoldable pub http_metrics_server : Config → HttpServer Endpoint
unfolding new_metrics_server
http_metrics_server cfg = new_metrics_server cfg.internal_addr (observability_handler false)

unfoldable pub stdio_metrics_server : Config → HttpServer Endpoint
stdio_metrics_server cfg =
    internal_server cfg.internal_addr (
      serve_mux
        (record { method = none; path = str "/"; target = observability_handler true } ∷ []))
