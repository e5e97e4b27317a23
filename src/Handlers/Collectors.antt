-- ===== src/Handlers/Collectors.antt =====
-- The collectors that handlers/metrics.go, handlers/observability.go and
-- infrastructure/searxng/client.go make and register, and the registrations of a start of the server.
pub mod Registered
use mcp_searxng.Prelude.{Bool, true, false, List, [], ◌∷◌, Option, none, some, if◌then◌else◌}
use mcp_searxng.Text.{Str, str}

-- A collector by its name and its labels; those of the Go runtime and of the process are
-- prometheus's own.
pub data Collector : Type 0 where
  counter_vec histogram_vec : Str → List Str → Collector
  gauge : Str → Collector
  go_collector process_collector : Collector

-- prometheus.Registry: NewRegistry, MustRegister, of which a panic is `none`, and the names of the
-- metrics that prometheus's own collectors have.
pub record Prometheus : Type 1 where
  pub Registry : Type 0
  pub new_registry : Registry
  pub must_register : List Collector → Registry → Option Registry
  pub go_names : List Str
  pub process_names : List Str

-- The collectors of NewUpstreamMetrics, NewMetrics and InstrumentServer.
abbrev pub upstream_collectors : List Collector
upstream_collectors =
    counter_vec (str "mcp_searxng_upstream_requests_total") (str "status_class" ∷ [])
    ∷ histogram_vec (str "mcp_searxng_upstream_duration_seconds") []
    ∷ []

abbrev pub tool_collectors : List Collector
tool_collectors =
    counter_vec (str "mcp_tool_requests_total") (str "tool" ∷ str "status_class" ∷ [])
    ∷ histogram_vec (str "mcp_tool_duration_seconds") (str "tool" ∷ [])
    ∷ gauge (str "mcp_active_requests")
    ∷ []

abbrev pub server_collectors : List Collector
server_collectors =
    histogram_vec (str "http_request_duration_seconds") (str "code" ∷ str "method" ∷ [])
    ∷ counter_vec (str "http_requests_total") (str "code" ∷ str "method" ∷ [])
    ∷ histogram_vec (str "http_response_size_bytes") (str "code" ∷ str "method" ∷ [])
    ∷ []

module _ (P : Prometheus) where
  open P use {Registry, must_register}

  -- NewUpstreamMetrics
  unfoldable pub new_upstream_metrics : Registry → Option Registry
  new_upstream_metrics = must_register upstream_collectors

  -- NewMetrics
  unfoldable pub new_metrics : Registry → Option Registry
  new_metrics = must_register tool_collectors

  -- InstrumentServer; the handler is wrapped in promhttp.
  unfoldable pub instrument_server : Registry → Option Registry
  instrument_server = must_register server_collectors

  -- RegisterMetricsOnRegistry
  unfoldable pub register_metrics_on_registry : Registry → Option Registry
  register_metrics_on_registry reg = elim (must_register (go_collector ∷ []) reg) [
    | none ↦ none
    | some reg' ↦ must_register (process_collector ∷ []) reg'
  ]

  -- The registrations of buildServer.
  unfoldable pub build_registry : Option Registry
  build_registry = elim (new_upstream_metrics P.new_registry) [
    | none ↦ none
    | some reg ↦ new_metrics reg
  ]

  -- The registrations of runHTTP, in order, and those of runStdio.
  unfoldable pub http_registry : Option Registry
  http_registry = elim build_registry [
    | none ↦ none
    | some reg ↦ elim (instrument_server reg) [
      | none ↦ none
      | some reg' ↦ register_metrics_on_registry reg'
    ]
  ]

  unfoldable pub stdio_registry : Option Registry
  stdio_registry = elim build_registry [ none ↦ none | some reg ↦ register_metrics_on_registry reg ]
