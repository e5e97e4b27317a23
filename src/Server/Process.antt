-- ===== src/Server/Process.antt =====
-- cmd/server/main.go: the life of the process in each mode, from the binding of its listeners to its
-- return from Run. What the operating system, net/http and the MCP session do is an argument.
pub mod Outcomes
pub mod Resources
pub mod Secrecy
use mcp_searxng.Prelude.{
  ℕ, ◌*◌, Bool, true, false, ◌&&◌, List, [], ◌∷◌, ◌++◌, Option, none, some, Result, ok, err,
  if◌then◌else◌,
}
use mcp_searxng.Prelude.Int.{ℤ, pos}
use mcp_searxng.Text.{Str, str, str_eq}
use mcp_searxng.Errors.{GoError, wrap, error_text}
use mcp_searxng.Packages.{Url}
use mcp_searxng.Log.{Log, log_info, log_error}
use mcp_searxng.Config.{Config}
use mcp_searxng.Handlers.Sanitize.{sanitize_log}
use mcp_searxng.Handlers.Registration.{Registered, register_tools_with_source}
use mcp_searxng.Server.{Build, log_startup_banner}

-- The two listeners, and the servers on them.
pub data Site : Type 0 where
  main_site metrics_site : Site

-- A context.Context, as to its end: whether it is cancelled, and the timeout that it has got.
pub record RunContext : Type 0 where
  pub cancelled : Bool
  pub timeout : Option ℕ

-- context.WithTimeout of a context without one, and context.WithoutCancel.
abbrev pub with_timeout : RunContext → ℕ → RunContext
with_timeout ctx d = record ctx { timeout = some d }

abbrev pub without_cancel : RunContext → RunContext
without_cancel ctx = record { cancelled = false; timeout = none }

-- shutdownTimeout, in nanoseconds
abbrev pub shutdown_timeout : ℕ
shutdown_timeout = 30 * 1000000000

-- What the process does to its resources.
pub data Effect : Type 0 where
  listened : Site → Effect
  closed : Site → Effect
  limiter_stopped : Effect
  shut_down : Site → RunContext → Effect
  client_closed : Effect

pub record Process : Type 0 where
  pub effects : List Effect
  pub log : Log

abbrev pub act : Effect → Process → Process
act effect p = record p { effects = p.effects ++ effect ∷ [] }

abbrev pub say : (Log → Log) → Process → Process
say write p = record p { log = write p.log }

-- The error that http.Server.Serve returns: http.ErrServerClosed or another.
pub data ServeError : Type 0 where
  server_closed : ServeError
  failure : GoError → ServeError

-- How far a function has got: it waits, it has panicked, or it has returned an error or nil.
pub data Outcome : Type 0 where
  waiting : Process → Outcome
  panicked : Outcome
  returned : Option GoError → Process → Outcome

-- A deferred action, which runs at the return.
abbrev pub deferred : Effect → Outcome → Outcome
deferred effect (returned e p) = returned e (act effect p)
deferred effect (waiting p) = waiting p
deferred effect panicked = panicked

-- The settings of the resty client.
pub record RestySettings : Type 0 where
  pub max_idle_conns : ℕ
  pub idle_conn_timeout : ℕ
  pub timeout : ℕ
  pub follows_redirects : Bool
  pub user_agent : Str

-- What buildServer puts into serverDeps: the client and the address that it asks, the tools of the
-- MCP server and the label of their log lines.
pub record ServerDeps : Type 0 where
  pub client : RestySettings
  pub base_url : Str
  pub tools : Registered
  pub source : Str

-- What happens around the process. The listeners' addresses, or why they cannot be bound; what
-- Shutdown returns. Then, up to the end of the wait, or to the return in stdio mode: whether the
-- context of Run is cancelled, by a signal; what Serve has returned, if it has; what the MCP session
-- has returned, if it has. Of two
-- failures `metrics_first` tells the first, and of a signal and a failure `signal_first` tells which
-- the select takes. `served` are the lines that the requests leave which the process serves, with
-- what buildServer has made.
pub record Surroundings : Type 0 where
  pub listen : Site → Result GoError Str
  pub shutdown_error : Site → RunContext → Option GoError
  pub cancelled : Bool
  pub main_ended : Option ServeError
  pub metrics_ended : Option ServeError
  pub session_ended : Option (Option GoError)
  pub metrics_first : Bool
  pub signal_first : Bool
  pub served : ServerDeps → Log

-- buildServer, which returns no error; `none` is a panic.
unfoldable pub build_server : Build → Config → Str → Process → Option (ServerDeps × Process)
build_server b cfg source p = elim (register_tools_with_source [] (some p.log)) [
  | none ↦ none
  | some (tools, log) ↦ some (
    record {
      client = record {
        max_idle_conns = 10;
        idle_conn_timeout = 90 * 1000000000;
        timeout = 30 * 1000000000;
        follows_redirects = false;
        user_agent =
            b.app_name ++ str "/" ++ b.version ++ str " (https://github.com/teran/mcp-searxng)";
      };
      base_url = cfg.searxng_url;
      tools = tools;
      source = source;
    },
    record p { log = elim log [ none ↦ p.log | some log' ↦ log' ] },
  )
]

-- serve, on the channel of the errors.
unfoldable pub serve : Option ServeError → List GoError → List GoError
serve none ch = ch
serve (some server_closed) ch = ch
serve (some (failure e)) ch = ch ++ e ∷ []

-- The first line of serve.
abbrev pub log_serving : Str → Str → Log → Log
log_serving name addr = log_info (str "Starting " ++ name ++ str " on " ++ sanitize_log addr)

-- What ends the wait of awaitAndShutdown.
pub data Wake : Type 0 where
  signalled : Wake
  server_error : GoError → Wake

-- The select of awaitAndShutdown; `none` is to wait.
unfoldable pub await_end : Surroundings → List GoError → Option Wake
await_end sur [] = if sur.cancelled then some signalled else none
await_end sur (e ∷ ch) =
    if sur.cancelled && sur.signal_first then some signalled else some (server_error e)

abbrev pub log_wake : Wake → Log → Log
log_wake signalled = log_info (str "Received shutdown signal, shutting down...")
log_wake (server_error e) = log_error (str "Server error: " ++ error_text e)

-- A call of Shutdown, with the line that an error gives.
unfoldable pub shutdown_server : Surroundings → Str → Site → RunContext → Process → Process
shutdown_server sur name site ctx p =
    let p' = act (shut_down site ctx) p in
    elim (sur.shutdown_error site ctx) [
      | none ↦ p'
      | some e ↦ say (log_error (name ++ str " server shutdown error: " ++ error_text e)) p'
    ]

-- awaitAndShutdown, after the select; it returns nil.
unfoldable pub await_and_shutdown : Surroundings → RunContext → Wake → Process → Process
await_and_shutdown sur ctx wake p =
    let p = say (log_wake wake) p in
    let shutdown_ctx = with_timeout ctx shutdown_timeout in
    let p = act limiter_stopped p in
    let p = shutdown_server sur (str "Main") main_site shutdown_ctx p in
    let p = shutdown_server sur (str "Metrics") metrics_site shutdown_ctx p in
    say (log_info (str "Server stopped gracefully")) p

module _ (U : Url) (b : Build) (cfg : Config) (sur : Surroundings) where
  -- The context of Run, at the end of the wait.
  abbrev pub run_context : RunContext
  run_context = record { cancelled = sur.cancelled; timeout = none }

  -- What the two goroutines of runHTTP have sent.
  abbrev pub sent_errors : List GoError
  sent_errors =
      if sur.metrics_first
      then serve sur.main_ended (serve sur.metrics_ended [])
      else serve sur.metrics_ended (serve sur.main_ended [])

  -- The lines of the requests that are served.
  abbrev pub say_served : ServerDeps → Process → Process
  say_served deps = say (λ log. log ++ sur.served deps)

  -- runHTTP, after buildServer; the goroutines log in either order, and the lines of the requests
  -- stand at the end of the wait.
  unfoldable pub serve_http : ServerDeps → Str → Str → Process → Outcome
  serve_http deps main_addr metrics_addr p =
      let p = say (log_startup_banner U b cfg) p in
      let p = say (log_serving (str "mcp-searxng server") main_addr) p in
      let p = say (log_serving (str "Prometheus metrics server") metrics_addr) p in
      let p = say_served deps p in
      elim (await_end sur sent_errors) [
        | none ↦ waiting p
        | some wake ↦ returned none (await_and_shutdown sur run_context wake p)
      ]

  -- runHTTP
  unfoldable pub run_http : Str → Str → Process → Outcome
  run_http main_addr metrics_addr p = elim (build_server b cfg (str "http") p) [
    | none ↦ panicked
    | some (deps, p') ↦ deferred client_closed (serve_http deps main_addr metrics_addr p')
  ]

  -- runStdio, after buildServer. What the metrics server sends is never received.
  unfoldable pub serve_stdio : ServerDeps → Str → Process → Outcome
  serve_stdio deps metrics_addr p =
      let p = say (log_startup_banner U b cfg) p in
      let p = say (log_serving (str "internal observability server") metrics_addr) p in
      let p = say_served deps p in
      elim sur.session_ended [
        | none ↦ waiting p
        | some run_error ↦
            let shutdown_ctx = with_timeout (without_cancel run_context) shutdown_timeout in
            let p = shutdown_server sur (str "Internal") metrics_site shutdown_ctx p in
            if sur.cancelled
            then returned none (say (log_info (str "Server stopped gracefully")) p)
            else returned run_error p
      ]

  -- runStdio
  unfoldable pub run_stdio : Str → Process → Outcome
  run_stdio metrics_addr p = elim (build_server b cfg (str "stdio") p) [
    | none ↦ panicked
    | some (deps, p') ↦ deferred client_closed (serve_stdio deps metrics_addr p')
  ]

  -- bindObservability
  unfoldable pub bind_observability : Process → Result GoError (Str × Process)
  bind_observability p = elim (sur.listen metrics_site) [
    | err e ↦ err (wrap (str "listen on " ++ cfg.internal_addr) e)
    | ok addr ↦ ok (
      addr,
      say (log_info (str "Internal observability listener bound on " ++ sanitize_log addr))
          (act (listened metrics_site) p),
    )
  ]

  -- Run, after the binding of the internal listener.
  unfoldable pub run_mode : Str → Process → Outcome
  run_mode metrics_addr p =
      if str_eq cfg.mode (str "stdio")
      then run_stdio metrics_addr p
      else (elim (sur.listen main_site) [
        | err e ↦ returned (some (wrap (str "listen on " ++ cfg.listen_addr) e)) p
        | ok main_addr ↦
            deferred (closed main_site)
              (run_http main_addr metrics_addr (act (listened main_site) p))
      ])

  -- Run
  unfoldable pub run : Process → Outcome
  run p = elim (bind_observability p) [
    | err e ↦ returned (some e) p
    | ok (metrics_addr, p') ↦ deferred (closed metrics_site) (run_mode metrics_addr p')
  ]
