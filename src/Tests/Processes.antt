-- ===== src/Tests/Processes.antt =====
-- The process in both modes, in a surrounding in which a signal comes.
use mcp_searxng.Prelude.{◌≡◌, ◌≢◌, ◌↔◌, ◌⊎◌, ◌++◌, true, false, [], Option, none, some, ok, err}
use mcp_searxng.Text.{str, str_eq}
use mcp_searxng.Errors.{GoError, error_text}
use mcp_searxng.Log.{log_error}
use mcp_searxng.Config.{Config, load, validate}
use mcp_searxng.Config.Laws.{IsValid}
use mcp_searxng.Logging.{Logger, new}
use mcp_searxng.Handlers.Observability.{prometheus, health}
use mcp_searxng.Server.{logger_options}
use mcp_searxng.Server.Http.{http_metrics_server, stdio_metrics_server}
use mcp_searxng.Server.Http.Routes.{pprof_endpoint, internal_routes}
use mcp_searxng.Server.Process.{Surroundings, Process, Outcome, waiting, panicked, returned, run}
use mcp_searxng.Server.Process.Outcomes.{seen, table, run-table}
use mcp_searxng.Server.Process.Resources.{IsOver, started, run_returns_iff}
use mcp_searxng.Server.Main.{aborted, ran, report, main}
use mcp_searxng.Server.Main.Accepted.{IsConfigured, main_cases}
use mcp_searxng.Tests.Samples.{text_url, sample_config}
use mcp_searxng.Tests.Startups.{
  hosted_url, plain_letters, no_file, sample_ozzo, sample_ozzo-IsOzzo, legacy_only, processed,
}
use mcp_searxng.Tests.Redaction.{build}

-- Every address can be bound, no shutdown fails, and a signal comes before anything else.
abbrev pub signal_comes : Surroundings
signal_comes = record {
  listen = λ site. ok (str "127.0.0.1:1");
  shutdown_error = λ site ctx. none;
  cancelled = true;
  main_ended = none;
  metrics_ended = none;
  session_ended = none;
  metrics_first = false;
  signal_first = true;
  served = λ deps. log_error (str "search: search failed") [];
}

abbrev process_of : Outcome → Process
process_of (waiting p) = p
process_of panicked = record { effects = []; log = [] }
process_of (returned e p) = p

internal_routes_example :
    ((http_metrics_server sample_config).handler (str "GET") (str "/debug/pprof/") ≡ none)
    × ((stdio_metrics_server sample_config).handler (str "GET") (str "/metrics") ≡ some prometheus)
    × ((stdio_metrics_server sample_config).handler (str "GET") (str "/healthz") ≡ some health)
    × ((stdio_metrics_server sample_config).handler (str "GET") (str "/debug/pprof/trace")
        ≡ some (pprof_endpoint (str "trace")))
unfolding str_eq
internal_routes_example =
    internal_routes sample_config (str "GET") (str "/debug/pprof/") (str "trace")

run-table_example :
    seen (run text_url build sample_config signal_comes (record { effects = []; log = [] }))
    ≡ some (table sample_config signal_comes)
run-table_example = run-table text_url build sample_config signal_comes []

run_returns_iff_example :
    (((e : Option GoError) × (p : Process) × (started text_url build sample_config signal_comes []
          ≡ returned e p))
      ↔ IsOver sample_config signal_comes)
    × (started text_url build sample_config signal_comes [] ≢ panicked)
run_returns_iff_example = run_returns_iff text_url build sample_config signal_comes []

main_cases_example :
    let end =
      main sample_ozzo hosted_url plain_letters build signal_comes no_file processed legacy_only
        (str "http") in
    ((e : GoError) × (load sample_ozzo hosted_url plain_letters processed legacy_only ≡ err e)
      × (end ≡ aborted (str "Failed to load configuration: " ++ error_text e)))
    ⊎ ((cfg : Config) × IsConfigured sample_ozzo hosted_url plain_letters build signal_comes no_file
          processed legacy_only
          (str "http")
          cfg
        × (((e : GoError) × (validate sample_ozzo hosted_url plain_letters cfg ≡ some e)
              × (end ≡ aborted (str "Invalid configuration: " ++ error_text e)))
            ⊎ ((e : GoError) × IsValid hosted_url plain_letters cfg
                × (no_file cfg.log_filename ≢ none)
                × (end ≡ aborted (str "Failed to configure logger: " ++ error_text e)))
            ⊎ ((logger : Logger) × IsValid hosted_url plain_letters cfg
                × (new plain_letters no_file (logger_options cfg) ≡ ok logger)
                × (end
                    ≡ ran cfg logger (
                        report (
                          run hosted_url build cfg signal_comes
                            (record { effects = []; log = [] })))))))
main_cases_example =
    main_cases sample_ozzo hosted_url plain_letters build signal_comes no_file processed legacy_only
      (str "http") sample_ozzo-IsOzzo
