-- ===== src/Server/Main.antt =====
-- main of cmd/server/main.go: from the configuration to Run.
pub mod Accepted
pub mod Stdio
use mcp_searxng.Prelude.{List, [], ◌++◌, Option, none, some, Result, ok, err}
use mcp_searxng.Text.{Str, str}
use mcp_searxng.Errors.{GoError, error_text}
use mcp_searxng.Packages.{Url, Letters}
use mcp_searxng.Log
use mcp_searxng.Log.{log_fields}
use mcp_searxng.Config.{Config, Ozzo, load, validate}
use mcp_searxng.Logging.{Logger, new}
use mcp_searxng.Server.{Build, with_mode, logger_options}
use mcp_searxng.Server.Process.{Surroundings, Outcome, waiting, panicked, returned, say, run}

-- How main ends: by a call of logrus.Fatalf with its text, or by what becomes of Run, with the
-- configuration and the logger that Run gets.
pub data MainEnd : Type 0 where
  aborted : Str → MainEnd
  ran : Config → Logger → Outcome → MainEnd

-- The logger.Fatalf on an error of Run.
unfoldable pub report : Outcome → Outcome
report (returned (some e) p) =
    returned (some e)
      (say (log_fields Log.fatal (str "Failed to start server: " ++ error_text e) []) p)
report (returned none p) = returned none p
report (waiting p) = waiting p
report panicked = panicked

module _ (O : Ozzo) (U : Url) (L : Letters) (b : Build) (sur : Surroundings)
    (open_file : Str → Option GoError) where
  -- main, after Load and the -mode flag.
  unfoldable pub main_configured : Config → MainEnd
  main_configured cfg = elim (validate O U L cfg) [
    | some e ↦ aborted (str "Invalid configuration: " ++ error_text e)
    | none ↦ elim (new L open_file (logger_options cfg)) [
      | err e ↦ aborted (str "Failed to configure logger: " ++ error_text e)
      | ok logger ↦ ran cfg logger (report (run U b cfg sur (record { effects = []; log = [] })))
    ]
  ]

  -- main, on what envconfig has read, the environment and the -mode flag.
  unfoldable pub main : Result GoError Config → (Str → Str) → Str → MainEnd
  main processed getenv mode_flag = elim (load O U L processed getenv) [
    | err e ↦ aborted (str "Failed to load configuration: " ++ error_text e)
    | ok cfg ↦ main_configured (with_mode mode_flag cfg)
  ]
