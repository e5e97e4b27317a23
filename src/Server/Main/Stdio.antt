-- ===== src/Server/Main/Stdio.antt =====
-- Standard output in stdio mode.
use mcp_searxng.Prelude.{
  ◌≡◌, ◌≢◌, sym, ◌∙◌, Option, none, Result, ok, arith, inl, inr, Result-cases, Option-cases,
}
use mcp_searxng.Text.{Str, str}
use mcp_searxng.Errors.{GoError}
use mcp_searxng.Packages.{Url, Letters}
use mcp_searxng.Config.{Config, Ozzo, load, validate}
use mcp_searxng.Logging.{Logger, stdout, discard, new}
use mcp_searxng.Logging.Laws.{new-ok}
use mcp_searxng.Log
use mcp_searxng.Server.{Build, with_mode, logger_options}
use mcp_searxng.Server.Process.{Surroundings, Outcome}
use mcp_searxng.Server.Main.{ran, main_configured, main}

module _ (O : Ozzo) (U : Url) (L : Letters) (b : Build) (sur : Surroundings)
    (open_file : Str → Option GoError) where
  ran_configured :
      (c cfg : Config) (logger : Logger) (o : Outcome)
      → main_configured O U L b sur open_file c ≡ ran cfg logger o
      → new L open_file (logger_options cfg) ≡ ok logger
  unfolding main_configured
  ran_configured c cfg logger o h = elim (Option-cases (validate O U L c)) [
    | inr (e, k) ↦ absurd (ground (arith, k))
    | inl k ↦ elim (Result-cases (new L open_file (logger_options c))) [
      | inr (e, m) ↦ absurd (ground (arith, k, m))
      | inl (l, m) ↦ ground (arith, k, m)
    ]
  ]

  -- A logger of Run is the one that New makes for the configuration of Run.
  ran_logger :
      (processed : Result GoError Config) (getenv : Str → Str) (mode_flag : Str) (cfg : Config)
      (logger : Logger) (o : Outcome)
      → main O U L b sur open_file processed getenv mode_flag ≡ ran cfg logger o
      → new L open_file (logger_options cfg) ≡ ok logger
  unfolding main
  ran_logger processed getenv mode_flag cfg logger o h =
      elim (Result-cases (load O U L processed getenv)) [
        | inr (e, k) ↦ absurd (ground (arith, k))
        | inl (c, k) ↦ ran_configured (with_mode mode_flag c) cfg logger o (rw (main, k) at h)
      ]

  -- If main runs the server in stdio mode, its logger does not write to standard output, which
  -- carries the protocol; without a level the logger is silent.
  pub stdio_spares_stdout :
      (processed : Result GoError Config) (getenv : Str → Str) (mode_flag : Str) (cfg : Config)
      (logger : Logger) (o : Outcome)
      → main O U L b sur open_file processed getenv mode_flag ≡ ran cfg logger o
      → cfg.mode ≡ str "stdio"
      → (logger.output ≢ stdout)
        × (cfg.log_level ≡ none → (logger.output ≡ discard) × (logger.level ≡ Log.panic))
  unfolding logger_options
  stdio_spares_stdout processed getenv mode_flag cfg logger o h stdio =
      let made = ran_logger processed getenv mode_flag cfg logger o h in
      let law = new-ok L open_file (logger_options cfg) logger made in
      let other_mode : cfg.mode ≢ str "http" = λ e. cc (sym stdio ∙ e) in
      (ground (arith, law, other_mode), ground (arith, law, other_mode))
