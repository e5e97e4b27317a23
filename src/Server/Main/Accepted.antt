-- ===== src/Server/Main/Accepted.antt =====
-- The configurations that the server runs with.
use mcp_searxng.Prelude.{
  ◌≡◌, ◌≢◌, ◌⊎◌, refl, sym, ◌∙◌, [], ◌++◌, Option, none, some, Result, ok, err, Option-cases,
  Result-cases, inl, inr,
}
use mcp_searxng.Text.{Str, str}
use mcp_searxng.Errors.{GoError, error_text}
use mcp_searxng.Packages.{Url, Letters}
use mcp_searxng.Config.{Config, Ozzo, load, validate}
use mcp_searxng.Config.Laws.{IsOzzo, IsValid, validate_iff}
use mcp_searxng.Logging.{Logger, new}
use mcp_searxng.Server.{Build, with_mode, logger_options}
use mcp_searxng.Server.Startup.{valid_config_logger}
use mcp_searxng.Server.Process.{Surroundings, run}
use mcp_searxng.Server.Main.{aborted, ran, report, main_configured, main}

module _ (O : Ozzo) (U : Url) (L : Letters) (b : Build) (sur : Surroundings)
    (open_file : Str → Option GoError) (processed : Result GoError Config) (getenv : Str → Str)
    (mode_flag : Str) where
  -- The configuration that Load returns, with the -mode flag.
  abbrev pub IsConfigured : Config → Type 0
  IsConfigured cfg =
      (c : Config) × (load O U L processed getenv ≡ ok c) × (cfg ≡ with_mode mode_flag c)

  -- If the rules of ozzo-validation work as documented, main ends in one of four ways: Load fails; the
  -- -mode flag makes the configuration invalid; the log file cannot be opened; or the server runs,
  -- with a valid configuration and the logger that New makes of it.
  pub main_cases :
      IsOzzo O
      → let end = main O U L b sur open_file processed getenv mode_flag in
        ((e : GoError) × (load O U L processed getenv ≡ err e)
          × (end ≡ aborted (str "Failed to load configuration: " ++ error_text e)))
        ⊎ ((cfg : Config) × IsConfigured cfg
            × (((e : GoError) × (validate O U L cfg ≡ some e)
                  × (end ≡ aborted (str "Invalid configuration: " ++ error_text e)))
                ⊎ ((e : GoError) × IsValid U L cfg
                    × (open_file cfg.log_filename ≢ none)
                    × (end ≡ aborted (str "Failed to configure logger: " ++ error_text e)))
                ⊎ ((logger : Logger) × IsValid U L cfg
                    × (new L open_file (logger_options cfg) ≡ ok logger)
                    × (end
                        ≡ ran cfg logger
                            (report (run U b cfg sur (record { effects = []; log = [] })))))))
  unfolding main main_configured
  main_cases rules = elim (Result-cases (load O U L processed getenv)) [
    | inr (e, h) ↦ inl (e, h, rw (main, h) refl)
    | inl (c, h) ↦
        let cfg = with_mode mode_flag c in
        inr (
          cfg,
          (c, h, refl),
          elim (Option-cases (validate O U L cfg)) [
            | inr (e, k) ↦ inl (e, k, rw (main, h, main_configured, k) refl)
            | inl k ↦
                let valid = (validate_iff O rules U L cfg).0 k in
                elim (Result-cases (new L open_file (logger_options cfg))) [
                  | inr (e, m) ↦ inr (
                      inl (
                        e,
                        valid,
                        λ o.
                            let (logger, made) =
                              valid_config_logger O U L open_file cfg rules k o in
                            cc (sym m ∙ made),
                        rw (main, h, main_configured, k, m) refl,
                      ))
                  | inl (logger, m) ↦
                      inr (inr (logger, valid, m, rw (main, h, main_configured, k, m) refl))
                ]
          ],
        )
  ]
