-- ===== src/Tests/Secrets.antt =====
-- What the process keeps to itself, and the ids that it makes.
use mcp_searxng.Prelude.{◌≡◌, ◌≢◌, refl, [], ◌∷◌, none, Result, ok}
use mcp_searxng.Text.{str, str_eq, index_byte}
use mcp_searxng.Errors.{GoError}
use mcp_searxng.Context.{hex_digit, hex_encode, make_bytes, read_random, new_request_id}
use mcp_searxng.Config.{
  Config, load, validate, validated, with_legacy, validate_url_scheme, validate_url_host,
  validate_positive_int, validate_mode, validate_log_level, validate_log_format,
}
use mcp_searxng.Prelude.Int.{ltb_ℤ}
use mcp_searxng.Log
use mcp_searxng.Log.{Log, log_error}
use mcp_searxng.Logging.{
  Logger, stdout, discard, new, level_named, level_or_info, parse_level, parse_format,
  output_channel, text,
}
use mcp_searxng.Server.{with_mode, logger_options}
use mcp_searxng.Server.Process.{Surroundings, Process, Outcome, panicked, run}
use mcp_searxng.Server.Process.Secrecy.{run_hides}
use mcp_searxng.Server.Main.{MainEnd, aborted, ran, main, main_configured}
use mcp_searxng.Server.Main.Stdio.{stdio_spares_stdout}
use mcp_searxng.Tests.Samples.{sample_config}
use mcp_searxng.Tests.Startups.{hosted_url, plain_letters, no_file, sample_ozzo, legacy_only}
use mcp_searxng.Tests.Redaction.{
  build, parts_url, parts_url-KeepsUserless, secret_config, other_password, same_site,
}
use mcp_searxng.Tests.Processes.{signal_comes}

some_id : new_request_id (0xab ∷ 7 ∷ []) ≡ str "ab070000000000000000000000000000"
unfolding new_request_id hex_encode hex_digit make_bytes read_random
some_id = refl

abbrev idle : Process
idle = record { effects = []; log = [] }

-- The line of a search that failed.
abbrev failed_line : Log
failed_line = log_error (str "search: search failed") []

-- A signal comes after a search that failed.
abbrev failed_search : Surroundings
failed_search = record signal_comes { served = λ deps. failed_line }

run_hides_example :
    run parts_url build secret_config failed_search idle
    ≡ run parts_url build (record secret_config { searxng_url = other_password }) failed_search idle
run_hides_example =
    run_hides parts_url build secret_config other_password signal_comes failed_line
      parts_url-KeepsUserless same_site idle

-- What envconfig has read, without a level.
abbrev silent : Result GoError Config
silent = ok (record sample_config { log_level = none })

abbrev stdio_end : MainEnd
stdio_end =
    main sample_ozzo hosted_url plain_letters build signal_comes no_file silent legacy_only
      (str "stdio")

abbrev stdio_config : Config
stdio_config = record sample_config {
  log_level = none;
  internal_addr = str ":9";
  mode = str "stdio";
}

abbrev silent_logger : Logger
silent_logger = record { level = Log.panic; formatter = text; output = discard }

abbrev outcome_of : MainEnd → Outcome
outcome_of (aborted what) = panicked
outcome_of (ran cfg logger o) = o

stdio_ran : stdio_end ≡ ran stdio_config silent_logger (outcome_of stdio_end)
unfolding main main_configured load validated with_legacy validate with_mode logger_options new
    validate_url_scheme validate_url_host validate_positive_int validate_mode validate_log_level
    validate_log_format parse_level level_named level_or_info parse_format output_channel ltb_ℤ
    str_eq index_byte
stdio_ran = refl

stdio_spares_stdout_example :
    (silent_logger.output ≢ stdout)
    × (stdio_config.log_level ≡ none
        → (silent_logger.output ≡ discard) × (silent_logger.level ≡ Log.panic))
stdio_spares_stdout_example =
    stdio_spares_stdout sample_ozzo hosted_url plain_letters build signal_comes no_file silent
      legacy_only (str "stdio") stdio_config silent_logger (outcome_of stdio_end) stdio_ran refl
