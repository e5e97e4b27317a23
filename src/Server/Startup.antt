-- ===== src/Server/Startup.antt =====
-- The start of the server with a configuration that the validation has accepted.
use mcp_searxng.Prelude.{
  ℕ, ◌-◌, ◌*◌, ◌^◌, ◌≤◌, ◌≡◌, ◌⊎◌, refl, inl, inr, ◌||◌, [], Option, none, some, ok, arith,
  Bool-cases,
}
use mcp_searxng.Prelude.Int.{pos, negsuc, double64, ◌≤ℤ◌}
use mcp_searxng.Text.{Str, str, str_eq}
use mcp_searxng.Errors.{GoError}
use mcp_searxng.Packages.{Url, Letters}
use mcp_searxng.Config.{Config, Ozzo, validate}
use mcp_searxng.Config.Laws.{IsOzzo, validate_iff, IsKnownLevel}
use mcp_searxng.Logging.{
  text, Logger, Options, Output, stdout, discard, file, level_or_info, output_channel, is_given,
  new,
}
use mcp_searxng.Log
use mcp_searxng.Log.{Level}
use mcp_searxng.Handlers.RateLimit.{Rate}
use mcp_searxng.Server.{logger_options, rate_limits}

module _ (L : Letters) where
  level_of_known :
      (s : Option Str) → IsKnownLevel L s → (level : Level) × (level_or_info L s ≡ ok level)
  unfolding level_or_info
  level_of_known none h = (Log.info, refl)
  level_of_known (some s) h = h

opened :
    (open_file : Str → Option GoError) (opts : Options)
    → open_file opts.filename ≡ none
    → (output : Output) × (output_channel open_file opts ≡ ok output)
unfolding output_channel
opened open_file opts h = elim (Bool-cases (str_eq opts.filename [])) [
  | inr named ↦ (file opts.filename, ground arith)
  | inl unnamed ↦ elim (Bool-cases (str_eq opts.mode (str "http"))) [
    | inl web ↦ (stdout, ground arith)
    | inr stdio ↦ (discard, ground arith)
  ]
]

-- If ozzo-validation's rules work as documented: with a configuration that the validation accepts
-- and a log file that can be opened, logging.New returns a logger.
pub valid_config_logger :
    (O : Ozzo) (U : Url) (L : Letters) (open_file : Str → Option GoError) (c : Config)
    → IsOzzo O
    → validate O U L c ≡ none
    → open_file c.log_filename ≡ none
    → (logger : Logger) × (new L open_file (logger_options c) ≡ ok logger)
unfolding new logger_options
valid_config_logger O U L open_file c rules h o =
    let valid = (validate_iff O rules U L c).0 h in
    let (formatter, f) = valid.log_format in
    let (level, g) = level_of_known L c.log_level valid.log_level in
    let (output, k) = opened open_file (logger_options c) o in
    elim (Bool-cases (str_eq c.mode (str "http") || is_given c.log_level)) [
      | inl on ↦ (record { output = output; formatter = formatter; level = level }, ground arith)
      | inr off ↦ (record { output = discard; formatter = text; level = Log.panic }, ground arith)
    ]

-- The burst of a valid limit of 64 bits is twice the limit up to 2 ^ 62 - 1; above, the product
-- wraps to a negative number, which NewRateLimiter takes for a burst that is not configured.
pub burst_of_limit :
    (R : Rate) (c : Config) (n : ℕ)
    → c.rate_limit_global ≡ pos n
    → n ≤ 2 ^ 63 - 1
    → ((n ≤ 2 ^ 62 - 1) × ((rate_limits R c).global_burst ≡ pos (n * 2)))
      ⊎ ((2 ^ 62 ≤ n) × ((rate_limits R c).global_burst ≤ℤ negsuc 1))
unfolding rate_limits double64
burst_of_limit R c n e h = ground arith
