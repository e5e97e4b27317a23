-- ===== src/Tests/Startups.antt =====
-- The start with a sample configuration.
use mcp_searxng.Prelude.{
  All, Option-cases, inl, inr, ◌-◌, ◌*◌, ◌^◌, ◌≤◌, ◌≡◌, ◌≢◌, ◌↔◌, ◌⊎◌, refl, List, [], ◌∷◌, Option,
  none, some, Result, ok, arith, if◌then◌else◌,
}
use mcp_searxng.Prelude.Int.{pos, negsuc, ltb_ℤ, ◌≤ℤ◌}
use mcp_searxng.Text.{Str, str, str_eq, str_eq_iff, index_byte}
use mcp_searxng.Errors.{GoError, other}
use mcp_searxng.Packages.{Url, Letters}
use mcp_searxng.Log
use mcp_searxng.Config.{
  Check, Ozzo, Config, validate, load, validated, with_legacy, validate_url_scheme,
  validate_url_host, validate_positive_int, validate_mode, validate_log_level, validate_log_format,
}
use mcp_searxng.Config.Laws.{IsOzzo, IsValid, validate_iff, load-ok, IsInternalAddrOf}
use mcp_searxng.Logging
use mcp_searxng.Logging.{
  Logger, Options, stdout, text, new, level_named, level_or_info, parse_level, parse_format,
  output_channel,
}
use mcp_searxng.Logging.Laws.{Written, new-ok}
use mcp_searxng.Server.{logger_options, rate_limits}
use mcp_searxng.Server.Startup.{burst_of_limit}
use mcp_searxng.Tests.Samples.{text_url, token_rate, sample_config}

-- The sample URLs have a host, and no letter has to be lowered.
abbrev pub hosted_url : Url
hosted_url = record text_url { host = λ u. str "host" }

abbrev pub plain_letters : Letters
plain_letters = record { to_lower = λ s. s; quote = λ s. s }

abbrev pub no_file : Str → Option GoError
no_file name = none

-- The first error of a struct's fields.
abbrev first_of : List Check → Check
first_of [] = none
first_of (none ∷ checks) = first_of checks
first_of (some e ∷ checks) = some e

abbrev first_error : List (Str × List Check) → Check
first_error [] = none
first_error ((name, checks) ∷ fields) = elim (first_of checks) [
  | some e ↦ some e
  | none ↦ first_error fields
]

abbrev pub sample_ozzo : Ozzo
sample_ozzo = record {
  required = λ s. if str_eq s [] then some (other (str "cannot be blank")) else none;
  min_zero = λ n. if ltb_ℤ n (pos 0) then some (other (str "must be no less than 0")) else none;
  validate_struct = first_error;
}

first_of-none :
    (checks : List Check) → (first_of checks ≡ none) ↔ All (λ (check : Check). check ≡ none) checks
first_of-none [] = (λ h. tt, λ h. refl)
first_of-none (none ∷ checks) =
    (λ h. (refl, (first_of-none checks).0 h), λ (h, k). (first_of-none checks).1 k)
first_of-none (some e ∷ checks) = (λ h. absurd (cc h), λ (h, k). absurd (cc h))

first_error-none :
    (fields : List (Str × List Check))
    → (first_error fields ≡ none)
      ↔ All (λ (f : Str × List Check). All (λ (check : Check). check ≡ none) f.1) fields
first_error-none [] = (λ h. tt, λ h. refl)
first_error-none ((name, checks) ∷ fields) = elim (Option-cases (first_of checks)) [
  | inl e ↦
      rw (e, first_error)
        (
          λ h. ((first_of-none checks).0 e, (first_error-none fields).0 h),
          λ (h, k). (first_error-none fields).1 k,
        )
  | inr (x, e) ↦
      rw (e, first_error)
        (λ h. absurd (cc h), λ (h, k). absurd (cc (e, (first_of-none checks).1 h)))
]

pub sample_ozzo-IsOzzo : IsOzzo sample_ozzo
unfolding ltb_ℤ
sample_ozzo-IsOzzo = record {
  required = λ s. ground (arith, str_eq_iff s []);
  min_zero = λ n. ground arith;
  validate_struct = first_error-none;
}

accepted : validate sample_ozzo hosted_url plain_letters sample_config ≡ none
unfolding validate validate_url_scheme validate_url_host validate_positive_int validate_mode
    validate_log_level validate_log_format parse_level level_named parse_format ltb_ℤ str_eq
    index_byte
accepted = refl

validate_iff_example :
    (validate sample_ozzo hosted_url plain_letters sample_config ≡ none)
    ↔ IsValid hosted_url plain_letters sample_config
validate_iff_example =
    validate_iff sample_ozzo sample_ozzo-IsOzzo hosted_url plain_letters sample_config

-- An environment with the legacy variable only.
abbrev pub legacy_only : Str → Str
legacy_only name = if str_eq name (str "PROMETHEUS_METRICS_ADDR") then str ":9" else []

abbrev loaded_config : Config
loaded_config = record sample_config { internal_addr = str ":9" }

-- What envconfig has read.
abbrev pub processed : Result GoError Config
processed = ok sample_config

loaded : load sample_ozzo hosted_url plain_letters processed legacy_only ≡ ok loaded_config
unfolding load validated with_legacy validate validate_url_scheme validate_url_host
    validate_positive_int validate_mode validate_log_level validate_log_format parse_level
    level_named parse_format ltb_ℤ str_eq index_byte
loaded = refl

load-ok_example :
    IsValid hosted_url plain_letters loaded_config
    × ((p : Config) × (processed ≡ ok p)
        × IsInternalAddrOf legacy_only p loaded_config.internal_addr
        × (loaded_config ≡ record p { internal_addr = loaded_config.internal_addr }))
load-ok_example =
    load-ok sample_ozzo sample_ozzo-IsOzzo hosted_url plain_letters processed legacy_only
      loaded_config loaded

abbrev warning_logger : Logger
warning_logger = record { output = stdout; formatter = text; level = Log.warn }

logger_made : new plain_letters no_file (logger_options sample_config) ≡ ok warning_logger
unfolding new logger_options parse_format level_or_info parse_level level_named output_channel
    str_eq
logger_made = refl

new-ok_example :
    Written plain_letters no_file (logger_options sample_config) warning_logger.output
    × ((((logger_options sample_config).mode ≢ str "http")
          × ((logger_options sample_config).level ≡ none)
          × (warning_logger.output ≡ Logging.discard)
          × (warning_logger.level ≡ Log.panic))
        ⊎ ((((logger_options sample_config).mode ≡ str "http")
              ⊎ ((logger_options sample_config).level ≢ none))
            × (level_or_info plain_letters (logger_options sample_config).level
                ≡ ok warning_logger.level)
            × (parse_format plain_letters (logger_options sample_config).format
                ≡ ok warning_logger.formatter)))
new-ok_example =
    new-ok plain_letters no_file (logger_options sample_config) warning_logger logger_made

burst_of_limit_example :
    ((100 ≤ 2 ^ 62 - 1) × ((rate_limits token_rate sample_config).global_burst ≡ pos (100 * 2)))
    ⊎ ((2 ^ 62 ≤ 100) × ((rate_limits token_rate sample_config).global_burst ≤ℤ negsuc 1))
burst_of_limit_example = burst_of_limit token_rate sample_config 100 refl (omega arith)
