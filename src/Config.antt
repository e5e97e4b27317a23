-- ===== src/Config.antt =====
-- config/config.go: the configuration, its validation and its loading.
pub mod Laws
use mcp_searxng.Prelude.{
  Bool, ◌&&◌, not, List, [], ◌∷◌, ◌++◌, Option, none, some, Result, ok, err, if◌then◌else◌,
}
use mcp_searxng.Prelude.Int.{ℤ, pos, ltb_ℤ}
use mcp_searxng.Text.{Str, str, str_eq}
use mcp_searxng.Text.Decimal.{itoa}
use mcp_searxng.Errors.{GoError, other, fail}
use mcp_searxng.Packages.{Url, Letters}
use mcp_searxng.Logging.{parse_level, parse_format}

-- A time.Duration is its nanoseconds.
pub record Config : Type 0 where
  pub searxng_url : Str
  pub listen_addr : Str
  pub internal_addr : Str
  pub rate_limit_global : ℤ
  pub rate_limit_per_client : ℤ
  pub write_timeout : ℤ
  pub mode : Str
  pub log_level : Option Str
  pub log_format : Str
  pub log_filename : Str

-- The error of a rule, `none` being nil.
abbrev pub Check : Type 0
Check = Option GoError

-- validatePositiveInt
unfoldable pub validate_positive_int : ℤ → Check
validate_positive_int n =
    if ltb_ℤ n (pos 1)
    then some (other (str "must be at least 1 (got " ++ itoa n ++ str ")"))
    else none

-- The error of a result.
abbrev pub error_of {ℓ} : {A : Type ℓ} → Result GoError A → Check
error_of (ok a) = none
error_of (err e) = some e

-- ozzo-validation: Required on a string, Min with the threshold 0, and ValidateStruct over the named
-- fields, each with the results of its rules in turn.
pub record Ozzo : Type 0 where
  pub required : Str → Check
  pub min_zero : ℤ → Check
  pub validate_struct : List (Str × List Check) → Check

-- The address of the legacy variable, where the new one is not set.
unfoldable pub with_legacy : (Str → Str) → Config → Config
with_legacy getenv cfg =
    let legacy = getenv (str "PROMETHEUS_METRICS_ADDR") in
    if str_eq (getenv (str "INTERNAL_ADDR")) []
    then if str_eq legacy [] then cfg else record cfg { internal_addr = legacy }
    else cfg

module _ (L : Letters) where
  -- validateMode
  unfoldable pub validate_mode : Str → Check
  validate_mode s =
      if not (str_eq s (str "http")) && not (str_eq s (str "stdio"))
      then some (other (str "must be either \"http\" or \"stdio\" (got " ++ L.quote s ++ str ")"))
      else none

  -- validateLogLevel
  unfoldable pub validate_log_level : Option Str → Check
  unfolding parse_level
  validate_log_level none = none
  validate_log_level (some s) = error_of (parse_level L s)

  -- validateLogFormat
  unfoldable pub validate_log_format : Str → Check
  unfolding parse_format
  validate_log_format s = error_of (parse_format L s)

module _ (U : Url) (L : Letters) where
  -- validateURLScheme
  unfoldable pub validate_url_scheme : Str → Check
  validate_url_scheme s = elim (U.parse s) [
    | none ↦ some (U.parse_error s)
    | some u ↦
        if not (str_eq (U.scheme u) (str "http")) && not (str_eq (U.scheme u) (str "https"))
        then some
            (other (str "must use http or https scheme (got " ++ L.quote (U.scheme u) ++ str ")"))
        else none
  ]

  -- validateURLHost
  unfoldable pub validate_url_host : Str → Check
  validate_url_host s = elim (U.parse s) [
    | none ↦ some (U.parse_error s)
    | some u ↦
        if str_eq (U.host u) []
        then some (other (str "must include a host (e.g. http://searxng:8888)"))
        else none
  ]

module _ (O : Ozzo) (U : Url) (L : Letters) where
  -- Config.validate; `none` is nil.
  unfoldable pub validate : Config → Check
  unfolding validate_positive_int validate_mode validate_log_level validate_log_format
      validate_url_scheme validate_url_host
  validate c = O.validate_struct (
      (
        str "SearXNGURL",
        O.required c.searxng_url
            ∷ validate_url_scheme U L c.searxng_url
            ∷ validate_url_host U L c.searxng_url
            ∷ [],
      )
      ∷ (str "RateLimitGlobal", validate_positive_int c.rate_limit_global ∷ [])
      ∷ (str "RateLimitPerClient", validate_positive_int c.rate_limit_per_client ∷ [])
      ∷ (str "WriteTimeout", O.min_zero c.write_timeout ∷ [])
      ∷ (str "Mode", validate_mode L c.mode ∷ [])
      ∷ (str "LogLevel", validate_log_level L c.log_level ∷ [])
      ∷ (str "LogFormat", validate_log_format L c.log_format ∷ [])
      ∷ [])

  -- The end of Load: the configuration if it is valid.
  unfoldable pub validated : Config → Result GoError Config
  unfolding validate
  validated cfg = elim (validate cfg) [ none ↦ ok cfg | some e ↦ fail (str "config validation") e ]

  -- Load, over the result of envconfig.Process and the environment (os.Getenv).
  unfoldable pub load : Result GoError Config → (Str → Str) → Result GoError Config
  unfolding validated with_legacy
  load processed getenv = elim processed [
    | err e ↦ fail (str "config") e
    | ok cfg ↦ validated (with_legacy getenv cfg)
  ]
