-- ===== src/Server.antt =====
-- cmd/server/main.go: what main makes of the configuration, for the logger and the rate limiter, and
-- the startup banner.
pub mod Startup
pub mod Banner
pub mod Http
pub mod Process
pub mod Main
pub mod Mcp
use mcp_searxng.Prelude.{true, false, ◌++◌, Option, Result, ok, err, [], if◌then◌else◌}
use mcp_searxng.Prelude.Int.{ℤ, double64}
use mcp_searxng.Text.{Str, str, str_eq}
use mcp_searxng.Errors.{GoError}
use mcp_searxng.Packages.{Url}
use mcp_searxng.Log.{Log, log_info}
use mcp_searxng.Config.{Config}
use mcp_searxng.Handlers.Sanitize.{sanitize_log}
use mcp_searxng.Handlers.Redact.{
  FieldValue, text, number, text_ptr, struct, end, field, redact_struct,
}
use mcp_searxng.Logging.{Options}
use mcp_searxng.Handlers.RateLimit.{Rate, RateLimiterConfig}

-- The -mode flag, over the configured mode.
unfoldable pub with_mode : Str → Config → Config
with_mode mode_flag cfg = if str_eq mode_flag [] then cfg else record cfg { mode = mode_flag }

-- The options that main passes to logging.New.
unfoldable pub logger_options : Config → Options
logger_options cfg = record {
  mode = cfg.mode;
  level = cfg.log_level;
  format = cfg.log_format;
  filename = cfg.log_filename;
}

-- The rate limits of buildHTTPHandler.
unfoldable pub rate_limits : (R : Rate) → Config → RateLimiterConfig R
rate_limits R cfg = record {
  global_limit = R.of_int cfg.rate_limit_global;
  global_burst = double64 cfg.rate_limit_global;
  per_client_limit = R.of_int cfg.rate_limit_per_client;
  per_client_burst = double64 cfg.rate_limit_per_client;
}

-- The variables that the build sets.
pub record Build : Type 0 where
  pub app_name : Str
  pub version : Str
  pub commit : Str
  pub date : Str

-- The configuration as a struct: every field is exported, and the URL is secret.
unfoldable pub config_value : Config → FieldValue
config_value c = struct (
    field (str "SearXNGURL") true true (text c.searxng_url) (
      field (str "ListenAddr") true false (text c.listen_addr) (
        field (str "InternalAddr") true false (text c.internal_addr) (
          field (str "RateLimitGlobal") true false (number c.rate_limit_global) (
            field (str "RateLimitPerClient") true false (number c.rate_limit_per_client) (
              field (str "WriteTimeout") true false (number c.write_timeout) (
                field (str "Mode") true false (text c.mode) (
                  field (str "LogLevel") true false (text_ptr c.log_level) (
                    field (str "LogFormat") true false (text c.log_format)
                      (field (str "LogFilename") true false (text c.log_filename) end))))))))))

-- The field SearXNGURL, which is the first, of a configuration that comes back from RedactStruct as
-- an `any`; one that is no Config gives the zero value.
unfoldable pub url_of_value : FieldValue → Str
url_of_value (struct (field name exported secret (text s) fs)) = s
url_of_value _ = []

-- logStartupBanner
unfoldable pub log_startup_banner : Url → Build → Config → Log → Log
unfolding config_value url_of_value
log_startup_banner U b cfg log =
    let redacted = url_of_value (redact_struct U (config_value cfg)) in
    let log =
      log_info
        (str "Starting "
          ++ b.app_name
          ++ str "/"
          ++ b.version
          ++ str " (commit: "
          ++ b.commit
          ++ str "; built at "
          ++ b.date
          ++ str ")")
        log in
    let log = log_info (str "SearXNG URL: " ++ sanitize_log redacted) log in
    log_info
      (str "Version: " ++ b.version ++ str ", commit: " ++ b.commit ++ str ", built: " ++ b.date)
      log
