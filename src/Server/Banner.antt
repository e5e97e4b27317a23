-- ===== src/Server/Banner.antt =====
-- The startup banner: what it hides of the configuration.
use mcp_searxng.Prelude.{◌≡◌}
use mcp_searxng.Text.{Str}
use mcp_searxng.Packages.{Url}
use mcp_searxng.Config.{Config}
use mcp_searxng.Log.{Log}
use mcp_searxng.Handlers.Redact.{redact_struct}
use mcp_searxng.Handlers.Redact.Structs.{
  KeepsUserless, SameSite, site, same_value, same_struct, secret, public, same_end,
  redact_struct_hides,
}
use mcp_searxng.Server.{Build, config_value, log_startup_banner}

redacted_same :
    (U : Url) (c : Config) (url : Str)
    → KeepsUserless U
    → SameSite U c.searxng_url url
    → redact_struct U (config_value c)
      ≡ redact_struct U (config_value (record c { searxng_url = url }))
unfolding config_value
redacted_same U c url keeps h =
    redact_struct_hides U keeps (config_value c) (config_value (record c { searxng_url = url })) (
      same_struct (
        secret (site h) (
          public same_value (
            public same_value (
              public same_value (
                public same_value (
                  public same_value (
                    public same_value
                      (public same_value (public same_value (public same_value same_end)))))))))))

-- If dropping the user of a URL without one leaves it as it is: two configurations that differ in
-- SEARXNG_URL only, by URLs of the same site, give the same banner, so nothing of the user or the
-- password in the URL is in the log.
pub banner_hides :
    (U : Url) (b : Build) (c : Config) (url : Str) (log : Log)
    → KeepsUserless U
    → SameSite U c.searxng_url url
    → log_startup_banner U b c log ≡ log_startup_banner U b (record c { searxng_url = url }) log
unfolding log_startup_banner
banner_hides U b c url log keeps h = rw (redacted_same U c url keeps h)
