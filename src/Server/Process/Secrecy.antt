-- ===== src/Server/Process/Secrecy.antt =====
-- The password of SEARXNG_URL, and what the process shows.
use mcp_searxng.Prelude.{◌≡◌, refl, some, ap, Result-cases, Option-cases, Bool-cases, inl, inr}
use mcp_searxng.Text.{Str, str, str_eq}
use mcp_searxng.Packages.{Url}
use mcp_searxng.Log.{Log}
use mcp_searxng.Config.{Config}
use mcp_searxng.Handlers.Redact.Structs.{KeepsUserless, SameSite}
use mcp_searxng.Handlers.Registration.{
  register_tools_with_source, register_each, register_tool, kind_named, tool_definitions,
  log_tool_surface,
}
use mcp_searxng.Server.{Build}
use mcp_searxng.Server.Banner.{banner_hides}
use mcp_searxng.Server.Process.{
  await_end, sent_errors, ServerDeps, main_site, metrics_site, closed, deferred, Process,
  Surroundings, build_server, serve_http, run_http, serve_stdio, run_stdio, bind_observability,
  run_mode, run,
}

module _ (U : Url) (b : Build) (c : Config) (url : Str) (around : Surroundings) (lines : Log)
    (keeps : KeepsUserless U) (same_site : SameSite U c.searxng_url url) where
  -- What happens around the process, where the requests that it serves leave the given lines.
  abbrev sur : Surroundings
  sur = record around { served = λ deps. lines }

  -- The configuration with another URL of the same site.
  abbrev other : Config
  other = record c { searxng_url = url }

  serve_http_same :
      (d e : ServerDeps) (main_addr metrics_addr : Str) (p : Process)
      → serve_http U b c sur d main_addr metrics_addr p
        ≡ serve_http U b other sur e main_addr metrics_addr p
  unfolding serve_http
  serve_http_same d e main_addr metrics_addr p =
      elim (Option-cases (await_end sur (sent_errors U b c sur))) [
        | inl k ↦ rw (serve_http, k, banner_hides U b c url p.log keeps same_site) refl
        | inr (wake, k) ↦ rw (serve_http, k, banner_hides U b c url p.log keeps same_site) refl
      ]

  serve_stdio_same :
      (d e : ServerDeps) (metrics_addr : Str) (p : Process)
      → serve_stdio U b c sur d metrics_addr p ≡ serve_stdio U b other sur e metrics_addr p
  unfolding serve_stdio
  serve_stdio_same d e metrics_addr p = elim (Option-cases sur.session_ended) [
    | inl k ↦ rw (serve_stdio, k, banner_hides U b c url p.log keeps same_site) refl
    | inr (result, k) ↦ elim (Bool-cases sur.cancelled) [
      | inl f ↦ rw (serve_stdio, k, f, banner_hides U b c url p.log keeps same_site) refl
      | inr f ↦ rw (serve_stdio, k, f, banner_hides U b c url p.log keeps same_site) refl
    ]
  ]

  built_same :
      (source : Str) (p : Process)
      → (d e : ServerDeps) × (q : Process) × (build_server b c source p ≡ some (d, q))
        × (build_server b other source p ≡ some (e, q))
  unfolding build_server register_tools_with_source register_each register_tool kind_named
      tool_definitions log_tool_surface str_eq
  built_same source p = (_, _, _, refl, refl)

  run_http_same :
      (main_addr metrics_addr : Str) (p : Process)
      → run_http U b c sur main_addr metrics_addr p
        ≡ run_http U b other sur main_addr metrics_addr p
  unfolding run_http
  run_http_same main_addr metrics_addr p =
      let (d, e, q, built, built') = built_same (str "http") p in
      rw (run_http, built, built', serve_http_same d e main_addr metrics_addr q) refl

  run_stdio_same :
      (metrics_addr : Str) (p : Process)
      → run_stdio U b c sur metrics_addr p ≡ run_stdio U b other sur metrics_addr p
  unfolding run_stdio
  run_stdio_same metrics_addr p =
      let (d, e, q, built, built') = built_same (str "stdio") p in
      rw (run_stdio, built, built', serve_stdio_same d e metrics_addr q) refl

  run_mode_same :
      (metrics_addr : Str) (p : Process)
      → run_mode U b c sur metrics_addr p ≡ run_mode U b other sur metrics_addr p
  unfolding run_mode
  run_mode_same metrics_addr p = elim (Bool-cases (str_eq c.mode (str "stdio"))) [
    | inl f ↦ rw (run_mode, f) (run_stdio_same metrics_addr p)
    | inr f ↦ elim (Result-cases (sur.listen main_site)) [
      | inl (main_addr, k) ↦
          rw (run_mode, f, k)
            (ap (deferred (closed main_site)) (run_http_same main_addr metrics_addr _))
      | inr (e, k) ↦ rw (run_mode, f, k) refl
    ]
  ]

  -- If dropping the user of a URL without one leaves it as it is: of two configurations that differ
  -- in SEARXNG_URL only, by URLs of the same site, Run has the same outcome, with the same effects,
  -- the same error and the same log, whatever else happens around it, where the requests that it
  -- serves leave the same lines, whichever these are. So nothing of a user or a password in the URL
  -- gets out of the process by its start and its shutdown.
  pub run_hides : (p : Process) → run U b c sur p ≡ run U b other sur p
  unfolding run bind_observability
  run_hides p = elim (Result-cases (sur.listen metrics_site)) [
    | inl (metrics_addr, k) ↦
        rw (run, bind_observability, k)
          (ap (deferred (closed metrics_site)) (run_mode_same metrics_addr _))
    | inr (e, k) ↦ rw (run, bind_observability, k) refl
  ]
