-- ===== src/Server/Process/Outcomes.antt =====
-- Run against a table of what it returns and does to its resources in each case.
use mcp_searxng.Prelude.{
  ◌≡◌, refl, Bool, true, false, ◌||◌, List, [], ◌∷◌, ◌++◌, append_assoc, Option, none, some, ok,
  err, arith, Bool-cases, Option-cases, Result-cases, inl, inr, if◌then◌else◌,
}
use mathlib.Core.Option
use mcp_searxng.Text.{Str, str, str_eq}
use mcp_searxng.Errors.{GoError, wrap}
use mcp_searxng.Packages.{Url}
use mcp_searxng.Log.{Log}
use mcp_searxng.Config.{Config}
use mcp_searxng.Handlers.Registration.{
  register_tools_with_source, register_each, register_tool, kind_named, tool_definitions,
  log_tool_surface,
}
use mcp_searxng.Server.{Build}
use mcp_searxng.Server.Process.{
  Site, main_site, metrics_site, RunContext, shutdown_timeout, with_timeout, say, Effect, listened,
  closed, limiter_stopped, shut_down, client_closed, Process, ServeError, failure, Surroundings,
  Outcome, waiting, panicked, returned, deferred, build_server, ServerDeps, serve, Wake, await_end,
  shutdown_server, await_and_shutdown, run_context, sent_errors, serve_http, run_http, serve_stdio,
  run_stdio, bind_observability, run_mode, run,
}

-- What is seen of a run: the error or nil that it has returned, if it has, and its effects.
pub record Seen : Type 0 where
  pub result : Option (Option GoError)
  pub effects : List Effect

-- A panic is `none`.
abbrev pub seen : Outcome → Option Seen
seen (waiting p) = some (record { result = none; effects = p.effects })
seen panicked = none
seen (returned e p) = some (record { result = some e; effects = p.effects })

abbrev pub has_failed : Option ServeError → Bool
has_failed (some (failure e)) = true
has_failed _ = false

-- A shutdown in time, under a context that is cancelled already or not.
abbrev pub shutdown_at : Site → Bool → Effect
shutdown_at site gone =
    shut_down site (record { cancelled = gone; timeout = some shutdown_timeout })

-- The part of the table that follows the binding of the internal listener.
abbrev mode_table : Config → Surroundings → Seen
mode_table cfg sur =
    if str_eq cfg.mode (str "stdio")
    then (elim sur.session_ended [
      | none ↦ record { result = none; effects = listened metrics_site ∷ [] }
      | some e ↦ record {
        result = some (if sur.cancelled then none else e);
        effects =
            listened metrics_site
            ∷ shutdown_at metrics_site false
            ∷ client_closed
            ∷ closed metrics_site
            ∷ [];
      }
    ])
    else (elim (sur.listen main_site) [
      | err e ↦ record {
        result = some (some (wrap (str "listen on " ++ cfg.listen_addr) e));
        effects = listened metrics_site ∷ closed metrics_site ∷ [];
      }
      | ok addr ↦
          if sur.cancelled || has_failed sur.main_ended || has_failed sur.metrics_ended
          then record {
            result = some none;
            effects =
                listened metrics_site
                ∷ listened main_site
                ∷ limiter_stopped
                ∷ shutdown_at main_site sur.cancelled
                ∷ shutdown_at metrics_site sur.cancelled
                ∷ client_closed
                ∷ closed main_site
                ∷ closed metrics_site
                ∷ [];
          }
          else record { result = none; effects = listened metrics_site ∷ listened main_site ∷ [] }
    ])

-- In each case: what Run returns, if it does, and what it does to its resources, in order.
abbrev pub table : Config → Surroundings → Seen
table cfg sur = elim (sur.listen metrics_site) [
  | err e ↦ record {
    result = some (some (wrap (str "listen on " ++ cfg.internal_addr) e));
    effects = [];
  }
  | ok addr ↦ mode_table cfg sur
]

built :
    (b : Build) (cfg : Config) (source : Str) (p : Process)
    → (deps : ServerDeps) × (p' : Process) × (build_server b cfg source p ≡ some (deps, p'))
      × (p'.effects ≡ p.effects)
unfolding build_server register_tools_with_source register_each register_tool kind_named
    tool_definitions log_tool_surface str_eq
built b cfg source p = (_, _, refl, refl)

effects-shutdown_server :
    (sur : Surroundings) (name : Str) (site : Site) (ctx : RunContext) (p : Process)
    → (shutdown_server sur name site ctx p).effects ≡ p.effects ++ shut_down site ctx ∷ []
unfolding shutdown_server
effects-shutdown_server sur name site ctx p = ground arith

effects-await_and_shutdown :
    (sur : Surroundings) (ctx : RunContext) (wake : Wake) (p : Process)
    → (await_and_shutdown sur ctx wake p).effects
      ≡ ((p.effects ++ limiter_stopped ∷ [])
          ++ shut_down main_site (with_timeout ctx shutdown_timeout) ∷ [])
        ++ shut_down metrics_site (with_timeout ctx shutdown_timeout) ∷ []
unfolding await_and_shutdown
effects-await_and_shutdown sur ctx wake p =
    rw (effects-shutdown_server sur _ metrics_site _ _, effects-shutdown_server sur _ main_site _ _)
      refl

abbrev finish : Effect → Seen → Seen
finish effect s = elim s.result [
  | none ↦ s
  | some e ↦ record s { effects = s.effects ++ effect ∷ [] }
]

seen_deferred :
    (effect : Effect) (o : Outcome) → seen (deferred effect o) ≡ Option.map (finish effect) (seen o)
seen_deferred effect (waiting p) = refl
seen_deferred effect panicked = refl
seen_deferred effect (returned e p) = refl

seen_either :
    (gone : Bool) (e : Option GoError) (write : Log → Log) (p : Process)
    → seen (deferred client_closed (if gone then returned none (say write p) else returned e p))
      ≡ some (record {
        result = some (if gone then none else e);
        effects = p.effects ++ client_closed ∷ [];
      })
seen_either true e write p = refl
seen_either false e write p = refl

module _ (U : Url) (b : Build) (cfg : Config) (sur : Surroundings) where
  abbrev is_woken : Bool
  is_woken = sur.cancelled || has_failed sur.main_ended || has_failed sur.metrics_ended

  -- The wait of the HTTP mode ends on a signal or a failure.
  await_end-is_woken :
      (is_woken ≡ true → (wake : Wake) × (await_end sur (sent_errors U b cfg sur) ≡ some wake))
      × (is_woken ≡ false → await_end sur (sent_errors U b cfg sur) ≡ none)
  unfolding await_end serve
  await_end-is_woken = (
    λ h. elim (Option-cases (await_end sur (sent_errors U b cfg sur))) [
      | inl e ↦ absurd (ground arith)
      | inr (wake, e) ↦ (wake, e)
    ],
    λ h. ground arith,
  )

  seen-run_http :
      (main_addr metrics_addr : Str) (p : Process)
      → seen (run_http U b cfg sur main_addr metrics_addr p)
        ≡ some (
            if is_woken
            then record {
              result = some none;
              effects =
                  p.effects
                  ++ limiter_stopped
                    ∷ shutdown_at main_site sur.cancelled
                    ∷ shutdown_at metrics_site sur.cancelled
                    ∷ client_closed
                    ∷ [];
            }
            else record { result = none; effects = p.effects })
  unfolding run_http serve_http
  seen-run_http main_addr metrics_addr p =
      let (deps, p', built_ok, same) = built b cfg (str "http") p in
      elim (Bool-cases is_woken) [
        | inl h ↦
            let (wake, woken) = await_end-is_woken.0 h in
            rw
              (
                run_http,
                built_ok,
                serve_http,
                woken,
                h,
                effects-await_and_shutdown sur (run_context U b cfg sur) wake _,
                same,
              )
              (simp append_assoc)
        | inr h ↦ rw (run_http, h, built_ok, serve_http, await_end-is_woken.1 h, same) refl
      ]

  seen-run_stdio :
      (metrics_addr : Str) (p : Process)
      → seen (run_stdio U b cfg sur metrics_addr p)
        ≡ some (elim sur.session_ended [
          | none ↦ record { result = none; effects = p.effects }
          | some e ↦ record {
            result = some (if sur.cancelled then none else e);
            effects = p.effects ++ shutdown_at metrics_site false ∷ client_closed ∷ [];
          }
        ])
  unfolding run_stdio serve_stdio
  seen-run_stdio metrics_addr p =
      let (deps, p', built_ok, same) = built b cfg (str "stdio") p in
      elim (Option-cases sur.session_ended) [
        | inl e ↦ rw (run_stdio, built_ok, serve_stdio, e, same) refl
        | inr (run_error, e) ↦
            rw
              (
                run_stdio,
                built_ok,
                serve_stdio,
                e,
                seen_either sur.cancelled run_error _ _,
                effects-shutdown_server sur _ metrics_site _ _,
                same,
              )
              (simp append_assoc)
      ]

  -- Run as it is seen from outside is as in the table, in every surroundings.
  pub run-table :
      (log : Log)
      → seen (run U b cfg sur (record { effects = []; log = log })) ≡ some (table cfg sur)
  unfolding run bind_observability run_mode
  run-table log = elim (Result-cases (sur.listen metrics_site)) [
    | inr (e, h) ↦ rw (h, run, bind_observability, table) refl
    | inl (metrics_addr, h) ↦
        rw (h, run, bind_observability, table, seen_deferred, run_mode, mode_table)
          (elim (Bool-cases (str_eq cfg.mode (str "stdio"))) [
            | inl f ↦
                rw (f, seen-run_stdio)
                  (elim (Option-cases sur.session_ended) [
                    | inl k ↦ rw k refl
                    | inr (e, k) ↦ rw k refl
                  ])
            | inr f ↦ rw f (elim (Result-cases (sur.listen main_site)) [
              | inr (e, k) ↦ rw k refl
              | inl (main_addr, k) ↦
                  rw (k, seen_deferred, seen-run_http)
                    (elim (Bool-cases is_woken) [ inl w ↦ rw w refl | inr w ↦ rw w refl ])
            ])
          ])
  ]
