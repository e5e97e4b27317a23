-- ===== src/Handlers/Middleware/Flight.antt =====
-- The middleware chain cut where other requests can come between: a request enters, asks the rate
-- limiter, and is in flight until it is done.
use mcp_searxng.Prelude.{
  ◌+◌, ◌-◌, ◌≡◌, ◌⊎◌, refl, ap, ◌∙◌, inl, inr, Bool, true, false, [], ◌∷◌, none, ok, if◌then◌else◌,
  Option-cases, Result-cases,
}
use mcp_searxng.Prelude.Int.{pos}
use mcp_searxng.Text.{Str, str}
use mcp_searxng.Log
use mcp_searxng.Log.{Log, text, log_fields}
use mcp_searxng.Handlers.Sanitize.{sanitize_log}
use mcp_searxng.Handlers.ClientIp.{Request, extract_client_ip, client_ip_middleware}
use mcp_searxng.Handlers.RateLimit.{Rate, allow_request}
use mcp_searxng.Handlers.Middleware.{
  default_max_request_body_size, JsonRpc, check_batch_size, WriterCall, ServerCall, http_error,
  Handler, recovery_middleware, metrics_middleware, rate_limit_middleware, body_limit_middleware,
  logging_middleware, serve_read, serve_checked, mcp_handler, Web, Moments, build_http_handler,
}
use mcp_searxng.Handlers.Middleware.Chain.{served, handled, body_read}

module _ (J : JsonRpc) (R : Rate) {S : Type 0} (t : Moments)
    (base : Handler WriterCall (Log × S)) where
  -- MetricsMiddleware counts the request up, and RateLimitMiddleware calls Allow.
  unfoldable pub begin : Request → Web R S → Bool × Web R S
  begin r web =
      let (admitted, limiter) = allow_request R web.limiter t.limits (extract_client_ip r) in
      (admitted, record web { active = web.active + 1; limiter = limiter })

  -- What RateLimitMiddleware does with the answer: the refusal, or the handlers behind it.
  unfoldable pub decided_handler : Bool → Handler ServerCall (Web R S)
  decided_handler admitted r web =
      if admitted
      then body_limit_middleware default_max_request_body_size
          (logging_middleware J R t (λ q. mcp_handler J R t base (client_ip_middleware q))) r web
      else (
        record { calls = http_error (str "Too Many Requests") (pos 429) ∷ []; panicked = none },
        record web {
          log =
              log_fields Log.warn (str "rate_limit exceeded")
                ((str "client_ip", text (sanitize_log (extract_client_ip r)))
                  ∷ (str "http_method", text (sanitize_log r.method))
                  ∷ [])
                web.log;
        },
      )

  -- The deferred Dec of MetricsMiddleware, inside RecoveryMiddleware.
  unfoldable pub finish : Bool → Handler ServerCall (Web R S)
  unfolding decided_handler
  finish admitted r web =
      recovery_middleware J R t
        (λ q w.
          let (answer, w') = decided_handler admitted q w in
          (answer, record w' { active = w'.active - 1 }))
        r web

  -- Without another request in between, the two are the whole chain.
  pub begin-finish :
      (r : Request) (web : Web R S)
      → served J R t base r web ≡ finish (begin r web).0 r (begin r web).1
  unfolding build_http_handler recovery_middleware metrics_middleware rate_limit_middleware begin
      finish decided_handler
  begin-finish r web = refl

  recovered :
      (next : Handler ServerCall (Web R S)) (r : Request) (web : Web R S)
      → ((recovery_middleware J R t next r web).1.limiter ≡ (next r web).1.limiter)
        × ((recovery_middleware J R t next r web).1.active ≡ (next r web).1.active)
        × ((recovery_middleware J R t next r web).1.inner ≡ (next r web).1.inner)
  unfolding recovery_middleware
  recovered next r web = elim (Option-cases (next r web).0.panicked) [
    | inl e ↦ rw (recovery_middleware, e) (refl, refl, refl)
    | inr (what, e) ↦ rw (recovery_middleware, e) (refl, refl, refl)
  ]

  -- What an admitted request does to the state of the MCP handler.
  abbrev pub Reached : Request → Web R S → Web R S → Type 0
  Reached r web after =
      (body : Str) × (body_read J R t base r web ≡ ok body)
      × (check_batch_size J body ≡ none)
      × (after.inner ≡ (handled J R t base r web body).1.1)

  decided_handler_lem :
      (admitted : Bool) (r : Request) (web : Web R S)
      → let after = (decided_handler admitted r web).1 in
        (after.limiter ≡ web.limiter)
        × (after.active ≡ web.active)
        × ((after.inner ≡ web.inner) ⊎ ((admitted ≡ true) × Reached r web after))
  unfolding decided_handler body_limit_middleware logging_middleware serve_read serve_checked
      mcp_handler
  decided_handler_lem false r web = (refl, refl, inl refl)
  decided_handler_lem true r web = elim (Result-cases (body_read J R t base r web)) [
    | inr (e, h) ↦ rw h (refl, refl, inl refl)
    | inl (body, h) ↦ elim (Option-cases (check_batch_size J body)) [
      | inr (e, k) ↦ rw (h, k) (refl, refl, inl refl)
      | inl k ↦ elim (Option-cases (handled J R t base r web body).0.panicked) [
        | inl p ↦ rw (h, k, serve_checked, p) (refl, refl, inr (refl, (body, refl, k, refl)))
        | inr (what, p) ↦
            rw (h, k, serve_checked, p) (refl, refl, inr (refl, (body, refl, k, refl)))
      ]
    ]
  ]

  -- The end of a request does not touch the rate limiter, and counts the gauge down; the MCP handler's
  -- state changes by its own doing only, for a request that was admitted.
  pub finish_lem :
      (admitted : Bool) (r : Request) (web : Web R S)
      → let after = (finish admitted r web).1 in
        (after.limiter ≡ web.limiter)
        × (after.active ≡ web.active - 1)
        × ((after.inner ≡ web.inner) ⊎ ((admitted ≡ true) × Reached r web after))
  unfolding finish
  finish_lem admitted r web =
      let (limiter, active, inner) =
        recovered
          (λ q w.
            let (answer, w') = decided_handler admitted q w in
            (answer, record w' { active = w'.active - 1 }))
          r web in
      let (same, kept, cases) = decided_handler_lem admitted r web in
      (
        limiter ∙ same,
        active ∙ ap (λ n. n - 1) kept,
        elim cases [
          | inl still ↦ inl (inner ∙ still)
          | inr (yes_said, (body, h, k, reached)) ↦ inr (yes_said, (body, h, k, inner ∙ reached))
        ],
      )
