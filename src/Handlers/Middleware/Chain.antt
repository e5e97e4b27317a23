-- ===== src/Handlers/Middleware/Chain.antt =====
-- The middleware chain of buildHTTPHandler as a whole: who is let through, and what every request
-- leaves behind.
use mcp_searxng.Prelude.{
  ℕ, ◌+◌, ◌≤◌, ◌≡◌, ◌≢◌, ◌⊎◌, refl, ap, sym, subst, ◌∙◌, inl, inr, Bool, true, false, List, [], ◌∷◌,
  ◌++◌, none, some, Result, ok, err, arith, map, length, Bool-cases, Option-cases, Result-cases,
}
use mcp_searxng.Prelude.Int.{ℤ, pos}
use mcp_searxng.Text.{Str, str}
use mcp_searxng.Errors.{GoError, error_text}
use mcp_searxng.Packages.{Body, read_all}
use mcp_searxng.Log
use mcp_searxng.Log.{Log, Value, text, log_fields}
use mcp_searxng.Handlers.Sanitize.{sanitize_log}
use mcp_searxng.Handlers.ClientIp.{Request, extract_client_ip, client_ip_middleware}
use mcp_searxng.Handlers.RateLimit.{Rate, RateLimiter, allow_request}
use mcp_searxng.Handlers.Middleware.{
  default_max_request_body_size, JsonRpc, check_batch_size, mcp_request_method, WriterCall,
  ServerCall, direct, http_error, Answer, Handler, LoggingResponseWriter, record_calls,
  max_bytes_reader, recovery_middleware, metrics_middleware, rate_limit_middleware,
  body_limit_middleware, logging_middleware, serve_read, serve_checked, mcp_handler, request_fields,
  Web, Moments, build_http_handler,
}

-- A body that could be read under a limit is the whole body that was sent, within the limit.
pub read_all-max_bytes_reader :
    (limit : ℕ) (b : Body) (s : Str)
    → read_all (max_bytes_reader limit b) ≡ ok s
    → (s ≡ b.bytes) × (b.fault ≡ none) × (length s ≤ limit)
read_all-max_bytes_reader limit b s h = ground arith

module _ (J : JsonRpc) (R : Rate) {S : Type 0} (t : Moments) (base : Handler WriterCall (Log × S))
    (r : Request) (web : Web R S) where
  abbrev pub Outcome : Type 0
  Outcome = Answer ServerCall × Web R S

  -- The request served by the whole chain.
  abbrev pub served : Outcome
  served = build_http_handler J R t base r web

  -- The rate limiter's decision on the request.
  abbrev pub decided : Bool × RateLimiter R
  decided = allow_request R web.limiter t.limits (extract_client_ip r)

  -- What is read of the body.
  abbrev pub body_read : Result GoError Str
  body_read = read_all (max_bytes_reader default_max_request_body_size r.body)

  -- The MCP handler's turn, on the body that was read and with the client's address in the context.
  abbrev pub handled : Str → Answer WriterCall × (Log × S)
  handled body =
      base (client_ip_middleware (record r { body = record { bytes = body; fault = none } }))
        (web.log, web.inner)

  -- A request that the MCP handler never sees: one answer, one line in the log.
  abbrev pub Stopped : Outcome → Str → ℤ → Log → Type 0
  Stopped z message status log =
      (z.0.calls ≡ http_error message status ∷ []) × (z.1.log ≡ log) × (z.1.inner ≡ web.inner)

  abbrev pub method_of : Str → Str
  method_of body = sanitize_log (mcp_request_method J body)

  -- The line of a request that was limited, that could not be read, or that held too large a batch.
  abbrev pub limited_log : Log
  limited_log =
      log_fields Log.warn (str "rate_limit exceeded")
        ((str "client_ip", text (sanitize_log (extract_client_ip r)))
          ∷ (str "http_method", text (sanitize_log r.method))
          ∷ [])
        web.log

  abbrev pub unreadable_log : GoError → Log
  unreadable_log e =
      log_fields Log.error (str "mcp_log request_error=read_body")
        ((str "error", text (error_text e)) ∷ []) web.log

  abbrev pub request_log : Str → LoggingResponseWriter → Log → Log
  request_log body lrw log =
      log_fields Log.info (str "mcp_log")
        (request_fields r (method_of body) t.took (length body) lrw) log

  abbrev pub panic_log : Str → Log → Log
  panic_log what log =
      log_fields Log.error (str "panic recovered") ((str "panic", text (sanitize_log what)) ∷ [])
        log

  -- The recording writer after a handler's calls.
  abbrev pub recorded : List WriterCall → LoggingResponseWriter
  recorded calls = record_calls calls (record { status_code = pos 200; body_size = 0 })

  -- A request that the MCP handler has handled, with the status and size that its calls on the
  -- writer have, or that it has given up by a panic.
  abbrev pub Passed : Outcome → Str → Type 0
  Passed z body =
      (z.1.inner ≡ (handled body).1.1)
      × ((((handled body).0.panicked ≡ none)
            × (z.0.calls ≡ map direct (handled body).0.calls)
            × (z.1.log ≡ request_log body (recorded (handled body).0.calls) (handled body).1.0))
          ⊎ ((what : Str) × ((handled body).0.panicked ≡ some what)
              × (z.0.calls
                  ≡ map direct (handled body).0.calls
                    ++ http_error (str "Internal Server Error") (pos 500) ∷ [])
              × (z.1.log ≡ panic_log what (handled body).1.0)))

  -- What every request leaves: no panic, the gauge as it was, the rate limiter asked once.
  abbrev pub Settled : Outcome → Type 0
  Settled z = (z.0.panicked ≡ none) × (z.1.active ≡ web.active) × (z.1.limiter ≡ decided.1)

  -- The state inside the metrics middleware, and what the two outer ones make of what comes back.
  abbrev entered : Web R S
  entered = record web { active = web.active + 1 }

  abbrev outer : Outcome → Outcome
  outer z = recovery_middleware J R t (metrics_middleware J R t (λ q w. z)) r web

  abbrev logged : Handler ServerCall (Web R S)
  logged =
      body_limit_middleware default_max_request_body_size
        (logging_middleware J R t (λ q. mcp_handler J R t base (client_ip_middleware q)))

  served-outer : served ≡ outer (rate_limit_middleware J R t logged r entered)
  unfolding build_http_handler recovery_middleware metrics_middleware
  served-outer = refl

  rate_limited :
      decided.0 ≡ false
      → rate_limit_middleware J R t logged r entered ≡ (
        record { calls = http_error (str "Too Many Requests") (pos 429) ∷ []; panicked = none },
        record entered { limiter = decided.1; log = limited_log },
      )
  unfolding rate_limit_middleware
  rate_limited d = rw d refl

  rate_admitted :
      decided.0 ≡ true
      → rate_limit_middleware J R t logged r entered
        ≡ logged r (record entered { limiter = decided.1 })
  unfolding rate_limit_middleware
  rate_admitted d = rw d refl

  abbrev handler : Handler WriterCall (Web R S)
  handler q = mcp_handler J R t base (client_ip_middleware q)

  -- The request with the body limit set, and the state behind the rate limiter.
  abbrev limited_request : Request
  limited_request = record r { body = max_bytes_reader default_max_request_body_size r.body }

  abbrev admitted : Web R S
  admitted = record entered { limiter = decided.1 }

  logged_unread :
      (e : GoError)
      → body_read ≡ err e
      → logged r admitted ≡ serve_read J R t handler limited_request admitted (err e)
  unfolding body_limit_middleware logging_middleware
  logged_unread e h = ap (serve_read J R t handler limited_request admitted) h

  logged_read :
      (body : Str)
      → body_read ≡ ok body
      → logged r admitted
        ≡ serve_checked J R t handler limited_request admitted body (check_batch_size J body)
  unfolding body_limit_middleware logging_middleware serve_read
  logged_read body h = ap (serve_read J R t handler limited_request admitted) h

  limited :
      decided.0 ≡ false
      → Settled served × Stopped served (str "Too Many Requests") (pos 429) limited_log
  unfolding recovery_middleware metrics_middleware
  limited d =
      subst (λ (z : Outcome). Settled z × Stopped z (str "Too Many Requests") (pos 429) limited_log)
        (sym (served-outer ∙ ap outer (rate_limited d)))
        ((refl, omega arith, refl), (refl, refl, refl))

  unreadable :
      (e : GoError)
      → decided.0 ≡ true
      → body_read ≡ err e
      → Settled served × Stopped served (str "Request body too large") (pos 413) (unreadable_log e)
  unfolding recovery_middleware metrics_middleware serve_read
  unreadable e d h =
      subst
        (λ (z : Outcome).
          Settled z × Stopped z (str "Request body too large") (pos 413) (unreadable_log e))
        (sym (served-outer ∙ ap outer (rate_admitted d ∙ logged_unread e h)))
        ((refl, omega arith, refl), (refl, refl, refl))

  oversized :
      (body : Str) (e : GoError)
      → decided.0 ≡ true
      → body_read ≡ ok body
      → check_batch_size J body ≡ some e
      → Settled served
        × Stopped served
            (error_text e)
            (pos 400)
            (request_log body (record { status_code = pos 400; body_size = 0 }) web.log)
  unfolding recovery_middleware metrics_middleware serve_checked
  oversized body e d h k =
      subst
        (λ (z : Outcome).
          Settled z
          × Stopped z (error_text e) (pos 400)
              (request_log body (record { status_code = pos 400; body_size = 0 }) web.log))
        (sym (
          served-outer
          ∙ ap outer (
              rate_admitted d
              ∙ logged_read body h
              ∙ ap (serve_checked J R t handler limited_request admitted body) k)))
        ((refl, omega arith, refl), (refl, refl, refl))

  passed :
      (body : Str)
      → decided.0 ≡ true
      → body_read ≡ ok body
      → check_batch_size J body ≡ none
      → Settled served × Passed served body
  unfolding recovery_middleware metrics_middleware serve_checked mcp_handler
  passed body d h k =
      subst (λ (z : Outcome). Settled z × Passed z body)
        (sym (
          served-outer
          ∙ ap outer (
              rate_admitted d
              ∙ logged_read body h
              ∙ ap (serve_checked J R t handler limited_request admitted body) k)))
        (elim (Option-cases (handled body).0.panicked) [
          | inl e ↦ rw e ((refl, omega arith, refl), (refl, inl (refl, refl, refl)))
          | inr (what, e) ↦ rw e ((refl, omega arith, refl), (refl, inr (what, refl, refl, refl)))
        ])

  pub serve_cases :
      Settled served
      × (((decided.0 ≡ false) × Stopped served (str "Too Many Requests") (pos 429) limited_log)
          ⊎ (((decided.0 ≡ true)
                × ((e : GoError) × (body_read ≡ err e)
                    × Stopped served (str "Request body too large") (pos 413) (unreadable_log e)))
              ⊎ ((decided.0 ≡ true)
                  × ((body : Str) × (body_read ≡ ok body)
                      × (((e : GoError) × (check_batch_size J body ≡ some e)
                            × Stopped served (error_text e) (pos 400) (
                                request_log body
                                  (record { status_code = pos 400; body_size = 0 })
                                  web.log))
                          ⊎ ((check_batch_size J body ≡ none) × Passed served body))))))
  serve_cases = elim (Bool-cases decided.0) [
    | inr d ↦ let (s, z) = limited d in (s, inl (d, z))
    | inl d ↦ elim (Result-cases body_read) [
      | inr (e, h) ↦ let (s, z) = unreadable e d h in (s, inr (inl (d, (e, h, z))))
      | inl (body, h) ↦ elim (Option-cases (check_batch_size J body)) [
        | inr (e, k) ↦
            let (s, z) = oversized body e d h k in (s, inr (inr (d, (body, h, inl (e, k, z)))))
        | inl k ↦ let (s, z) = passed body d h k in (s, inr (inr (d, (body, h, inr (k, z)))))
      ]
    ]
  ]

  -- The MCP handler's state changes only through a request that the rate limiter admitted, with a
  -- body of at most 1 MB that was read in full and is no batch of too many requests; the change is
  -- that of the MCP handler on this body, with the client's address in the context.
  pub inner_guarded :
      served.1.inner ≢ web.inner
      → (decided.0 ≡ true)
        × (r.body.fault ≡ none)
        × (length r.body.bytes ≤ default_max_request_body_size)
        × (check_batch_size J r.body.bytes ≡ none)
        × (served.1.inner ≡ (handled r.body.bytes).1.1)
  inner_guarded changed = elim (serve_cases.1) [
    | inl (_, (_, _, same)) ↦ absurd (changed same)
    | inr (inl (_, (_, _, (_, _, same)))) ↦ absurd (changed same)
    | inr (inr (_, (_, _, inl (_, _, (_, _, same))))) ↦ absurd (changed same)
    | inr (inr (d, (body, h, inr (k, z)))) ↦
        let (whole, sound, bounded) =
          read_all-max_bytes_reader default_max_request_body_size r.body body h in
        (
          d,
          sound,
          subst (λ (s : Str). length s ≤ default_max_request_body_size) whole bounded,
          subst (λ (s : Str). check_batch_size J s ≡ none) whole k,
          subst (λ (s : Str). served.1.inner ≡ (handled s).1.1) whole z.0,
        )
  ]
