-- ===== src/Handlers/Middleware.antt =====
-- handlers/middleware.go, RateLimitMiddleware of handlers/ratelimit.go and MetricsMiddleware of
-- handlers/metrics.go: functions from handlers to handlers, as buildHTTPHandler composes them.
pub mod Chain
pub mod Recording
pub mod OneLine
pub mod Flight
pub mod Life
use mcp_searxng.Prelude.{
  ℕ, zero, suc, ◌+◌, ◌-◌, ◌≤◌, Bool, true, false, ◌&&◌, List, [], ◌∷◌, ◌++◌, Option, none, some,
  Result, ok, err, map, ltb, leb, length, take, if◌then◌else◌,
}
use mcp_searxng.Prelude.Int.{ℤ, pos}
use mcp_searxng.Text.{Str, str, str_eq, begins_with}
use mcp_searxng.Text.Trim.{trim_left_space}
use mcp_searxng.Text.Decimal.{itoa}
use mcp_searxng.Errors.{GoError, other, error_text}
use mcp_searxng.Packages.{Body, read_all}
use mcp_searxng.Log.{Log, Value, text, number, duration, log_fields}
use mcp_searxng.Log
use mcp_searxng.Handlers.Sanitize.{sanitize_log}
use mcp_searxng.Handlers.ClientIp.{Request, extract_client_ip, client_ip_middleware}
use mcp_searxng.Handlers.RateLimit.{Rate, Readings, RateLimiter, allow_request}

-- DefaultMaxRequestBodySize, MaxBatchSize
abbrev pub default_max_request_body_size : ℕ
default_max_request_body_size = 1048576

abbrev pub max_batch_size : ℕ
max_batch_size = 100

-- encoding/json on a JSON-RPC body: the length of the batch that it decodes to, 0 where it is no
-- array, and its method and params.name, `none` where it is malformed.
pub record JsonRpc : Type 0 where
  pub batch_length : Str → ℕ
  pub unmarshal_call : Str → Option (Str × Str)

module _ (J : JsonRpc) where
  -- checkBatchSize; `none` is nil.
  unfoldable pub check_batch_size : Str → Option GoError
  check_batch_size body =
      let trimmed = trim_left_space body in
      let size = J.batch_length trimmed in
      if begins_with b'[' trimmed
      then if ltb max_batch_size size
        then some (
            other (
              str "batch size "
              ++ itoa (pos size)
              ++ str " exceeds maximum of "
              ++ itoa (pos max_batch_size)))
        else none
      else none

  -- mcpRequestMethod
  unfoldable pub mcp_request_method : Str → Str
  mcp_request_method body =
      if str_eq body [] then str "empty_body" else elim (J.unmarshal_call body) [
        | none ↦ str "parse_error"
        | some (method, name) ↦
            if str_eq method (str "tools/call")
            then if str_eq name [] then method else name
            else if str_eq method []
            then str "no_method"
            else method
      ]

-- A call of a handler on its http.ResponseWriter; a Write comes with the number of bytes that were
-- taken.
pub data WriterCall : Type 0 where
  write_header : ℤ → WriterCall
  write : Str → ℕ → WriterCall

-- What the server's writer gets: the calls of a handler, and those of http.Error.
pub data ServerCall : Type 0 where
  direct : WriterCall → ServerCall
  http_error : Str → ℤ → ServerCall

-- What a handler does: its calls on the writer, and the text of the value that it panics with, if it
-- does not return.
pub record Answer (C : Type 0) : Type 0 where
  pub calls : List C
  pub panicked : Option Str

abbrev pub Handler : Type 0 → Type 0 → Type 0
Handler C S = Request → S → Answer C × S

-- loggingResponseWriter, without the writer that it wraps: its calls go on to that one.
pub record LoggingResponseWriter : Type 0 where
  pub status_code : ℤ
  pub body_size : ℕ

-- loggingResponseWriter.WriteHeader and Write
unfoldable pub record_call : WriterCall → LoggingResponseWriter → LoggingResponseWriter
record_call (write_header code) lrw = record lrw { status_code = code }
record_call (write bytes n) lrw = record lrw { body_size = lrw.body_size + n }

unfoldable pub record_calls : List WriterCall → LoggingResponseWriter → LoggingResponseWriter
unfolding record_call
record_calls [] lrw = lrw
record_calls (c ∷ cs) lrw = record_calls cs (record_call c lrw)

-- http.MaxBytesReader: a body above the limit ends with an error.
abbrev pub max_bytes_reader : ℕ → Body → Body
max_bytes_reader limit body = if leb (length body.bytes) limit then body else record {
  bytes = take limit body.bytes;
  fault = some (other (str "http: request body too large"));
}

-- BodyLimitMiddleware
unfoldable pub body_limit_middleware : {C S : Type 0} → ℕ → Handler C S → Handler C S
body_limit_middleware max_bytes next r =
    next (record r { body = max_bytes_reader max_bytes r.body })

-- The line that LoggingMiddleware logs.
abbrev pub request_fields : Request → Str → ℕ → ℕ → LoggingResponseWriter → List (Str × Value)
request_fields r method took req_size lrw =
    (str "http_method", text (sanitize_log r.method))
    ∷ (str "path", text (sanitize_log r.path))
    ∷ (str "method", text method)
    ∷ (str "duration", duration took)
    ∷ (str "req_size", number (pos req_size))
    ∷ (str "resp_size", number (pos lrw.body_size))
    ∷ (str "status", number lrw.status_code)
    ∷ []

-- The state of the server: the rate limiter, the gauge of active requests, the log, and what the
-- MCP handler keeps.
pub record Web (R : Rate) (S : Type 0) : Type 0 where
  pub limiter : RateLimiter R
  pub active : ℕ
  pub log : Log
  pub inner : S

-- The readings of the clock during one request.
pub record Moments : Type 0 where
  pub limits : Readings
  pub took : ℕ

module _ (J : JsonRpc) (R : Rate) {S : Type 0} (t : Moments) where
  -- The MCP handler, which logs to the same log.
  unfoldable pub mcp_handler : Handler WriterCall (Log × S) → Handler WriterCall (Web R S)
  mcp_handler base r web =
      let (answer, (log, inner)) = base r (web.log, web.inner) in
      (answer, record web { log = log; inner = inner })

  -- The rest of LoggingMiddleware, after the check of the batch: the refusal, or the next handler and
  -- the line, which a panic skips.
  unfoldable pub serve_checked :
      Handler WriterCall (Web R S)
      → Request
      → Web R S
      → Str
      → Option GoError
      → Answer ServerCall × Web R S
  unfolding record_calls
  serve_checked next r web body (some e) =
      let method = sanitize_log (mcp_request_method J body) in
      (
        record { calls = http_error (error_text e) (pos 400) ∷ []; panicked = none },
        record web {
          log =
              log_fields Log.info (str "mcp_log")
                (request_fields r method t.took (length body)
                  (record { status_code = pos 400; body_size = 0 }))
                web.log;
        },
      )
  serve_checked next r web body none =
      let method = sanitize_log (mcp_request_method J body) in
      let (answer, web') = next (record r { body = record { bytes = body; fault = none } }) web in
      let lrw = record_calls answer.calls (record { status_code = pos 200; body_size = 0 }) in
      (
        record { calls = map direct answer.calls; panicked = answer.panicked },
        elim answer.panicked [
          | some what ↦ web'
          | none ↦ record web' {
            log =
                log_fields Log.info (str "mcp_log")
                  (request_fields r method t.took (length body) lrw) web'.log;
          }
        ],
      )

  -- The rest of LoggingMiddleware, after the reading of the body.
  unfoldable pub serve_read :
      Handler WriterCall (Web R S)
      → Request
      → Web R S
      → Result GoError Str
      → Answer ServerCall × Web R S
  unfolding serve_checked
  serve_read next r web (err e) = (
    record { calls = http_error (str "Request body too large") (pos 413) ∷ []; panicked = none },
    record web {
      log =
          log_fields Log.error (str "mcp_log request_error=read_body")
            ((str "error", text (error_text e)) ∷ []) web.log;
    },
  )
  serve_read next r web (ok body) = serve_checked next r web body (check_batch_size J body)

  -- LoggingMiddleware
  unfoldable pub logging_middleware : Handler WriterCall (Web R S) → Handler ServerCall (Web R S)
  unfolding serve_read
  logging_middleware next r web = serve_read next r web (read_all r.body)

  -- RateLimitMiddleware
  unfoldable pub rate_limit_middleware : Handler ServerCall (Web R S) → Handler ServerCall (Web R S)
  rate_limit_middleware next r web =
      let ip = extract_client_ip r in
      let (admitted, limiter) = allow_request R web.limiter t.limits ip in
      let web' = record web { limiter = limiter } in
      if admitted then next r web' else (
        record { calls = http_error (str "Too Many Requests") (pos 429) ∷ []; panicked = none },
        record web' {
          log =
              log_fields Log.warn (str "rate_limit exceeded")
                ((str "client_ip", text (sanitize_log ip))
                  ∷ (str "http_method", text (sanitize_log r.method))
                  ∷ [])
                web'.log;
        },
      )

  -- MetricsMiddleware: the deferred Dec runs after a panic too.
  unfoldable pub metrics_middleware : Handler ServerCall (Web R S) → Handler ServerCall (Web R S)
  metrics_middleware next r web =
      let (answer, web') = next r (record web { active = web.active + 1 }) in
      (answer, record web' { active = web'.active - 1 })

  -- RecoveryMiddleware
  unfoldable pub recovery_middleware : Handler ServerCall (Web R S) → Handler ServerCall (Web R S)
  recovery_middleware next r web =
      let (answer, web') = next r web in
      elim answer.panicked [
        | none ↦ (answer, web')
        | some what ↦ (
          record {
            calls = answer.calls ++ http_error (str "Internal Server Error") (pos 500) ∷ [];
            panicked = none;
          },
          record web' {
            log =
                log_fields Log.error (str "panic recovered")
                  ((str "panic", text (sanitize_log what)) ∷ []) web'.log;
          },
        )
      ]

  -- The handler of buildHTTPHandler.
  unfoldable pub build_http_handler : Handler WriterCall (Log × S) → Handler ServerCall (Web R S)
  unfolding recovery_middleware metrics_middleware rate_limit_middleware body_limit_middleware
      logging_middleware mcp_handler
  build_http_handler base = recovery_middleware (
      metrics_middleware (
        rate_limit_middleware (
          body_limit_middleware default_max_request_body_size
            (logging_middleware (λ r. mcp_handler base (client_ip_middleware r))))))
