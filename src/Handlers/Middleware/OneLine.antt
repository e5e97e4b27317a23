-- ===== src/Handlers/Middleware/OneLine.antt =====
-- The log lines of the middleware chain, and what could break one.
use mcp_searxng.Prelude.{
  ℕ, ◌≡◌, ◌⊎◌, inl, inr, refl, Bool-cases, Option-cases, [], ◌∷◌, ◌++◌, some, err, All, arith,
  length, leb,
}
use mcp_searxng.Prelude.Int.{pos}
use mcp_searxng.Text.{Str, str}
use mcp_searxng.Errors.{GoError, other, error_text}
use mcp_searxng.Packages.{Body, read_all}
use mcp_searxng.Log.{Log, Entry}
use mcp_searxng.Handlers.Sanitize.{sanitize_log}
use mcp_searxng.Handlers.AccessLog.OneLine.{IsInline, HasInlineFields, sanitize_log-IsInline}
use mcp_searxng.Handlers.ClientIp.{Request, extract_client_ip}
use mcp_searxng.Handlers.RateLimit.{Rate}
use mcp_searxng.Handlers.Middleware.{
  JsonRpc, WriterCall, Handler, LoggingResponseWriter, Web, Moments, max_bytes_reader,
  mcp_request_method, request_fields,
}
use mcp_searxng.Handlers.Middleware.Chain.{served, handled, recorded, serve_cases}

-- The error of a body comes from the network, or from the limit on its size.
body_error-IsInline :
    (limit : ℕ) (b : Body) (e : GoError)
    → ((f : GoError) → b.fault ≡ some f → All IsInline (error_text f))
    → read_all (max_bytes_reader limit b) ≡ err e
    → All IsInline (error_text e)
unfolding error_text
body_error-IsInline limit b e sound h = elim (Bool-cases (leb (length b.bytes) limit)) [
  | inr large ↦
      let same : e ≡ other (str "http: request body too large") = ground (arith, large, h) in
      rw same (ground arith)
  | inl small ↦ elim (Option-cases b.fault) [
    | inl none_found ↦ absurd (ground (arith, small, none_found, h))
    | inr (f, found) ↦ let same : e ≡ f = ground (arith, small, found, h) in rw same (sound f found)
  ]
]

request_fields-inline :
    (J : JsonRpc) (r : Request) (body : Str) (took size : ℕ) (lrw : LoggingResponseWriter)
    → HasInlineFields (request_fields r (sanitize_log (mcp_request_method J body)) took size lrw)
request_fields-inline J r body took size lrw = (
  sanitize_log-IsInline r.method,
  (
    sanitize_log-IsInline r.path,
    (sanitize_log-IsInline (mcp_request_method J body), (tt, (tt, (tt, (tt, tt))))),
  ),
)

-- An entry without control characters but tabs.
abbrev pub IsOneLine : Entry → Type 0
IsOneLine line = All IsInline line.message × HasInlineFields line.fields

module _ (J : JsonRpc) (R : Rate) {S : Type 0} (t : Moments) (base : Handler WriterCall (Log × S))
    (r : Request) (web : Web R S) where
  -- If an error that the network gives for the body has no control characters: whatever a request
  -- holds, the chain adds to the log one line, behind those of the MCP handler if that was reached,
  -- with no control characters but tabs in its message and its texts.
  pub serve_line-IsInline :
      ((f : GoError) → r.body.fault ≡ some f → All IsInline (error_text f))
      → (before : Log) × (line : Entry) × (((before ≡ web.log)
            ⊎ ((body : Str) × (before ≡ (handled J R t base r web body).1.0)))
          × ((served J R t base r web).1.log ≡ before ++ line ∷ [])
          × IsOneLine line)
  serve_line-IsInline sound = elim (serve_cases J R t base r web).1 [
    | inl (_, (_, log, _)) ↦ (
      web.log,
      _,
      (
        inl refl,
        log,
        (
          ground arith,
          (sanitize_log-IsInline (extract_client_ip r), (sanitize_log-IsInline r.method, tt)),
        ),
      ),
    )
    | inr (inl (_, (e, h, (_, log, _)))) ↦
        (web.log, _, (inl refl, log, (ground arith, (body_error-IsInline _ r.body e sound h, tt))))
    | inr (inr (_, (body, _, inl (_, _, (_, log, _))))) ↦ (
      web.log,
      _,
      (
        inl refl,
        log,
        (
          ground arith,
          request_fields-inline J r body t.took (length body)
              (record { status_code = pos 400; body_size = 0 }),
        ),
      ),
    )
    | inr (inr (_, (body, _, inr (_, (_, inl (_, _, log)))))) ↦ (
      _,
      _,
      (
        inr (body, refl),
        log,
        (
          ground arith,
          request_fields-inline J r body t.took (length body)
              (recorded J R t base r web (handled J R t base r web body).0.calls),
        ),
      ),
    )
    | inr (inr (_, (body, _, inr (_, (_, inr (what, _, _, log)))))) ↦
        (_, _, (inr (body, refl), log, (ground arith, (sanitize_log-IsInline what, tt))))
  ]
