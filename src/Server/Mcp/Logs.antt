-- ===== src/Server/Mcp/Logs.antt =====
-- The log of a request over HTTP, from the middleware to the tools.
use mcp_searxng.Prelude.{
  ℕ, suc, ◌≡◌, inl, inr, Bool, List, [], ◌∷◌, ◌++◌, Option, none, some, All, All-append, arith,
  Bool-cases,
}
use mcp_searxng.Text.{Str, str}
use mcp_searxng.Errors.{GoError, error_text}
use mcp_searxng.Packages.{Url, Clock}
use mcp_searxng.Context.{Context, with_request_id, new_request_id, client_ip_from}
use mcp_searxng.Context.Laws.{IsByte}
use mcp_searxng.Log.{Log, Entry}
use mcp_searxng.Service.{SearchService}
use mcp_searxng.Handlers.Sanitize.{sanitize_log}
use mcp_searxng.Handlers.AccessLog.{source_for_log}
use mcp_searxng.Handlers.AccessLog.OneLine.{IsInline, sanitize_log-IsInline, access_fields-inline}
use mcp_searxng.Handlers.ClientIp.{Request, client_ip_middleware}
use mcp_searxng.Handlers.RateLimit.{Rate}
use mcp_searxng.Handlers.Redact.{FieldValue}
use mcp_searxng.Handlers.Metrics.{CallState}
use mcp_searxng.Handlers.Tools.Calls.{ToolInput, ToolState, tool_name}
use mcp_searxng.Handlers.Tools.Errors.{called, failure_line, handle_cases}
use mcp_searxng.Handlers.ToolCall.{CallReadings, call_tool, input_value}
use mcp_searxng.Handlers.ToolCall.Lines.{call_tool_lem}
use mcp_searxng.Handlers.ToolCall.OneLine.{tool_name-IsInline, source_for_log-IsInline}
use mcp_searxng.Handlers.Middleware.{JsonRpc, Moments, Web}
use mcp_searxng.Handlers.Middleware.Chain.{served, handled}
use mcp_searxng.Handlers.Middleware.OneLine.{IsOneLine, serve_line-IsInline}
use mcp_searxng.Server.Mcp.{Sdk, Backend, serve_calls, mcp_server}

failure_line-IsInline :
    (name what : Str) (e : GoError)
    → All IsInline name
    → All IsInline what
    → All IsInline (failure_line name what e)
failure_line-IsInline name what e h k =
    All-append IsInline name (what ++ sanitize_log (error_text e)) h (
      All-append IsInline what (sanitize_log (error_text e)) k
        (sanitize_log-IsInline (error_text e)))

module _ (log : Log) (line : Entry) where
  -- A line behind a log of such lines.
  added : All IsOneLine log → IsOneLine line → All IsOneLine (log ++ line ∷ [])
  added h k = All-append IsOneLine log (line ∷ []) h (k, tt)

module _ {S : Type 0} (U : Url) (T : Clock) (svc : SearchService S) where
  -- The lines of a handler.
  called-IsOneLine :
      (i : ToolInput) (ctx : Context) (st : ToolState S)
      → All IsOneLine st.log
      → All IsOneLine (called U T svc i ctx st).1.log
  called-IsOneLine i ctx st h =
      let name = tool_name-IsInline i in
      elim (handle_cases U T svc i ctx st) [
        | inl (_, (_, _, log)) ↦ rw log (
            added st.log _ h
              (failure_line-IsInline (tool_name i) (str " validation: ") _ name (ground arith), tt))
        | inr (inl (_, _, (_, _, log))) ↦ rw log (
            added st.log _ h
              (failure_line-IsInline (tool_name i) (str " validation: ") _ name (ground arith), tt))
        | inr (inr (inl (_, _, _, (_, _, log)))) ↦ rw log (
            added st.log _ h
              (failure_line-IsInline (tool_name i) (str " validation: ") _ name (ground arith), tt))
        | inr (inr (inr (_, (_, inl (_, _, _, log))))) ↦ rw log h
        | inr (inr (inr (_, (_, inr (e, _, _, log))))) ↦ rw log (
            added st.log _ h
              (failure_line-IsInline (tool_name i) (str ": ") e name (ground arith), tt))
      ]

module _ {S : Type 0} (U : Url) (T : Clock) (svc : SearchService S)
    (marshal : FieldValue → Option Str) (info_enabled : Bool) (source : Str)
    (sourced : All IsInline source) where
  -- The lines of a call.
  call_tool-IsOneLine :
      (reads : CallReadings) (i : ToolInput) (ctx : Context) (st : CallState S)
      → All IsByte reads.random
      → All IsInline (client_ip_from ctx)
      → All IsOneLine st.tool.log
      → All IsOneLine (call_tool U T svc marshal info_enabled source reads i ctx st).1.tool.log
  call_tool-IsOneLine reads i ctx st bytes ip h =
      let (_, _, log, _) = call_tool_lem U T svc marshal info_enabled source reads i ctx st in
      let inner =
        called-IsOneLine U T svc i (with_request_id ctx (new_request_id reads.random)) st.tool h in
      rw log (elim (Bool-cases info_enabled) [
        | inr e ↦ rw e inner
        | inl e ↦ rw e (
            added _ _ inner (
              ground arith,
              access_fields-inline U marshal (input_value i) (tool_name i)
                  (source_for_log source ctx) reads.random reads.call_took _ (tool_name-IsInline i)
                  (source_for_log-IsInline source ctx sourced ip) bytes,
            ))
      ])

  serve_calls-IsOneLine :
      (readings : ℕ → CallReadings) (n : ℕ) (cs : List (Context × ToolInput)) (st : CallState S)
      → ((k : ℕ) → All IsByte (readings k).random)
      → All (λ (c : Context × ToolInput). All IsInline (client_ip_from c.0)) cs
      → All IsOneLine st.tool.log
      → All IsOneLine (serve_calls U T svc marshal info_enabled source readings n cs st).1.tool.log
  unfolding serve_calls
  serve_calls-IsOneLine readings n [] st bytes ips h = h
  serve_calls-IsOneLine readings n ((ctx, i) ∷ cs) st bytes (ip, ips) h =
      serve_calls-IsOneLine readings (suc n) cs _ bytes ips
        (call_tool-IsOneLine (readings n) i ctx st (bytes n) ip h)

  module _ (readings : ℕ → CallReadings) (D : Sdk) (J : JsonRpc) (R : Rate) (t : Moments)
      (r : Request) (web : Web R (Backend S)) where
    handled-IsOneLine :
        ((k : ℕ) → All IsByte (readings k).random)
        → ((q : Request)
            → All (λ (c : Context × ToolInput). All IsInline (client_ip_from c.0)) (D.calls q))
        → All IsOneLine web.log
        → (body : Str)
        → All IsOneLine
            (handled J R t
              (mcp_server U T svc marshal info_enabled source readings D)
              r
              web
              body).1.0
    unfolding mcp_server
    handled-IsOneLine bytes ips h body =
        let q = client_ip_middleware (record r { body = record { bytes = body; fault = none } }) in
        serve_calls-IsOneLine readings 0 (D.calls q)
          (record {
            tool = record { repo = web.inner.repo; log = web.log };
            metrics = web.inner.metrics;
          })
          bytes (ips q) h

    -- With a label without control characters, random bytes, client addresses without control
    -- characters in the contexts that the SDK hands on, and an error of the network that has none:
    -- a request over HTTP leaves a log in which no entry has control characters but tabs in its message
    -- and its texts, if none had before, whatever the request, the inputs and the upstream hold.
    pub answered_log-IsOneLine :
        ((k : ℕ) → All IsByte (readings k).random)
        → ((q : Request)
            → All (λ (c : Context × ToolInput). All IsInline (client_ip_from c.0)) (D.calls q))
        → ((f : GoError) → r.body.fault ≡ some f → All IsInline (error_text f))
        → All IsOneLine web.log
        → All IsOneLine
            (served J R t (mcp_server U T svc marshal info_enabled source readings D) r web).1.log
    answered_log-IsOneLine bytes ips sound h =
        let base = mcp_server U T svc marshal info_enabled source readings D in
        let (before, line, (from, log, one)) = serve_line-IsInline J R t base r web sound in
        rw log (elim from [
          | inl same ↦ added before line (rw same h) one
          | inr (body, same) ↦ added before line (rw same (handled-IsOneLine bytes ips h body)) one
        ])
