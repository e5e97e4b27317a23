-- ===== src/Server/Mcp.antt =====
-- The MCP handler of cmd/server/main.go: the SDK's handler over the server with the registered tools.
pub mod Upstream
pub mod Logs
pub mod Capacity
use mcp_searxng.Prelude.{ℕ, suc, Bool, List, [], ◌∷◌, Option, Result}
use mcp_searxng.Text.{Str}
use mcp_searxng.Errors.{GoError}
use mcp_searxng.Packages.{Url, Clock}
use mcp_searxng.Context.{Context}
use mcp_searxng.Log.{Log}
use mcp_searxng.Service.{SearchService}
use mcp_searxng.Handlers.ClientIp.{Request}
use mcp_searxng.Handlers.Redact.{FieldValue}
use mcp_searxng.Handlers.Metrics.{ToolMetrics, CallState}
use mcp_searxng.Handlers.Tools.Types.{SearchOutput}
use mcp_searxng.Handlers.Tools.Calls.{ToolInput}
use mcp_searxng.Handlers.ToolCall.{CallReadings, call_tool}
use mcp_searxng.Handlers.Middleware.{WriterCall, Answer, Handler}

-- The SDK's streamable HTTP handler, stateless as runHTTP makes it: the calls of registered tools that
-- it finds in a request, each with the context that it hands on, and what it answers with their
-- results.
pub record Sdk : Type 0 where
  pub calls : Request → List (Context × ToolInput)
  pub reply : Request → List (Result GoError SearchOutput) → Answer WriterCall

-- What is behind the MCP handler: the metrics of the tools, and the state of the repository that
-- they search.
pub record Backend (S : Type 0) : Type 0 where
  pub metrics : Option ToolMetrics
  pub repo : S

module _ (U : Url) (T : Clock) {S : Type 0} (svc : SearchService S)
    (marshal : FieldValue → Option Str) (info_enabled : Bool) (source : Str)
    (readings : ℕ → CallReadings) where
  -- The calls of a request, one after the other; each has readings of its own.
  unfoldable pub serve_calls :
      ℕ
      → List (Context × ToolInput)
      → CallState S
      → List (Result GoError SearchOutput) × CallState S
  serve_calls n [] st = ([], st)
  serve_calls n ((ctx, i) ∷ cs) st =
      let (result, st') = call_tool U T svc marshal info_enabled source (readings n) i ctx st in
      let (results, last) = serve_calls (suc n) cs st' in (result ∷ results, last)

  -- The handler of mcp.NewStreamableHTTPHandler over the server of buildServer.
  unfoldable pub mcp_server : Sdk → Handler WriterCall (Log × Backend S)
  unfolding serve_calls
  mcp_server D r (log, b) =
      let (results, st) =
        serve_calls 0 (D.calls r)
          (record { tool = record { repo = b.repo; log = log }; metrics = b.metrics }) in
      (D.reply r results, (st.tool.log, record { metrics = st.metrics; repo = st.tool.repo }))
