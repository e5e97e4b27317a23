-- ===== src/Handlers/ToolCall/OneLine.antt =====
-- The log line of a call cannot be broken by what the call holds.
use mcp_searxng.Prelude.{◌≡◌, true, [], ◌∷◌, ◌++◌, Option, All, arith, Bool-cases, inl, inr}
use mcp_searxng.Text.{Str, str_eq}
use mcp_searxng.Packages.{Url, Clock}
use mcp_searxng.Context.{Context, client_ip_from}
use mcp_searxng.Context.Laws.{IsByte}
use mcp_searxng.Log.{Entry}
use mcp_searxng.Service.{SearchService}
use mcp_searxng.Handlers.Redact.{FieldValue}
use mcp_searxng.Handlers.Metrics.{CallState}
use mcp_searxng.Handlers.AccessLog.{source_for_log}
use mcp_searxng.Handlers.AccessLog.OneLine.{IsInline, HasInlineFields, access_fields-inline}
use mcp_searxng.Handlers.Tools.Calls
use mcp_searxng.Handlers.Tools.Calls.{ToolInput, tool_name}
use mcp_searxng.Handlers.ToolCall.{CallReadings, input_value}
use mcp_searxng.Handlers.ToolCall.Lines.{wrapped, inner_call, call_tool_lem}

pub tool_name-IsInline : (i : ToolInput) → All IsInline (tool_name i)
tool_name-IsInline (Calls.search input) = ground arith
tool_name-IsInline (Calls.search_news input) = ground arith
tool_name-IsInline (Calls.search_images input) = ground arith
tool_name-IsInline (Calls.search_videos input) = ground arith
tool_name-IsInline (Calls.search_music input) = ground arith

pub source_for_log-IsInline :
    (source : Str) (ctx : Context)
    → All IsInline source
    → All IsInline (client_ip_from ctx)
    → All IsInline (source_for_log source ctx)
unfolding source_for_log
source_for_log-IsInline source ctx h k = elim (Bool-cases (str_eq (client_ip_from ctx) [])) [
  | inl e ↦ rw (source_for_log, e) h
  | inr e ↦ rw (source_for_log, e) k
]

module _ {S : Type 0} (U : Url) (T : Clock) (svc : SearchService S)
    (marshal : FieldValue → Option Str) (source : Str) (reads : CallReadings) (i : ToolInput)
    (ctx : Context) (st : CallState S) where
  -- With the info level enabled, a label and a client address without control characters, and random
  -- bytes: a call of a registered tool ends the log with one line that has no control characters but
  -- tabs in its message and its texts, whatever the input, the upstream and the error hold.
  pub call_line-IsInline :
      All IsInline source
      → All IsInline (client_ip_from ctx)
      → All IsByte reads.random
      → (line : Entry) × ((wrapped U T svc marshal true source reads i ctx st).1.tool.log
          ≡ (inner_call U T svc marshal true source reads i ctx st).1.log ++ line ∷ [])
        × All IsInline line.message
        × HasInlineFields line.fields
  call_line-IsInline h k bytes =
      let (_, _, log, _) = call_tool_lem U T svc marshal true source reads i ctx st in
      (
        _,
        log,
        ground arith,
        access_fields-inline U marshal (input_value i) (tool_name i) (source_for_log source ctx)
            reads.random reads.call_took _ (tool_name-IsInline i)
            (source_for_log-IsInline source ctx h k) bytes,
      )
