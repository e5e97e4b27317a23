-- ===== src/Handlers/ToolCall/Lines.antt =====
-- What a call of a registered tool returns, logs and counts.
use mcp_searxng.Prelude.{◌≡◌, refl, Bool, Option, Result, if◌then◌else◌, Bool-cases, inl, inr}
use mcp_searxng.Text.{Str, str}
use mcp_searxng.Errors.{GoError}
use mcp_searxng.Packages.{Url, Clock}
use mcp_searxng.Context.{Context, with_request_id, client_ip_from, new_request_id}
use mcp_searxng.Log
use mcp_searxng.Log.{Log, log_fields}
use mcp_searxng.Service.{SearchService}
use mcp_searxng.Handlers.Redact.{FieldValue}
use mcp_searxng.Handlers.Metrics.{CallState, count_call}
use mcp_searxng.Handlers.AccessLog.{redact_args, source_for_log, access_fields}
use mcp_searxng.Handlers.Tools.Types.{SearchOutput}
use mcp_searxng.Handlers.Tools.Calls.{ToolInput, ToolState, handle, tool_name}
use mcp_searxng.Handlers.ToolCall.{CallReadings, input_value, call_tool}

module _ (U : Url) (T : Clock) {S : Type 0} (svc : SearchService S)
    (marshal : FieldValue → Option Str) (info_enabled : Bool) (source : Str) (reads : CallReadings)
    (i : ToolInput) (ctx : Context) (st : CallState S) where
  -- The call through all its wrappers.
  abbrev pub wrapped : Result GoError SearchOutput × CallState S
  wrapped = call_tool U T svc marshal info_enabled source reads i ctx st

  -- The request id of the call.
  abbrev pub call_id : Str
  call_id = new_request_id reads.random

  -- The call of the handler alone, with the request id in its context.
  abbrev pub inner_call : Result GoError SearchOutput × ToolState S
  inner_call = handle U T svc i (with_request_id ctx call_id) st.tool

  -- The line of the call, behind those of the handler.
  abbrev pub access_line : Log
  access_line =
      log_fields Log.info (str "mcp_tool")
        (access_fields (tool_name i) (redact_args U marshal (input_value i))
          (source_for_log source ctx) call_id reads.call_took inner_call.0)
        inner_call.1.log

  -- A call of a registered tool returns what its handler returns on the context with the request id,
  -- and leaves the repository as the handler does. With the info level enabled it logs one line
  -- behind the handler's, and otherwise none; with metrics it counts the call once, under the tool's
  -- name and the class of its result, with one duration.
  pub call_tool_lem :
      (wrapped.0 ≡ inner_call.0)
      × (wrapped.1.tool.repo ≡ inner_call.1.repo)
      × (wrapped.1.tool.log ≡ (if info_enabled then access_line else inner_call.1.log))
      × (wrapped.1.metrics ≡ count_call (tool_name i) inner_call.0 reads.handler_took st.metrics)
  unfolding call_tool source_for_log client_ip_from with_request_id
  call_tool_lem = elim (Bool-cases info_enabled) [
    | inl e ↦ rw e (refl, refl, refl, refl)
    | inr e ↦ rw e (refl, refl, refl, refl)
  ]
