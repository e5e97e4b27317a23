-- ===== src/Handlers/AccessLog.antt =====
-- handlers/accesslog.go: the access log line of each tool call, with its request id.
pub mod Bounds
pub mod OneLine
use mcp_searxng.Prelude.{
  ℕ, Bool, true, false, List, [], ◌∷◌, ◌++◌, Option, none, some, Result, ok, err, ltb, length, take,
  if◌then◌else◌,
}
use mcp_searxng.Text.{Str, str, str_eq}
use mcp_searxng.Errors.{GoError, error_text}
use mcp_searxng.Packages.{Url}
use mcp_searxng.Context.{Context, with_request_id, client_ip_from, new_request_id}
use mcp_searxng.Log
use mcp_searxng.Log.{Value, text, duration, log_fields}
use mcp_searxng.Handlers.Sanitize.{sanitize_log}
use mcp_searxng.Handlers.Redact.{FieldValue, redact_struct, redact_url}
use mcp_searxng.Handlers.Metrics.{ToolHandler}
use mcp_searxng.Handlers.Tools.Types.{SearchOutput}

-- accessLogMaxArgs
abbrev pub access_log_max_args : ℕ
access_log_max_args = 512

-- redactArgs, over json.Marshal, of which an error is `none`.
unfoldable pub redact_args : Url → (FieldValue → Option Str) → FieldValue → Str
redact_args U marshal input = elim (marshal (redact_struct U input)) [
  | none ↦ str "<unserializable>"
  | some b ↦
      let s = redact_url (sanitize_log b) in
      if ltb access_log_max_args (length s) then take access_log_max_args s ++ str "..." else s
]

-- The source of a line: the client's address from the context, or the label of the transport.
unfoldable pub source_for_log : Str → Context → Str
source_for_log source ctx = if str_eq (client_ip_from ctx) [] then source else client_ip_from ctx

-- The fields that depend on the outcome.
unfoldable pub outcome_fields : Result GoError SearchOutput → List (Str × Value)
outcome_fields (ok output) = (str "outcome", text (str "ok")) ∷ []
outcome_fields (err e) =
    (str "outcome", text (str "error")) ∷ (str "error", text (sanitize_log (error_text e))) ∷ []

unfoldable pub access_fields :
    Str → Str → Str → Str → ℕ → Result GoError SearchOutput → List (Str × Value)
unfolding outcome_fields
access_fields name args source id took result =
    (str "tool", text name)
    ∷ (str "args", text args)
    ∷ (str "source", text source)
    ∷ (str "request_id", text id)
    ∷ (str "duration", duration took)
    ∷ outcome_fields result

-- WrapAccessLog: `info_enabled` says that the logger is not nil and has the info level enabled,
-- `random` is what crypto/rand gives to requestid.New, and `took` the time that the handler took.
unfoldable pub wrap_access_log :
    {S : Type 0}
    → Url
    → (FieldValue → Option Str)
    → Bool
    → Str
    → Str
    → List ℕ
    → ℕ
    → FieldValue
    → ToolHandler S
    → ToolHandler S
unfolding source_for_log access_fields
wrap_access_log U marshal info_enabled source name random took input handler ctx st =
    let id = new_request_id random in
    let ctx' = with_request_id ctx id in
    let (result, st') = handler ctx' st in
    let line =
      log_fields Log.info (str "mcp_tool")
        (access_fields name (redact_args U marshal input) (source_for_log source ctx') id took
          result)
        st'.tool.log in
    (result, if info_enabled then record st' { tool = record st'.tool { log = line } } else st')
