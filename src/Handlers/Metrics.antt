-- ===== src/Handlers/Metrics.antt =====
-- WrapToolHandler of handlers/metrics.go: the count and the duration of each tool call.
use mcp_searxng.Prelude.{ℕ, List, ◌∷◌, Option, none, some, Result, ok, err}
use mcp_searxng.Text.{Str, str}
use mcp_searxng.Errors.{GoError}
use mcp_searxng.Context.{Context}
use mcp_searxng.Handlers.Tools.Types.{SearchOutput}
use mcp_searxng.Handlers.Tools.Calls.{ToolState}

-- The calls made on two of the collectors of Metrics: the tool and the status class of each count,
-- and the tool and the duration of each observation. The gauge is in the state of the middleware.
pub record ToolMetrics : Type 0 where
  pub requests_total : List (Str × Str)
  pub durations : List (Str × ℕ)

-- What a wrapped handler may change; the metrics may be nil.
pub record CallState (S : Type 0) : Type 0 where
  pub tool : ToolState S
  pub metrics : Option ToolMetrics

-- A tool handler on a given input.
abbrev pub ToolHandler : Type 0 → Type 0
ToolHandler S = Context → CallState S → Result GoError SearchOutput × CallState S

-- The label of a call: every error is "4xx".
unfoldable pub status_class_of : Result GoError SearchOutput → Str
status_class_of (ok output) = str "2xx"
status_class_of (err e) = str "4xx"

unfoldable pub count_call :
    Str → Result GoError SearchOutput → ℕ → Option ToolMetrics → Option ToolMetrics
unfolding status_class_of
count_call name result took none = none
count_call name result took (some m) = some (record {
  requests_total = (name, status_class_of result) ∷ m.requests_total;
  durations = (name, took) ∷ m.durations;
})

-- WrapToolHandler, with the time that the handler took.
unfoldable pub wrap_tool_handler : {S : Type 0} → Str → ℕ → ToolHandler S → ToolHandler S
unfolding count_call
wrap_tool_handler name took handler ctx st =
    let (result, st') = handler ctx st in
    (result, record st' { metrics = count_call name result took st'.metrics })
