-- ===== src/Handlers/ToolCall.antt =====
-- The handlers that registerTool of handlers/registration.go adds to the server: those of the tools,
-- in the wrappers for metrics and the access log.
pub mod Lines
pub mod Tracing
pub mod OneLine
use mcp_searxng.Prelude.{ℕ, Bool, true, false, List, Option}
use mcp_searxng.Text.{Str, str}
use mcp_searxng.Packages.{Url, Clock}
use mcp_searxng.Service.{SearchService}
use mcp_searxng.Handlers.Redact.{
  FieldValue, text, number, texts, number_ptr, struct, Fields, end, field,
}
use mcp_searxng.Handlers.Metrics.{ToolHandler, wrap_tool_handler}
use mcp_searxng.Handlers.AccessLog.{wrap_access_log}
use mcp_searxng.Handlers.Tools.Calls
use mcp_searxng.Handlers.Tools.Calls.{ToolInput, handle, tool_name}

abbrev plain : Str → FieldValue → Fields → Fields
plain name v fs = field name true false v fs

-- The five inputs as structs: every field is exported, and none is secret.
unfoldable pub input_value : ToolInput → FieldValue
input_value (Calls.search i) = struct (
    plain (str "Query") (text i.query) (
      plain (str "Categories") (texts i.categories) (
        plain (str "Language") (text i.language) (
          plain (str "Page") (number i.page) (
            plain (str "TimeRange") (text i.time_range) (
              plain (str "SafeSearch") (number i.safe_search)
                (plain (str "MaxResults") (number_ptr i.max_results) end)))))))
input_value (Calls.search_news i) = struct (
    plain (str "Query") (text i.query) (
      plain (str "Language") (text i.language) (
        plain (str "Page") (number i.page) (
          plain (str "SafeSearch") (number i.safe_search)
            (plain (str "MaxResults") (number_ptr i.max_results) end)))))
input_value (Calls.search_images i) = struct (
    plain (str "Query") (text i.query) (
      plain (str "Page") (number i.page) (
        plain (str "SafeSearch") (number i.safe_search) (
          plain (str "Language") (text i.language)
            (plain (str "MaxResults") (number_ptr i.max_results) end)))))
input_value (Calls.search_videos i) = struct (
    plain (str "Query") (text i.query) (
      plain (str "Page") (number i.page) (
        plain (str "SafeSearch") (number i.safe_search) (
          plain (str "Language") (text i.language)
            (plain (str "MaxResults") (number_ptr i.max_results) end)))))
input_value (Calls.search_music i) = struct (
    plain (str "Query") (text i.query) (
      plain (str "Page") (number i.page) (
        plain (str "SafeSearch") (number i.safe_search) (
          plain (str "Language") (text i.language)
            (plain (str "MaxResults") (number_ptr i.max_results) end)))))

-- What a call of a tool reads of its surroundings: the random bytes of its id, and the two times.
pub record CallReadings : Type 0 where
  pub random : List ℕ
  pub handler_took : ℕ
  pub call_took : ℕ

module _ (U : Url) (T : Clock) {S : Type 0} (svc : SearchService S)
    (marshal : FieldValue → Option Str) (info_enabled : Bool) (source : Str) where
  -- The handler itself, which knows nothing of the metrics.
  unfoldable pub bare_handler : ToolInput → ToolHandler S
  bare_handler i ctx st =
      let (result, tool) = handle U T svc i ctx st.tool in (result, record st { tool = tool })

  -- The handler that registerTool adds for a tool, on an input of that tool.
  unfoldable pub call_tool : CallReadings → ToolInput → ToolHandler S
  unfolding bare_handler input_value wrap_access_log wrap_tool_handler
  call_tool reads i =
      wrap_access_log U marshal info_enabled source (tool_name i) reads.random reads.call_took
        (input_value i) (wrap_tool_handler (tool_name i) reads.handler_took (bare_handler i))
