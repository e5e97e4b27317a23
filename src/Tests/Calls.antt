-- ===== src/Tests/Calls.antt =====
-- Registered tools and their calls, against the sample service.
use mcp_searxng.Prelude.{ℕ, ◌≡◌, ◌↔◌, refl, true, [], ◌∷◌, ◌++◌, Option, none, some, arith}
use mcp_searxng.Text.{Str, str, str_eq}
use mcp_searxng.Assoc.{lookup}
use mcp_searxng.Context.{background, new_request_id}
use mcp_searxng.Log.{Entry, text}
use mcp_searxng.Service.{new_search_service}
use mcp_searxng.Searxng.Client.{Client, ClientState, client_repository}
use mcp_searxng.Handlers.Redact.{FieldValue}
use mcp_searxng.Handlers.Metrics.{CallState}
use mcp_searxng.Handlers.Registration.{
  Tool, Registered, tool_annotations, register_each, register_tool, kind_named, tool_definitions,
  register_tools_with_source, log_tool_surface,
}
use mcp_searxng.Handlers.Registration
use mcp_searxng.Handlers.Registration.Names.{RegisteredAs, register_each_iff}
use mcp_searxng.Handlers.ToolCall.{CallReadings}
use mcp_searxng.Handlers.ToolCall.Lines.{wrapped, inner_call}
use mcp_searxng.Handlers.ToolCall.Tracing.{traced_request, request_traced}
use mcp_searxng.Tests.Samples.{text_url, text_clock, steady_client}
use mcp_searxng.Tests.ToolCalls.{good_reply, go_call, start}

abbrev news_tool : Tool
news_tool = record {
  name = str "search_news";
  title = str "News";
  description = [];
  annotations = tool_annotations;
}

news_registered :
    register_each (news_tool ∷ []) [] ≡ some ((news_tool, Registration.search_news) ∷ [])
unfolding register_each register_tool kind_named str_eq
news_registered = refl

-- A tool of another name is the panic of registerTool.
other_panics : register_each (record news_tool { name = str "fetch" } ∷ []) [] ≡ none
unfolding register_each register_tool kind_named str_eq
other_panics = refl

register_each_iff_example :
    (register_each (news_tool ∷ []) [] ≡ some ((news_tool, Registration.search_news) ∷ [])) ↔ (
      (added : Registered) × RegisteredAs (news_tool ∷ []) added
      × ((news_tool, Registration.search_news) ∷ [] ≡ [] ++ added))
register_each_iff_example =
    register_each_iff (news_tool ∷ []) [] ((news_tool, Registration.search_news) ∷ [])

abbrev pub brace_marshal : FieldValue → Option Str
brace_marshal v = some (str "{}")

abbrev pub readings : CallReadings
readings = record { random = 1 ∷ 255 ∷ []; handler_took = 7; call_took = 9 }

abbrev begin : CallState (ClientState ℕ)
begin = record { tool = start; metrics = some (record { requests_total = []; durations = [] }) }

abbrev pub label : Str
label = str "stdio"

abbrev client : Client ℕ
client = steady_client good_reply

abbrev search_url : Str
search_url = str "http://searxng/search"

request_traced_example :
    let z =
      wrapped text_url text_clock
        (new_search_service (client_repository client))
        brace_marshal
        true
        label
        readings
        go_call
        background
        begin in
    let y =
      inner_call text_url text_clock
        (new_search_service (client_repository client))
        brace_marshal
        true
        label
        readings
        go_call
        background
        begin in
    (z.1.tool.repo.net
      ≡ (client.http.get
          (traced_request text_url text_clock client brace_marshal label readings go_call background
            begin search_url)
          0).1)
    × ((line : Entry) × (z.1.tool.log ≡ y.1.log ++ line ∷ [])
        × (lookup (str "request_id") line.fields ≡ some (text (new_request_id (1 ∷ 255 ∷ [])))))
request_traced_example =
    request_traced text_url text_clock client brace_marshal label readings go_call background begin
      search_url (λ e. cc e, omega arith, omega arith) refl
