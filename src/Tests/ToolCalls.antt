-- ===== src/Tests/ToolCalls.antt =====
-- Tool calls against the sample service.
use mcp_searxng.Prelude.{
  ℕ, zero, suc, ◌≤◌, ◌<◌, ◌≡◌, ◌≢◌, ◌⊎◌, refl, [], ◌∷◌, none, some, ok, err, length,
}
use mcp_searxng.Prelude.Int.{pos, ltb_ℤ, leb_ℤ, ◌≤ℤ◌}
use mcp_searxng.Text.{Str, str, str_eq}
use mcp_searxng.Errors.{
  Sentinel, sentinel, wrap, api_client, query_too_long, page_too_large, invalid_query,
}
use mcp_searxng.Context.{background}
use mcp_searxng.Domain.{SearchParams, SearchResponse}
use mcp_searxng.Service
use mcp_searxng.Service.{SearchService, new_search_service}
use mcp_searxng.Searxng.Wire.{response_to_domain}
use mcp_searxng.Searxng.Client.{
  answered, Reply, ClientState, client_repository, search, do_request, read_reply, read_limited,
  parse_body,
}
use mcp_searxng.Searxng.Query.{build_search_query}
use mcp_searxng.Handlers.Tools.Types.{SearchInput}
use mcp_searxng.Handlers.Tools.Output.{build_output}
use mcp_searxng.Handlers.Tools.Calls
use mcp_searxng.Handlers.Tools.Calls.{
  ToolInput, ToolState, tool_params, tool_max, tool_name, page_or_first, max_page_number,
  max_query_length, validate_query, validate_page, handle, search_handler, tool_call, reject,
  conclude, search_helper,
}
use mcp_searxng.Handlers.Tools.Safety.{IsSafeOutput}
use mcp_searxng.Handlers.Tools.Errors.{
  IsAccepted, Refused, Asked, called, handle_cases, public_error,
}
use mcp_searxng.Handlers.Tools.Results.{
  IsSafeLog, IsWithin, IsSearch, handle-IsSafeLog, handle-IsSafeOutput,
}
use mcp_searxng.Tests.Samples.{
  text_url, text_url-Reparses, text_clock, sample_json, sample_response, steady_client,
}

abbrev pub good_reply : Reply
good_reply =
    answered (record { status = pos 200; body = record { bytes = str "{}"; fault = none } })

abbrev pub good_service : SearchService (ClientState ℕ)
good_service = new_search_service (client_repository (steady_client good_reply))

abbrev pub start : ToolState (ClientState ℕ)
start = record { repo = record { metrics = none; net = 0 }; log = [] }

abbrev go_search : SearchInput
go_search = record {
  query = str "go";
  categories = [];
  language = [];
  page = pos 0;
  time_range = [];
  safe_search = pos 0;
  max_results = some 1;
}

abbrev pub go_call : ToolInput
go_call = Calls.search go_search

-- The same call without a query.
abbrev empty_call : ToolInput
empty_call = Calls.search (record go_search { query = [] })

abbrev sample_domain : SearchResponse
sample_domain = response_to_domain sample_json sample_response

-- The good call returns the output of the sample.
go_called :
    (called text_url text_clock good_service go_call background start).0
    ≡ ok (build_output text_url text_clock sample_domain (some 1))
unfolding handle search_handler tool_call validate_query validate_page str_eq ltb_ℤ search_helper
    conclude Service.search search do_request read_reply read_limited parse_body leb_ℤ
    build_search_query
go_called = refl

empty_called :
    (called text_url text_clock good_service empty_call background start).0
    ≡ err (wrap (str "search") (sentinel invalid_query))
unfolding handle search_handler tool_call validate_query validate_page str_eq reject
empty_called = refl

handle_cases_example :
    ((tool_params go_call).query ≡ [])
      × Refused text_url text_clock good_service go_call background start invalid_query
    ⊎ (((tool_params go_call).query ≢ [])
          × (max_query_length < length (tool_params go_call).query)
          × Refused text_url text_clock good_service go_call background start query_too_long
        ⊎ (((tool_params go_call).query ≢ [])
              × (length (tool_params go_call).query ≤ max_query_length)
              × (¬ ((tool_params go_call).page ≤ℤ pos max_page_number))
              × Refused text_url text_clock good_service go_call background start page_too_large
            ⊎ IsAccepted (tool_params go_call)
              × Asked text_url text_clock good_service go_call background start))
handle_cases_example = handle_cases text_url text_clock good_service go_call background start

public_error_example :
    (s : Sentinel) × (s ≢ api_client)
    × (wrap (str "search") (sentinel invalid_query) ≡ wrap (str "search") (sentinel s))
public_error_example =
    public_error text_url text_clock good_service empty_call background start
      (wrap (str "search") (sentinel invalid_query)) empty_called

handle-IsSafeLog_example :
    IsSafeLog (called text_url text_clock good_service empty_call background start).1.log
handle-IsSafeLog_example =
    handle-IsSafeLog text_url text_clock good_service empty_call background start tt

handle-IsSafeOutput_example :
    IsSafeOutput text_url (build_output text_url text_clock sample_domain (some 1))
    × IsWithin (some 1) (length (build_output text_url text_clock sample_domain (some 1)).results)
    × IsAccepted (tool_params go_call)
    × ((p : SearchParams) × (d : SearchResponse) × IsSearch text_url text_clock good_service go_call
          background start p
        × ((good_service.repo.search background p start.repo).0 ≡ ok d)
        × ((called text_url text_clock good_service go_call background start).1.repo
            ≡ (good_service.repo.search background p start.repo).1))
handle-IsSafeOutput_example =
    handle-IsSafeOutput text_url text_clock good_service go_call background start text_url-Reparses
      (build_output text_url text_clock sample_domain (some 1)) go_called

-- 300 letters of two bytes each are more than 512 bytes.
abbrev letters : ℕ → Str
letters zero = []
letters (suc n) = 0xd0 ∷ 0xb9 ∷ letters n

letters_refused : validate_query (letters 300) ≡ some (sentinel query_too_long)
unfolding validate_query str_eq
letters_refused = refl
