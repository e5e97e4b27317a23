-- ===== src/Handlers/ToolCall/Tracing.antt =====
-- The whole path of a call, from the registered tool to SearXNG: the ids in the access log
-- line and in the request.
use mcp_searxng.Prelude.{
  ℕ, ◌≡◌, ◌≢◌, refl, ap, ◌∙◌, true, List, [], ◌∷◌, ◌++◌, Option, some, ok, arith, inl, inr,
}
use mcp_searxng.Text.{Str, str, str_eq, str_eq_iff}
use mcp_searxng.Assoc.{lookup}
use mcp_searxng.Packages.{Url, Clock}
use mcp_searxng.Context.{
  Context, with_request_id, request_id_from, hex_encode, make_bytes, read_random, new_request_id,
}
use mcp_searxng.Domain.{SearchParams}
use mcp_searxng.Log.{Entry, text}
use mcp_searxng.Service
use mcp_searxng.Service.{SearchService, new_search_service}
use mcp_searxng.Searxng.Query.{build_search_query}
use mcp_searxng.Searxng.Client.{
  Client, ClientState, HttpRequest, headers_for, client_repository, search, do_request,
}
use mcp_searxng.Searxng.Client.Laws.{search_request}
use mcp_searxng.Handlers.Redact.{FieldValue}
use mcp_searxng.Handlers.Metrics.{CallState}
use mcp_searxng.Handlers.AccessLog.{access_fields}
use mcp_searxng.Handlers.Tools.Calls.{ToolInput, tool_params, page_or_first}
use mcp_searxng.Handlers.Tools.Errors.{IsAccepted, Asked, handle_cases}
use mcp_searxng.Handlers.ToolCall.{CallReadings}
use mcp_searxng.Handlers.ToolCall.Lines.{wrapped, inner_call, call_tool_lem}

new_request_id-nonempty : (random : List ℕ) → new_request_id random ≢ []
unfolding new_request_id hex_encode make_bytes read_random
new_request_id-nonempty [] = λ e. cc e
new_request_id-nonempty (r ∷ random) = λ e. cc e

module _ {N : Type 0} (c : Client N) where
  -- A search at a URL that could be joined sends its one request.
  net-search :
      (ctx : Context) (params : SearchParams) (st : ClientState N) (url : Str)
      → c.http.join_path c.base_url (str "/search") ≡ ok url
      → (search c ctx params st).1.net ≡ (c.http.get (search_request ctx params url) st.net).1
  unfolding search do_request
  net-search ctx params st url h = ground (arith, h)

module _ {N : Type 0} (U : Url) (T : Clock) (c : Client N) (marshal : FieldValue → Option Str)
    (source : Str) (reads : CallReadings) (i : ToolInput) (ctx : Context)
    (st : CallState (ClientState N)) (url : Str) where
  -- The search that the call makes.
  abbrev pub searched : SearchParams
  searched = record (tool_params i) { page = page_or_first (tool_params i).page }

  -- The request of the call, with its id.
  abbrev pub traced_request : HttpRequest
  traced_request = record {
    url = url;
    headers =
        (str "Accept", str "application/json")
        ∷ (str "X-Request-ID", new_request_id reads.random)
        ∷ [];
    query = some (build_search_query searched);
  }

  accepted_asked :
      IsAccepted (tool_params i)
      → Asked U T
          (new_search_service (client_repository c))
          i
          (with_request_id ctx (new_request_id reads.random))
          st.tool
  accepted_asked (given, short, small) =
      elim (handle_cases U T (new_search_service (client_repository c)) i
        (with_request_id ctx (new_request_id reads.random)) st.tool) [
          | inl (empty, _) ↦ absurd (given empty)
          | inr (inl (_, long, _)) ↦ absurd (omega arith)
          | inr (inr (inl (_, _, large, _))) ↦ absurd (large small)
          | inr (inr (inr (_, asked))) ↦ asked
        ]

  search_request_traced :
      search_request (with_request_id ctx (new_request_id reads.random)) searched url
      ≡ traced_request
  unfolding headers_for request_id_from with_request_id
  search_request_traced =
      ground
        (arith, new_request_id-nonempty reads.random, str_eq_iff (new_request_id reads.random) [])

  -- An accepted call with the info level enabled, whose URL can be joined, sends SearXNG one request, the traced one, and logs as its last line one with the same id.
  pub request_traced :
      IsAccepted (tool_params i)
      → c.http.join_path c.base_url (str "/search") ≡ ok url
      → let z =
          wrapped U T
            (new_search_service (client_repository c))
            marshal
            true
            source
            reads
            i
            ctx
            st in
        (z.1.tool.repo.net ≡ (c.http.get traced_request st.tool.repo.net).1)
        × ((line : Entry) × (z.1.tool.log
              ≡ (inner_call U T
                  (new_search_service (client_repository c))
                  marshal
                  true
                  source
                  reads
                  i
                  ctx
                  st).1.log
                ++ line ∷ [])
            × (lookup (str "request_id") line.fields ≡ some (text (new_request_id reads.random))))
  unfolding Service.search lookup access_fields str_eq
  request_traced accepted joined =
      let svc = new_search_service (client_repository c) in
      let (_, repo, log, _) = call_tool_lem U T svc marshal true source reads i ctx st in
      let ctx' = with_request_id ctx (new_request_id reads.random) in
      (
        ap (λ (x : ClientState N). x.net) (repo ∙ (accepted_asked accepted).0)
            ∙ (net-search c ctx' searched st.tool.repo url joined
                ∙ ap (λ (q : HttpRequest). (c.http.get q st.tool.repo.net).1)
                    search_request_traced),
        (_, log, refl),
      )
