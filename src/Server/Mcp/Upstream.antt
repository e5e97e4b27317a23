-- ===== src/Server/Mcp/Upstream.antt =====
-- What a request over HTTP can make the server ask of SearXNG.
use mcp_searxng.Prelude.{
  ℕ, zero, suc, ◌+◌, ◌-◌, ◌≤◌, ◌≡◌, ◌≢◌, ◌⊎◌, refl, sym, subst, inl, inr, Bool, true, List, [], ◌∷◌,
  Option, none, some, arith, length, Option-cases, Result-cases, if◌then◌else◌,
}
use mcp_searxng.Prelude.Int.{pos, ◌≤ℤ◌}
use mcp_searxng.Text.{Str, str, begins_with}
use mcp_searxng.Text.Trim.{trim_left_space}
use mcp_searxng.Packages.{Url, Clock, Body}
use mcp_searxng.Context.{Context, with_request_id, new_request_id}
use mcp_searxng.Domain.{SearchParams}
use mcp_searxng.Log.{Log}
use mcp_searxng.Service
use mcp_searxng.Service.{SearchService, new_search_service}
use mcp_searxng.Searxng.Query.{build_search_query}
use mcp_searxng.Searxng.Client.{
  Client, ClientState, HttpRequest, client_repository, search, do_request,
}
use mcp_searxng.Searxng.Client.Laws.{search_request}
use mcp_searxng.Handlers.ClientIp.{
  Request, client_ip_middleware, proxy_client_ip, extract_client_ip,
}
use mcp_searxng.Handlers.RateLimit.{Rate, allow_request}
use mcp_searxng.Handlers.Redact.{FieldValue}
use mcp_searxng.Handlers.Metrics.{CallState}
use mcp_searxng.Handlers.Tools.Calls.{
  ToolInput, tool_params, page_or_first, max_query_length, max_page_number,
}
use mcp_searxng.Handlers.Tools.Errors.{IsAccepted, handle_cases, page_or_first_bounds}
use mcp_searxng.Handlers.ToolCall.{CallReadings, call_tool}
use mcp_searxng.Handlers.ToolCall.Lines.{call_tool_lem}
use mcp_searxng.Handlers.Middleware.{
  JsonRpc, Moments, Web, Answer, ServerCall, WriterCall, Handler, max_batch_size,
  default_max_request_body_size, check_batch_size,
}
use mcp_searxng.Handlers.Middleware.Chain.{served, serve_cases, handled, read_all-max_bytes_reader}
use mcp_searxng.Server.Mcp.{Sdk, Backend, serve_calls, mcp_server}

-- A request for a search with a query of 1 to 512 bytes and a page from 1 to 100.
abbrev pub IsSearch : HttpRequest → Type 0
IsSearch q =
    (p : SearchParams) × ((q.query ≡ some (build_search_query p))
      × (p.query ≢ [])
      × (length p.query ≤ max_query_length)
      × (pos 1 ≤ℤ p.page)
      × (p.page ≤ℤ pos max_page_number))

module _ {N : Type 0} (c : Client N) where
  -- A network that comes from another by a number of requests, each of them such a search.
  pub data Sent : ℕ → N → N → Type 0 where
    none_sent : {n : N} → Sent zero n n
    one_more :
        {k : ℕ} {n m : N}
        → Sent k n m
        → (q : HttpRequest) → IsSearch q
        → Sent (suc k) n (c.http.get q m).1

  -- At most a number of requests were sent.
  abbrev pub SentAtMost : ℕ → N → N → Type 0
  SentAtMost limit a b = (k : ℕ) × ((k ≤ limit) × Sent k a b)

  Sent-trans :
      (limit i k : ℕ) (a b d : N)
      → i + k ≤ limit
      → SentAtMost i a b
      → Sent k b d
      → SentAtMost limit a d
  Sent-trans limit i zero a b _ h (m, (few, first)) none_sent = (m, (omega (arith, few, h), first))
  Sent-trans limit i (suc k) a b _ h first (one_more {m} rest q is_search) =
      let (n, (few, sent)) = Sent-trans (limit - 1) i k a b m (omega (arith, h)) first rest in
      (suc n, (omega (arith, few, h), one_more sent q is_search))

  pub SentAtMost-trans :
      (limit i j : ℕ) (a b d : N)
      → i + j ≤ limit
      → SentAtMost i a b
      → SentAtMost j b d
      → SentAtMost limit a d
  SentAtMost-trans limit i j a b d h first (n, (few, rest)) =
      Sent-trans limit i n a b d (omega (arith, h, few)) first rest

  search_sent :
      (ctx : Context) (p : SearchParams) (st : ClientState N)
      → ((q : HttpRequest) → q.query ≡ some (build_search_query p) → IsSearch q)
      → SentAtMost 1 st.net (search c ctx p st).1.net
  unfolding search do_request
  search_sent ctx p st safe = elim (Result-cases (c.http.join_path c.base_url (str "/search"))) [
    | inr (e, h) ↦ rw (search, do_request, h) (0, (omega arith, none_sent))
    | inl (url, h) ↦
        let q = search_request ctx p url in
        rw (search, do_request, h) (1, (omega arith, one_more none_sent q (safe q refl)))
  ]

module _ {N : Type 0} (U : Url) (T : Clock) (c : Client N) (marshal : FieldValue → Option Str)
    (info_enabled : Bool) (source : Str) where
  abbrev svc : SearchService (ClientState N)
  svc = new_search_service (client_repository c)

  accepted-IsSearch :
      (p : SearchParams) (q : HttpRequest)
      → IsAccepted p
      → q.query ≡ some (build_search_query (record p { page = page_or_first p.page }))
      → IsSearch q
  accepted-IsSearch p q (given, short, small) h =
      let (low, high) = page_or_first_bounds p.page small in
      (record p { page = page_or_first p.page }, (h, given, short, low, high))

  -- A call of a tool sends one search at most.
  call_sent :
      (reads : CallReadings) (i : ToolInput) (ctx : Context) (st : CallState (ClientState N))
      → SentAtMost c 1 st.tool.repo.net
          (call_tool U T svc marshal info_enabled source reads i ctx st).1.tool.repo.net
  unfolding Service.search
  call_sent reads i ctx st =
      let (_, same, _, _) = call_tool_lem U T svc marshal info_enabled source reads i ctx st in
      let ctx' = with_request_id ctx (new_request_id reads.random) in
      let unsent : SentAtMost c 1 st.tool.repo.net st.tool.repo.net =
        (0, (omega arith, none_sent)) in
      rw same (elim (handle_cases U T svc i ctx' st.tool) [
        | inl (_, (_, kept, _)) ↦ rw kept unsent
        | inr (inl (_, _, (_, kept, _))) ↦ rw kept unsent
        | inr (inr (inl (_, _, _, (_, kept, _)))) ↦ rw kept unsent
        | inr (inr (inr (accepted, (asked, _)))) ↦ rw asked (
            search_sent c ctx'
              (record (tool_params i) { page = page_or_first (tool_params i).page }) st.tool.repo
              (λ q. accepted-IsSearch (tool_params i) q accepted))
      ])

  -- The calls of a request send one search each at most.
  calls_sent :
      (readings : ℕ → CallReadings) (n : ℕ) (cs : List (Context × ToolInput))
      (st : CallState (ClientState N))
      → SentAtMost c
          (length cs)
          st.tool.repo.net
          (serve_calls U T svc marshal info_enabled source readings n cs st).1.tool.repo.net
  unfolding serve_calls
  calls_sent readings n [] st = (0, (omega arith, none_sent))
  calls_sent readings n ((ctx, i) ∷ cs) st =
      let st' = (call_tool U T svc marshal info_enabled source (readings n) i ctx st).1 in
      SentAtMost-trans c (suc (length cs)) 1 (length cs) _ _ _ (omega arith)
        (call_sent (readings n) i ctx st) (calls_sent readings (suc n) cs st')

-- The number of requests that a JSON-RPC body holds: those of a batch, and one otherwise.
unfoldable pub rpc_count : JsonRpc → Str → ℕ
rpc_count J body =
    let trimmed = trim_left_space body in
    let size = J.batch_length trimmed in if begins_with b'[' trimmed then size else 1

pub rpc_count_bounded :
    (J : JsonRpc) (body : Str) → check_batch_size J body ≡ none → rpc_count J body ≤ max_batch_size
unfolding rpc_count check_batch_size
rpc_count_bounded J body h = ground arith

module _ {N : Type 0} (U : Url) (T : Clock) (c : Client N) (marshal : FieldValue → Option Str)
    (info_enabled : Bool) (source : Str) (readings : ℕ → CallReadings) (D : Sdk) (J : JsonRpc)
    (R : Rate) (t : Moments) (r : Request) (web : Web R (Backend (ClientState N))) where
  -- The MCP handler, and the request served by the whole chain with it.
  abbrev pub tools : Handler WriterCall (Log × Backend (ClientState N))
  tools =
      mcp_server U T (new_search_service (client_repository c)) marshal info_enabled source readings
        D

  abbrev pub answered : Answer ServerCall × Web R (Backend (ClientState N))
  answered = served J R t tools r web

  abbrev pub SentWithin : ℕ → Backend (ClientState N) → Type 0
  SentWithin limit b = SentAtMost c limit web.inner.repo.net b.repo.net

  body-client_ip_middleware : (q : Request) → (client_ip_middleware q).body ≡ q.body
  unfolding client_ip_middleware
  body-client_ip_middleware q = elim (Option-cases (proxy_client_ip q)) [
    | inl e ↦ rw (client_ip_middleware, e) refl
    | inr (ip, e) ↦ rw (client_ip_middleware, e) refl
  ]

  pub handled_sent :
      ((q : Request) → length (D.calls q) ≤ rpc_count J q.body.bytes)
      → (body : Str) → SentWithin (rpc_count J body) (handled J R t tools r web body).1.1
  unfolding mcp_server
  handled_sent rpc body =
      let q : Request = record r { body = record { bytes = body; fault = none } } in
      let few : length (D.calls (client_ip_middleware q)) ≤ rpc_count J body =
        subst (λ (b : Body). length (D.calls (client_ip_middleware q)) ≤ rpc_count J b.bytes)
          (body-client_ip_middleware q) (rpc (client_ip_middleware q)) in
      let (k, (fewer, sent)) =
        calls_sent U T c marshal info_enabled source readings 0 (D.calls (client_ip_middleware q))
          (record {
            tool = record { repo = web.inner.repo; log = web.log };
            metrics = web.inner.metrics;
          }) in
      (k, (omega (arith, few, fewer), sent))

  -- If the SDK finds no more calls in a request than its body holds JSON-RPC requests: a request over
  -- HTTP leaves the tools' side of the server as it was, or else it was admitted by the rate limiter,
  -- its body holds at most 100 JSON-RPC requests, and SearXNG gets at most one request for each of
  -- these, every one a search with a query of 1 to 512 bytes and a page from 1 to 100.
  pub upstream_bounded :
      ((q : Request) → length (D.calls q) ≤ rpc_count J q.body.bytes)
      → (answered.1.inner ≡ web.inner)
        ⊎ (((allow_request R web.limiter t.limits (extract_client_ip r)).0 ≡ true)
            × (rpc_count J r.body.bytes ≤ max_batch_size)
            × SentWithin (rpc_count J r.body.bytes) answered.1.inner)
  upstream_bounded rpc = elim (serve_cases J R t tools r web).1 [
    | inl (_, (_, _, same)) ↦ inl same
    | inr (inl (_, (_, _, (_, _, same)))) ↦ inl same
    | inr (inr (_, (_, _, inl (_, _, (_, _, same))))) ↦ inl same
    | inr (inr (d, (body, h, inr (k, z)))) ↦
        let whole = (read_all-max_bytes_reader default_max_request_body_size r.body body h).0 in
        inr (
          d,
          subst (λ (s : Str). rpc_count J s ≤ max_batch_size) whole (rpc_count_bounded J body k),
          subst (λ (s : Str). SentWithin (rpc_count J s) answered.1.inner) whole
              (subst (λ (b : Backend (ClientState N)). SentWithin (rpc_count J body) b) (sym z.0)
                (handled_sent rpc body)),
        )
  ]
