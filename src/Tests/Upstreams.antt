-- ===== src/Tests/Upstreams.antt =====
-- A request over HTTP that calls a tool.
use mcp_searxng.Prelude.{
  All, ℕ, zero, suc, ◌≤◌, ◌≡◌, ◌⊎◌, refl, ap, true, List, [], ◌∷◌, none, arith, length,
}
use mcp_searxng.Prelude.Int.{ltb_ℤ, leb_ℤ}
use mcp_searxng.Text.{str, str_eq}
use mcp_searxng.Text.HostPort.{split_host_port}
use mcp_searxng.Text.Trim.{trim_left_space, trim_space}
use mcp_searxng.Context.{Context, background, client_ip_from}
use mcp_searxng.Assoc.{lookup, put}
use mcp_searxng.Service
use mcp_searxng.Searxng.Client.{ClientState, search, do_request}
use mcp_searxng.Handlers.ClientIp.{
  Request, get_header, extract_client_ip, host_or_all, client_ip_middleware, proxy_client_ip,
}
use mcp_searxng.Handlers.RateLimit.{
  new_rate_limiter, burst_or_default, client_entry, allow_client, allow_request,
}
use mcp_searxng.Handlers.Tools.Calls.{
  ToolInput, handle, search_handler, tool_call, validate_query, validate_page, search_helper,
  conclude,
}
use mcp_searxng.Handlers.Metrics.{wrap_tool_handler}
use mcp_searxng.Handlers.AccessLog.{wrap_access_log}
use mcp_searxng.Handlers.ToolCall.{CallReadings, call_tool, bare_handler}
use mcp_searxng.Handlers.Middleware.{
  JsonRpc, write, Web, max_batch_size, build_http_handler, recovery_middleware, metrics_middleware,
  rate_limit_middleware, body_limit_middleware, logging_middleware, serve_read, serve_checked,
  check_batch_size, mcp_handler,
}
use mcp_searxng.Server.Mcp.{Sdk, Backend, serve_calls, mcp_server}
use mcp_searxng.Server.Mcp.Upstream.{rpc_count, answered, SentWithin, upstream_bounded}
use mcp_searxng.Tests.Samples.{token_rate, text_url, text_clock, steady_client}
use mcp_searxng.Server.Mcp.Logs.{answered_log-IsOneLine}
use mcp_searxng.Handlers.AccessLog.OneLine.{IsInline}
use mcp_searxng.Handlers.Middleware.OneLine.{IsOneLine}
use mcp_searxng.Handlers.Middleware.Chain.{served}
use mcp_searxng.Tests.ToolCalls.{good_service, good_reply, go_call}
use mcp_searxng.Tests.Calls.{brace_marshal, readings, label}
use mcp_searxng.Tests.Chains.{one_call, small, noon, posted}

-- A batch is as long as its text.
abbrev pub long_batch : JsonRpc
long_batch = record one_call { batch_length = length }

abbrev pub searches : Context → ℕ → List (Context × ToolInput)
searches ctx zero = []
searches ctx (suc n) = (ctx, go_call) ∷ searches ctx n

length-searches : (ctx : Context) (n : ℕ) → length (searches ctx n) ≡ n
length-searches ctx zero = refl
length-searches ctx (suc n) = ap suc (length-searches ctx n)

-- A search for "go" for every request of a body, with the context of the HTTP request.
abbrev pub all_searches : Sdk
all_searches = record {
  calls = λ r. searches r.context (rpc_count long_batch r.body.bytes);
  reply = λ r results. record { calls = write (str "{}") 2 ∷ []; panicked = none };
}

pub all_searches-few :
    (q : Request) → length (all_searches.calls q) ≤ rpc_count long_batch q.body.bytes
all_searches-few q = omega (arith, length-searches q.context (rpc_count long_batch q.body.bytes))

abbrev online : Web token_rate (Backend (ClientState ℕ))
online = record {
  limiter = small;
  active = 0;
  log = [];
  inner = record { metrics = none; repo = record { metrics = none; net = 0 } };
}

abbrev pub same_readings : ℕ → CallReadings
same_readings n = readings

-- A batch of three.
abbrev pub batch : Request
batch = record posted { body = record { bytes = str "[,]"; fault = none } }

abbrev after_batch : Web token_rate (Backend (ClientState ℕ))
after_batch =
    (answered text_url text_clock (steady_client good_reply) brace_marshal true label same_readings
      all_searches long_batch token_rate noon batch online).1

three_sent : after_batch.inner.repo.net ≡ 3
unfolding build_http_handler recovery_middleware metrics_middleware rate_limit_middleware
    body_limit_middleware logging_middleware serve_read serve_checked check_batch_size mcp_handler
    mcp_server serve_calls call_tool bare_handler wrap_tool_handler wrap_access_log handle
    search_handler tool_call validate_query validate_page search_helper conclude Service.search
    search do_request str_eq ltb_ℤ leb_ℤ rpc_count trim_left_space extract_client_ip get_header
    host_or_all split_host_port allow_request allow_client client_entry new_rate_limiter
    burst_or_default lookup put client_ip_middleware proxy_client_ip trim_space
three_sent = refl

upstream_bounded_example :
    (after_batch.inner ≡ online.inner)
    ⊎ (((allow_request token_rate online.limiter noon.limits (extract_client_ip batch)).0 ≡ true)
        × (rpc_count long_batch (str "[,]") ≤ max_batch_size)
        × SentWithin text_url text_clock
            (steady_client good_reply)
            brace_marshal
            true
            label
            same_readings
            all_searches
            long_batch
            token_rate
            noon
            batch
            online
            (rpc_count long_batch (str "[,]"))
            after_batch.inner)
upstream_bounded_example =
    upstream_bounded text_url text_clock (steady_client good_reply) brace_marshal true label
      same_readings all_searches long_batch token_rate noon batch online all_searches-few

-- One search for every request, with a context of its own.
abbrev one_search : Sdk
one_search = record {
  calls = λ r. (background, go_call) ∷ [];
  reply = λ r results. record { calls = write (str "{}") 2 ∷ []; panicked = none };
}

no_address :
    (q : Request)
    → All (λ (c : Context × ToolInput). All IsInline (client_ip_from c.0)) (one_search.calls q)
unfolding client_ip_from
no_address q = (tt, tt)

answered_log-IsOneLine_example :
    All IsOneLine
      (served long_batch token_rate noon
        (mcp_server text_url text_clock good_service brace_marshal true label same_readings
          one_search)
        batch
        online).1.log
answered_log-IsOneLine_example =
    answered_log-IsOneLine text_url text_clock good_service brace_marshal true label (ground arith)
      same_readings one_search long_batch token_rate noon batch online (λ k. ground arith)
      no_address (λ f h. absurd (cc h)) tt
