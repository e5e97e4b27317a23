-- ===== src/Tests/Chains.antt =====
-- Requests through the middleware chain, with the small rate limiter.
use mcp_searxng.Prelude.{ℕ, ◌+◌, ◌≤◌, ◌≡◌, refl, true, List, [], ◌∷◌, none, some, arith, length}
use mcp_searxng.Prelude.Int.{pos, leb_ℤ}
use mcp_searxng.Text.{str, str_eq}
use mcp_searxng.Text.HostPort.{split_host_port}
use mcp_searxng.Text.Trim.{trim_left_space}
use mcp_searxng.Log.{Log}
use mcp_searxng.Context.{background}
use mcp_searxng.Assoc.{lookup, put}
use mcp_searxng.Handlers.ClientIp.{Request, get_header, extract_client_ip, host_or_all}
use mcp_searxng.Handlers.RateLimit.{
  RateLimiter, new_rate_limiter, burst_or_default, client_entry, allow_client, allow_request,
}
use mcp_searxng.Handlers.Middleware.{
  JsonRpc, WriterCall, write_header, write, Handler, Web, Moments, check_batch_size,
  default_max_request_body_size, build_http_handler, LoggingResponseWriter,
}
use mcp_searxng.Handlers.Middleware.Chain.{served, decided, handled, inner_guarded}
use mcp_searxng.Tests.Samples.{token_rate}

-- No body is a batch, and every body calls the search tool.
abbrev pub one_call : JsonRpc
one_call = record {
  batch_length = λ s. 0;
  unmarshal_call = λ s. some (str "tools/call", str "search");
}

-- An MCP handler that counts its requests.
abbrev counting : Handler WriterCall (Log × ℕ)
counting r (log, n) = (
  record { calls = write_header (pos 202) ∷ write (str "ok") 2 ∷ []; panicked = none },
  (log, n + 1),
)

abbrev pub small : RateLimiter token_rate
small = new_rate_limiter token_rate (record {
  global_limit = pos 1;
  global_burst = pos 2;
  per_client_limit = pos 1;
  per_client_burst = pos 1;
})

abbrev web : Web token_rate ℕ
web = record { limiter = small; active = 0; log = []; inner = 0 }

abbrev pub noon : Moments
noon = record { limits = record { global_at = 0; seen_at = 0; client_at = 0 }; took = 7 }

abbrev pub posted : Request
posted = record {
  method = str "POST";
  path = str "/mcp";
  header = (str "X-Client-Ip", str "a") ∷ [];
  remote_addr = [];
  context = background;
  body = record { bytes = str "{}"; fault = none };
}

-- The request gets through: the MCP handler counts it.
counted : (served one_call token_rate noon counting posted web).1.inner ≡ 1
unfolding build_http_handler extract_client_ip get_header host_or_all split_host_port str_eq
    allow_request allow_client client_entry new_rate_limiter burst_or_default lookup put leb_ℤ
    check_batch_size trim_left_space
counted = refl

inner_guarded_example :
    ((decided one_call token_rate noon counting posted web).0 ≡ true)
    × (posted.body.fault ≡ none)
    × (length posted.body.bytes ≤ default_max_request_body_size)
    × (check_batch_size one_call posted.body.bytes ≡ none)
    × ((served one_call token_rate noon counting posted web).1.inner
        ≡ (handled one_call token_rate noon counting posted web posted.body.bytes).1.1)
inner_guarded_example =
    inner_guarded one_call token_rate noon counting posted web (λ e. ground (arith, counted))

abbrev three_calls : List WriterCall
three_calls = write (str "ab") 2 ∷ write_header (pos 404) ∷ write (str "cd") 1 ∷ []

abbrev fresh_writer : LoggingResponseWriter
fresh_writer = record { status_code = pos 200; body_size = 0 }
