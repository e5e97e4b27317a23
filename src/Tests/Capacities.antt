-- ===== src/Tests/Capacities.antt =====
-- A server that admits one request a second, and gets a batch of three searches.
use mcp_searxng.Searxng.Client.{ClientState}
use mcp_searxng.Server.Mcp.{Backend}
use mcp_searxng.Prelude.{ℕ, true, ◌+◌, ◌≡◌, ◌-◌, ◌*◌, refl, [], ◌∷◌, none, arith}
use mcp_searxng.Prelude.Int.{leb_ℤ}
use mcp_searxng.Handlers.ClientIp.{extract_client_ip}
use mcp_searxng.Handlers.RateLimit.{burst_or_default, new_rate_limiter}
use mcp_searxng.Handlers.RateLimit.Lifecycle.{request}
use mcp_searxng.Handlers.Middleware.{max_batch_size, WriterCall, Handler}
use mcp_searxng.Server.Mcp.Upstream.{SentAtMost}
use mcp_searxng.Server.Mcp.Capacity.{tools, capacity}
use mcp_searxng.Handlers.Middleware.Flight.{begin}
use mcp_searxng.Handlers.Middleware.Life.{
  Flight, Stand, ServerRun, over, entering, landing, entered, landed, gauge_in_flight,
}
use mcp_searxng.Log.{Log}
use mcp_searxng.Tests.Samples.{text_url, text_clock, steady_client}
use mcp_searxng.Tests.ToolCalls.{good_reply}
use mcp_searxng.Tests.Calls.{brace_marshal, label}
use mcp_searxng.Tests.Chains.{noon}
use mcp_searxng.Tests.Evictions.{spaced_rate, spaced_config, spaced-Bounded, one_a_second}
use mcp_searxng.Tests.Upstreams.{long_batch, all_searches, all_searches-few, batch, same_readings}

-- The MCP handler over the sample service.
abbrev base : Handler WriterCall (Log × Backend (ClientState ℕ))
base =
    tools text_url text_clock (steady_client good_reply) brace_marshal true label same_readings
      all_searches long_batch spaced_rate

abbrev opened : Stand spaced_rate (Backend (ClientState ℕ))
opened = record {
  now = 0;
  web = record {
    limiter = new_rate_limiter spaced_rate spaced_config;
    active = 0;
    log = [];
    inner = record { metrics = none; repo = record { metrics = none; net = 0 } };
  };
  flights = [];
}

-- The batch in flight.
abbrev busy : Stand spaced_rate (Backend (ClientState ℕ))
busy = entered long_batch spaced_rate base noon batch 9 opened

abbrev flight : Flight
flight = record {
  moments = noon;
  request = batch;
  admitted = (begin long_batch spaced_rate noon base batch opened.web).0;
}

abbrev served_out : Stand spaced_rate (Backend (ClientState ℕ))
served_out = landed long_batch spaced_rate base flight [] busy

whole :
    ServerRun long_batch spaced_rate base
      (request noon.limits (extract_client_ip batch) ∷ [])
      opened
      served_out
unfolding begin
whole =
    entering noon batch 9 (omega arith) (omega arith, omega arith) (omega arith)
      (landing [] flight [] refl over)

capacity_example :
    SentAtMost
      (steady_client good_reply)
      (max_batch_size * (0 + one_a_second (9 - 0)))
      opened.web.inner.repo.net
      served_out.web.inner.repo.net
unfolding burst_or_default leb_ℤ
capacity_example =
    capacity text_url text_clock (steady_client good_reply) brace_marshal true label same_readings
      all_searches long_batch spaced_rate all_searches-few spaced_config one_a_second spaced-Bounded
      [] (request noon.limits (extract_client_ip batch) ∷ []) opened opened served_out refl over
      whole

gauge_in_flight_example : served_out.web.active ≡ 0
gauge_in_flight_example = gauge_in_flight long_batch spaced_rate base whole refl
