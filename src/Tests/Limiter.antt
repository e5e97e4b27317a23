-- ===== src/Tests/Limiter.antt =====
-- A rate limiter of two tokens for all and one for each client.
use mcp_searxng.Prelude.{◌≡◌, refl, true, false, List, [], ◌∷◌}
use mcp_searxng.Prelude.Int.{pos, leb_ℤ}
use mcp_searxng.Text.{Str, str, str_eq}
use mcp_searxng.Assoc.{lookup, put}
use mcp_searxng.Handlers.RateLimit.{
  Readings, RateLimiterConfig, RateLimiter, new_rate_limiter, client_entry, allow_client,
  allow_request, burst_or_default,
}
use mcp_searxng.Handlers.RateLimit.Refinement.{
  allow_all, current, spend, own_times, clients_isolated,
}
use mcp_searxng.Tests.Samples.{token_rate}

abbrev pub small_config : RateLimiterConfig token_rate
small_config = record {
  global_limit = pos 1;
  global_burst = pos 2;
  per_client_limit = pos 1;
  per_client_burst = pos 1;
}

abbrev small : RateLimiter token_rate
small = new_rate_limiter token_rate small_config

abbrev pub at_noon : Readings
at_noon = record { global_at = 0; seen_at = 0; client_at = 0 }

-- Two requests of one client and one of another.
abbrev requests : List (Readings × Str)
requests = (at_noon, str "a") ∷ (at_noon, str "a") ∷ (at_noon, str "b") ∷ []

-- The second request of a client finds its one token used; the third finds those of all used.
decisions : (allow_all token_rate small requests).0 ≡ true ∷ false ∷ false ∷ []
unfolding allow_all allow_request allow_client client_entry new_rate_limiter burst_or_default lookup
    put str_eq leb_ℤ
decisions = refl

abbrev after_one : RateLimiter token_rate
after_one = (allow_request token_rate small at_noon (str "a")).1

-- The limiter with one client, seen at 0.
abbrev seen_once : RateLimiter token_rate
seen_once = record small { clients = (str "a", record { limiter = 0; last_seen = 0 }) ∷ [] }

small_passes : (token_rate.allow at_noon.global_at small.global).0 ≡ true
unfolding new_rate_limiter burst_or_default leb_ℤ
small_passes = refl

clients_isolated_example :
    current token_rate (allow_all token_rate small requests).1 (str "b")
    ≡ spend token_rate
        (current token_rate small (str "b"))
        (own_times token_rate (str "b") small.global requests)
clients_isolated_example = clients_isolated token_rate small requests (str "b")
