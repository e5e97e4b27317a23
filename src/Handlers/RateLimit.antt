-- ===== src/Handlers/RateLimit.antt =====
-- handlers/ratelimit.go: token buckets for all clients together and for each client by its address.
pub mod Limits
pub mod Refinement
pub mod Lifecycle
use mcp_searxng.Prelude.{
  ℕ, ◌-◌, ◌*◌, Bool, true, false, List, [], ◌∷◌, Option, none, some, leb, if◌then◌else◌,
}
use mcp_searxng.Prelude.Int.{ℤ, pos, leb_ℤ, double64}
use mcp_searxng.Text.{Str}
use mcp_searxng.Assoc.{lookup, put, retain}

-- golang.org/x/time/rate, and the conversions between int and its Limit, a float64. `allow` is
-- Limiter.AllowN(now, 1), which changes the limiter.
pub record Rate : Type 1 where
  pub Limit : Type 0
  pub of_int : ℤ → Limit
  pub to_int : Limit → ℤ
  pub Limiter : Type 0
  pub new_limiter : Limit → ℤ → Limiter
  pub allow : ℕ → Limiter → Bool × Limiter

-- clientTTL, in nanoseconds
abbrev pub client_ttl : ℕ
client_ttl = 30 * 60 * 1000000000

-- The readings of the clock in one call of Allow: by the global limiter, for `lastSeen`, and by the
-- client's limiter.
pub record Readings : Type 0 where
  pub global_at : ℕ
  pub seen_at : ℕ
  pub client_at : ℕ

-- What ends a wait in the loop of evictStaleClients: `stopCh` is closed, or the ticker ticks, with
-- the readings of the clock in the eviction that follows.
pub data Wake : Type 0 where
  stop_closed : Wake
  ticked : (Str → ℕ) → Wake

module _ (R : Rate) where
  open R use {Limit, to_int, Limiter, new_limiter, allow}

  pub record RateLimiterConfig : Type 0 where
    pub global_limit : Limit
    pub global_burst : ℤ
    pub per_client_limit : Limit
    pub per_client_burst : ℤ

  pub record ClientLimiter : Type 0 where
    pub limiter : Limiter
    pub last_seen : ℕ

  -- The eviction goroutine: `closed` says that `stopCh` is closed, `evicting` that the loop runs.
  pub record RateLimiter : Type 0 where
    pub config : RateLimiterConfig
    pub global : Limiter
    pub clients : List (Str × ClientLimiter)
    pub closed : Bool
    pub evicting : Bool

  -- The burst of a limiter: twice the rate where none is configured.
  unfoldable pub burst_or_default : ℤ → Limit → ℤ
  burst_or_default burst limit = if leb_ℤ burst (pos 0) then double64 (to_int limit) else burst

  -- NewRateLimiter
  unfoldable pub new_rate_limiter : RateLimiterConfig → RateLimiter
  new_rate_limiter config = record {
    config = config;
    global =
        new_limiter config.global_limit (burst_or_default config.global_burst config.global_limit);
    clients = [];
    closed = false;
    evicting = true;
  }

  -- The entry of a client, made if there is none, with `lastSeen` set.
  unfoldable pub client_entry : RateLimiter → ℕ → Str → ClientLimiter
  client_entry rl now ip = elim (lookup ip rl.clients) [
    | none ↦ record {
      limiter =
          new_limiter rl.config.per_client_limit
            (burst_or_default rl.config.per_client_burst rl.config.per_client_limit);
      last_seen = now;
    }
    | some entry ↦ record entry { last_seen = now }
  ]

  -- The second half of Allow, after the global limiter. The map holds a pointer to the entry, so the
  -- change that the client's limiter makes is in the map.
  unfoldable pub allow_client : RateLimiter → Readings → Str → Bool × RateLimiter
  allow_client rl t ip =
      let entry = client_entry rl t.seen_at ip in
      let (admitted, limiter) = allow t.client_at entry.limiter in
      (admitted, record rl { clients = put ip (record entry { limiter = limiter }) rl.clients })

  -- RateLimiter.Allow
  unfoldable pub allow_request : RateLimiter → Readings → Str → Bool × RateLimiter
  allow_request rl t ip =
      let (admitted, global) = allow t.global_at rl.global in
      let rl' = record rl { global = global } in
      if admitted then allow_client rl' t ip else (false, rl')

  -- RateLimiter.evictExpired; each entry's age is taken at a reading of its own. On ℕ a reading
  -- before `lastSeen` gives the age 0, which is as fresh as Go's negative age.
  unfoldable pub evict_expired : (Str → ℕ) → RateLimiter → RateLimiter
  evict_expired now rl = record rl {
    clients = retain (λ ip entry. leb (now ip - entry.last_seen) client_ttl) rl.clients;
  }

  -- RateLimiter.Stop; a second call panics, which is `none`.
  unfoldable pub stop : RateLimiter → Option RateLimiter
  stop rl = if rl.closed then none else some (record rl { closed = true })

  -- One pass of the loop of RateLimiter.evictStaleClients.
  unfoldable pub evict_stale_clients : Wake → RateLimiter → RateLimiter
  evict_stale_clients stop_closed rl = record rl { evicting = false }
  evict_stale_clients (ticked now) rl = evict_expired now rl
