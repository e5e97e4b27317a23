-- ===== src/Handlers/RateLimit/Lifecycle.antt =====
-- The rate limiter while the server runs: requests, the eviction loop and Stop in any order, as the
-- mutex and the channel let them follow each other, under a clock that does not go back.
pub mod Invariant
pub mod History
pub mod Forgetting
pub mod Stopping
pub mod Refill
pub mod Remembering
pub mod Unnoticed
pub mod Admitted
pub mod Rates
use mcp_searxng.Prelude.{
  ℕ, ◌+◌, ◌-◌, ◌≤◌, ◌<◌, ◌≡◌, ◌≢◌, ◌⊎◌, refl, sym, ◌∙◌, inl, inr, Bool, true, false, List, [], ◌∷◌,
  Option, none, some, arith, leb, if◌then◌else◌, Bool-cases,
}
use mcp_searxng.Text.{Str, str_eq, str_eq_iff}
use mcp_searxng.Assoc.{lookup, IsMap, kept}
use mcp_searxng.Handlers.RateLimit.{
  Rate, client_ttl, Readings, RateLimiter, RateLimiterConfig, ClientLimiter, Wake, stop_closed,
  ticked, client_entry, allow_client, allow_request, evict_expired, evict_stale_clients, stop,
  new_rate_limiter,
}
use mcp_searxng.Handlers.RateLimit.Limits.{
  allow_request_lem, allow_request-IsMap, evict_expired-IsMap, evict_expired-lookup, is_fresh,
  last_seen-client_entry,
}

-- What happens to a limiter: a call of Allow, a pass of the eviction loop, a call of Stop.
pub data Event : Type 0 where
  request : Readings → Str → Event
  wake : Wake → Event
  stop_call : Event

-- Allow reads the clock for the limiter of all, then for `lastSeen`, then for the client's limiter.
abbrev pub InOrder : Readings → Type 0
InOrder t = (t.global_at ≤ t.seen_at) × (t.seen_at ≤ t.client_at)

-- No request of a client is among the events.
abbrev pub IsQuiet : Str → List Event → Type 0
IsQuiet ip [] = Unit
IsQuiet ip (request t j ∷ es) = (j ≢ ip) × IsQuiet ip es
IsQuiet ip (wake w ∷ es) = IsQuiet ip es
IsQuiet ip (stop_call ∷ es) = IsQuiet ip es

module _ (R : Rate) where
  -- A limiter, and a time by which its past is over.
  pub record Moment : Type 0 where
    pub now : ℕ
    pub limiter : RateLimiter R

  -- Allow and evictExpired hold the mutex. The loop waits on two channels, and takes either if both
  -- are ready; a closed one stays ready.
  pub data Step : Event → Moment → Moment → Type 0 where
    requested :
        {s : Moment} (t : Readings) (ip : Str) (later : ℕ)
        → s.now ≤ t.global_at
        → InOrder t
        → t.client_at ≤ later
        → Step
            (request t ip)
            s
            (record { now = later; limiter = (allow_request R s.limiter t ip).1 })
    swept :
        {s : Moment} (now : Str → ℕ) (later : ℕ)
        → s.limiter.evicting ≡ true
        → ((ip : Str) → (s.now ≤ now ip) × (now ip ≤ later))
        → s.now ≤ later
        → Step
            (wake (ticked now))
            s
            (record { now = later; limiter = evict_stale_clients R (ticked now) s.limiter })
    returned :
        {s : Moment}
        → s.limiter.evicting ≡ true
        → s.limiter.closed ≡ true
        → Step
            (wake stop_closed)
            s
            (record { now = s.now; limiter = evict_stale_clients R stop_closed s.limiter })
    stopped :
        {s : Moment} {rl : RateLimiter R}
        → stop R s.limiter ≡ some rl
        → Step stop_call s (record { now = s.now; limiter = rl })

  pub data Run : List Event → Moment → Moment → Type 0 where
    done : {s : Moment} → Run [] s s
    and_then :
        {e : Event} {es : List Event} {s t u : Moment} → Step e s t → Run es t u → Run (e ∷ es) s u
