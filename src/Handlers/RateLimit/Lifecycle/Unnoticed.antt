-- ===== src/Handlers/RateLimit/Lifecycle/Unnoticed.antt =====
-- The eviction loop as the clients of a limiter see it.
use mcp_searxng.Prelude.{
  sym, ℕ, ◌+◌, ◌≤◌, ◌≡◌, ◌∙◌, true, false, List, [], ◌∷◌, Option, none, some, arith, Bool-cases,
  inl, inr,
}
use mcp_searxng.Text.{Str}
use mcp_searxng.Assoc.{lookup, kept}
use mcp_searxng.Handlers.RateLimit.{
  Rate, client_ttl, Readings, RateLimiter, stop, RateLimiterConfig, ClientLimiter, ticked,
  evict_stale_clients, new_rate_limiter, allow_request,
}
use mcp_searxng.Handlers.RateLimit.Limits.{is_fresh, evict_expired-lookup, evict_expired-IsMap}
use mcp_searxng.Handlers.RateLimit.Refinement.{Limiters, ask, ask_all, view, limiter_of}
use mcp_searxng.Handlers.RateLimit.Lifecycle.{
  Event, request, wake, stop_call, Moment, requested, swept, returned, stopped, Run, done, and_then,
}
use mcp_searxng.Handlers.RateLimit.Lifecycle.Invariant.{
  config-evict_expired, global-evict_expired, stop_made,
}
use mcp_searxng.Handlers.RateLimit.Lifecycle.Refill.{
  Used-later, Refills, Alike, Alike-later, Alike-refilled,
}
use mcp_searxng.Handlers.RateLimit.Lifecycle.Remembering.{
  decision-Like, client_burst, Tracked, Like, flags-Like, Tracked-later, new-Like, requested-Like,
  ask_decision,
}

-- The requests among the events.
abbrev pub requests_of : List Event → List (Readings × Str)
requests_of [] = []
requests_of (request t ip ∷ es) = (t, ip) ∷ requests_of es
requests_of (wake w ∷ es) = requests_of es
requests_of (stop_call ∷ es) = requests_of es

-- In each request the client's limiter is asked at most a delay after `lastSeen` is taken.
abbrev pub IsPrompt : ℕ → List Event → Type 0
IsPrompt delay [] = Unit
IsPrompt delay (request t ip ∷ es) = (t.client_at ≤ t.seen_at + delay) × IsPrompt delay es
IsPrompt delay (wake w ∷ es) = IsPrompt delay es
IsPrompt delay (stop_call ∷ es) = IsPrompt delay es

module _ (R : Rate) (config : RateLimiterConfig R) (wait delay : ℕ) where
  open R use {Limiter, allow}

  -- A forgotten limiter had refilled.
  kept-Alike :
      (m now later : ℕ) (o : Option (ClientLimiter R)) (k : Limiter)
      → Refills R config.per_client_limit (client_burst R config) wait
      → wait + delay ≤ client_ttl
      → m ≤ later
      → now ≤ later
      → Tracked R config delay m o
      → Alike R m (limiter_of R config o) k
      → Alike R later (limiter_of R config (kept (is_fresh R now) o)) k
  kept-Alike m now later none k refills room h g old alike = Alike-later R m later _ k h alike
  kept-Alike m now later (some e) k refills room h g (n, (seen, past, used)) alike =
      elim (Bool-cases (is_fresh R now e)) [
        | inl f ↦ rw f (Alike-later R m later _ k h alike)
        | inr f ↦ rw f (
            Alike-refilled R config.per_client_limit (client_burst R config) wait n later e.limiter
              k refills used (ground (arith, seen, f)) (Alike-later R m later _ k h alike))
      ]

  kept-Tracked :
      (m now later : ℕ) (o : Option (ClientLimiter R))
      → m ≤ later
      → Tracked R config delay m o
      → Tracked R config delay later (kept (is_fresh R now) o)
  kept-Tracked m now later none h old = tt
  kept-Tracked m now later (some e) h old = elim (Bool-cases (is_fresh R now e)) [
    | inl f ↦ rw f (Tracked-later R config delay m later (some e) h old)
    | inr f ↦ rw f tt
  ]

  pub swept-Like :
      (s : Moment R) (ls : Limiters R) (now : Str → ℕ) (later : ℕ)
      → Refills R config.per_client_limit (client_burst R config) wait
      → wait + delay ≤ client_ttl
      → ((ip : Str) → (s.now ≤ now ip) × (now ip ≤ later))
      → s.now ≤ later
      → Like R config delay s ls
      → Like R config delay
          (record { now = later; limiter = evict_stale_clients R (ticked now) s.limiter })
          ls
  unfolding evict_stale_clients
  swept-Like s ls now later refills room readings time like = record {
    one_each = evict_expired-IsMap R now s.limiter like.one_each;
    same_config = config-evict_expired R s.limiter now ∙ like.same_config;
    same_global = global-evict_expired R s.limiter now ∙ like.same_global;
    alike = λ ip.
        rw
          (
            config-evict_expired R s.limiter now,
            evict_expired-lookup R now s.limiter ip like.one_each,
            like.same_config,
          )
          (kept-Alike s.now (now ip) later (lookup ip s.limiter.clients) (ls.client ip) refills room
            time (readings ip).1 (like.tracked ip) (rw like.same_config at like.alike ip));
    tracked = λ ip.
        rw (evict_expired-lookup R now s.limiter ip like.one_each)
          (kept-Tracked s.now (now ip) later (lookup ip s.limiter.clients) time (like.tracked ip));
    own_used = λ ip. Used-later R _ _ s.now later _ time (like.own_used ip);
  }

  pub stopped-Like :
      (s : Moment R) (ls : Limiters R) (rl : RateLimiter R)
      → stop R s.limiter ≡ some rl
      → Like R config delay s ls
      → Like R config delay (record { now = s.now; limiter = rl }) ls
  stopped-Like s ls rl h like =
      rw (stop_made R s.limiter rl h) (flags-Like R config delay s ls true s.limiter.evicting like)

  pub Run-Like :
      {es : List Event} {s t : Moment R} (ls : Limiters R)
      → Refills R config.per_client_limit (client_burst R config) wait
      → wait + delay ≤ client_ttl
      → Run R es s t
      → IsPrompt delay es
      → Like R config delay s ls
      → Like R config delay t (ask_all R ls (requests_of es)).1
  unfolding ask_all evict_stale_clients
  Run-Like ls refills room done prompt like = like
  Run-Like ls refills room (and_then (requested {s} t ip later past order soon) run) (one, prompt)
        like =
      Run-Like (ask R ls t ip).1 refills room run prompt
        (requested-Like R config delay s ls t ip later past order soon one like)
  Run-Like ls refills room (and_then (swept {s} now later on readings time) run) prompt like =
      Run-Like ls refills room run prompt
        (swept-Like s ls now later refills room readings time like)
  Run-Like ls refills room (and_then (returned {s} on closed) run) prompt like =
      Run-Like ls refills room run prompt
        (flags-Like R config delay s ls s.limiter.closed false like)
  Run-Like ls refills room (and_then (stopped {s} {rl} h) run) prompt like =
      Run-Like ls refills room run prompt (stopped-Like s ls rl h like)

  -- If the bucket of a client that is not asked for the time `wait` answers as a full one, and in each
  -- request the client's limiter is asked within the time `delay` of taking `lastSeen`, and the two
  -- together are no longer than the TTL: then after any run of a new limiter, with the evictions in it,
  -- the next request gets the decision of the abstract limiter, which has a limiter for every address
  -- from the start, was asked the same requests, and forgets none.
  pub eviction_unnoticed :
      Refills R config.per_client_limit (client_burst R config) wait
      → wait + delay ≤ client_ttl
      → (n : ℕ) (es : List Event) (s : Moment R)
      → Run R es (record { now = n; limiter = new_rate_limiter R config }) s
      → IsPrompt delay es
      → (t : Readings) (ip : Str) → s.now ≤ t.client_at
      → (allow_request R s.limiter t ip).0
        ≡ (ask R (ask_all R (view R (new_rate_limiter R config)) (requests_of es)).1 t ip).0
  eviction_unnoticed refills room n es s run prompt t ip past =
      let ls = (ask_all R (view R (new_rate_limiter R config)) (requests_of es)).1 in
      let like =
        Run-Like (view R (new_rate_limiter R config)) refills room run prompt
          (new-Like R config delay n) in
      decision-Like R config delay s ls t ip past like ∙ sym (ask_decision R config delay ls t ip)
