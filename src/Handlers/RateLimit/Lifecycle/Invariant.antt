-- ===== src/Handlers/RateLimit/Lifecycle/Invariant.antt =====
-- What holds of a rate limiter in every run.
use mcp_searxng.Prelude.{
  ℕ, ◌≤◌, ◌≡◌, ◌≢◌, ◌⊎◌, refl, sym, ◌∙◌, inl, inr, Bool, true, List, Option, none, some, arith,
}
use mcp_searxng.Text.{Str, str_eq_iff}
use mcp_searxng.Assoc.{lookup, IsMap, kept}
use mcp_searxng.Handlers.RateLimit.{
  Rate, Readings, RateLimiter, RateLimiterConfig, ClientLimiter, allow_client, allow_request,
  evict_expired, evict_stale_clients, stop, new_rate_limiter,
}
use mcp_searxng.Handlers.RateLimit.Limits.{
  allow_request_lem, allow_request-IsMap, evict_expired-IsMap, evict_expired-lookup, is_fresh,
  last_seen-client_entry,
}
use mcp_searxng.Handlers.RateLimit.Lifecycle.{
  Event, Moment, Step, requested, swept, returned, stopped, Run, done, and_then,
}

kept-some : {A : Type 0} (p : A → Bool) (o : Option A) (a : A) → kept p o ≡ some a → o ≡ some a
kept-some p none a h = h
kept-some p (some b) a h = ground arith

module _ (R : Rate) where
  -- Each client has one entry, which was written in the past, and the eviction loop runs unless the
  -- limiter was stopped.
  pub record Inv (s : Moment R) : Type 0 where
    pub one_each : IsMap s.limiter.clients
    pub seen :
        (ip : Str) (entry : ClientLimiter R)
        → lookup ip s.limiter.clients ≡ some entry
        → entry.last_seen ≤ s.now
    pub running : (s.limiter.evicting ≡ true) ⊎ (s.limiter.closed ≡ true)

  -- The last use of a client is at most a time ago.
  abbrev pub SeenBy : Str → ℕ → RateLimiter R → Type 0
  SeenBy ip n rl =
      (entry : ClientLimiter R) → lookup ip rl.clients ≡ some entry → entry.last_seen ≤ n

  pub new-Inv :
      (config : RateLimiterConfig R) (n : ℕ)
      → Inv (record { now = n; limiter = new_rate_limiter R config })
  unfolding new_rate_limiter lookup
  new-Inv config n = record { one_each = tt; seen = λ ip entry q. cc; running = inl refl }

  pub allow_request-flags :
      (rl : RateLimiter R) (t : Readings) (ip : Str)
      → ((allow_request R rl t ip).1.evicting ≡ rl.evicting)
        × ((allow_request R rl t ip).1.closed ≡ rl.closed)
  unfolding allow_request allow_client
  allow_request-flags rl t ip = ground arith

  pub allow_request-SeenBy :
      (rl : RateLimiter R) (t : Readings) (ip j : Str) (n : ℕ)
      → (ip ≢ j) ⊎ (t.seen_at ≤ n)
      → SeenBy j n rl
      → SeenBy j n (allow_request R rl t ip).1
  allow_request-SeenBy rl t ip j n h old entry =
      rw (allow_request_lem R rl t ip j).1
        (ground (arith, last_seen-client_entry R rl t.seen_at ip, str_eq_iff ip j, old entry))

  pub evict_expired-SeenBy :
      (rl : RateLimiter R) (now : Str → ℕ) (j : Str) (n : ℕ)
      → IsMap rl.clients
      → SeenBy j n rl
      → SeenBy j n (evict_expired R now rl)
  evict_expired-SeenBy rl now j n h old entry q = old entry (
      kept-some (is_fresh R (now j)) (lookup j rl.clients) entry
        (sym (evict_expired-lookup R now rl j h) ∙ q))

  evicting-evict :
      (rl : RateLimiter R) (now : Str → ℕ) → (evict_expired R now rl).evicting ≡ rl.evicting
  unfolding evict_expired
  evicting-evict rl now = refl

  pub config-evict_expired :
      (rl : RateLimiter R) (now : Str → ℕ) → (evict_expired R now rl).config ≡ rl.config
  unfolding evict_expired
  config-evict_expired rl now = refl

  pub global-evict_expired :
      (rl : RateLimiter R) (now : Str → ℕ) → (evict_expired R now rl).global ≡ rl.global
  unfolding evict_expired
  global-evict_expired rl now = refl

  pub stop_made :
      (rl after : RateLimiter R) → stop R rl ≡ some after → after ≡ record rl { closed = true }
  unfolding stop
  stop_made rl after h = ground arith

  pub stop_lem :
      (rl after : RateLimiter R)
      → stop R rl ≡ some after
      → (after.clients ≡ rl.clients) × (after.closed ≡ true)
  unfolding stop
  stop_lem rl after h = ground arith

  pub Step-Inv : {e : Event} {s t : Moment R} → Step R e s t → Inv s → Inv t
  unfolding evict_stale_clients
  Step-Inv (requested {s} t ip later past (seen, asked) soon) inv = record {
    one_each = allow_request-IsMap R s.limiter t ip inv.one_each;
    seen = λ j.
        allow_request-SeenBy s.limiter t ip j later (inr (omega (arith, asked, soon)))
          (λ entry q. omega (arith, inv.seen j entry q, past, seen, asked, soon));
    running = (let (on, off) = allow_request-flags s.limiter t ip in rw (on, off) inv.running);
  }
  Step-Inv (swept {s} now later on readings time) inv = record {
    one_each = evict_expired-IsMap R now s.limiter inv.one_each;
    seen = λ j.
        evict_expired-SeenBy s.limiter now j later inv.one_each
          (λ entry q. omega (arith, inv.seen j entry q, time));
    running = inl (evicting-evict s.limiter now ∙ on);
  }
  Step-Inv (returned {s} on closed) inv = record {
    one_each = inv.one_each;
    seen = inv.seen;
    running = inr closed;
  }
  Step-Inv (stopped {s} {rl} h) inv =
      let (same, closed) = stop_lem s.limiter rl h in
      record { one_each = rw same inv.one_each; seen = rw same inv.seen; running = inr closed }

  pub Run-Inv : {es : List Event} {s t : Moment R} → Run R es s t → Inv s → Inv t
  Run-Inv done inv = inv
  Run-Inv (and_then st run) inv = Run-Inv run (Step-Inv st inv)
