-- ===== src/Handlers/RateLimit/Lifecycle/History.antt =====
-- A rate limiter against the history of what has happened to it.
use mcp_searxng.Prelude.{
  ℕ, ◌+◌, ◌≤◌, ◌<◌, ◌≡◌, ◌⊎◌, refl, ◌∙◌, inl, inr, Bool, true, false, ◌&&◌, ◌||◌, not, List, [],
  ◌∷◌, Option, none, some, arith, if◌then◌else◌, Bool-cases,
}
use mcp_searxng.Text.{Str, str_eq}
use mcp_searxng.Assoc.{lookup, IsMap}
use mcp_searxng.Handlers.RateLimit.{
  Rate, client_ttl, Readings, RateLimiter, RateLimiterConfig, ClientLimiter, ticked, stop_closed,
  client_entry, allow_request, evict_expired, evict_stale_clients, new_rate_limiter,
}
use mcp_searxng.Handlers.RateLimit.Limits.{
  allow_request_lem, allow_request-IsMap, evict_expired-IsMap, evict_expired-lookup, is_fresh,
  last_seen-client_entry,
}
use mcp_searxng.Handlers.RateLimit.Lifecycle.{
  Event, request, wake, stop_call, Moment, requested, swept, returned, stopped, Run, done, and_then,
}
use mcp_searxng.Handlers.RateLimit.Lifecycle.Invariant.{allow_request-flags, stop_lem, stop_made}

-- Whether Stop was called.
unfoldable pub was_stopped : List Event → Bool
was_stopped [] = false
was_stopped (stop_call ∷ es) = true
was_stopped (wake w ∷ es) = was_stopped es
was_stopped (request t ip ∷ es) = was_stopped es

-- Whether the eviction loop has returned.
unfoldable pub has_returned : List Event → Bool
has_returned [] = false
has_returned (wake stop_closed ∷ es) = true
has_returned (wake (ticked now) ∷ es) = has_returned es
has_returned (request t ip ∷ es) = has_returned es
has_returned (stop_call ∷ es) = has_returned es

module _ (R : Rate) where
  open R use {allow}

  -- When an address last made a request that the limiter of all let pass; `o` is when it did before.
  unfoldable pub last_use :
      Str → {es : List Event} {s t : Moment R} → Run R es s t → Option ℕ → Option ℕ
  last_use ip done o = o
  last_use ip (and_then (requested {s} t j later past order soon) run) o =
      last_use ip run
        (if (allow t.global_at s.limiter.global).0 && str_eq j ip then some t.seen_at else o)
  last_use ip (and_then (swept now later on readings time) run) o = last_use ip run o
  last_use ip (and_then (returned on closed) run) o = last_use ip run o
  last_use ip (and_then (stopped h) run) o = last_use ip run o

  -- What the limiter knows of an address that was last used then: nothing of one that never was; of
  -- another the time, unless more than the TTL has passed since, when the entry may be gone.
  abbrev pub Remembers : Str → Option ℕ → Moment R → Type 0
  Remembers ip none m = lookup ip m.limiter.clients ≡ none
  Remembers ip (some n) m =
      ((entry : ClientLimiter R) × (lookup ip m.limiter.clients ≡ some entry)
        × (entry.last_seen ≡ n))
      ⊎ ((lookup ip m.limiter.clients ≡ none) × (n + client_ttl < m.now))

  Remembers-later :
      (ip : Str) (o : Option ℕ) (s m : Moment R)
      → lookup ip m.limiter.clients ≡ lookup ip s.limiter.clients
      → s.now ≤ m.now
      → Remembers ip o s
      → Remembers ip o m
  Remembers-later ip none s m same time h = same ∙ h
  Remembers-later ip (some n) s m same time (inl (entry, found, seen)) =
      inl (entry, same ∙ found, seen)
  Remembers-later ip (some n) s m same time (inr (gone, old)) =
      inr (same ∙ gone, omega (arith, old, time))

  Remembers-evict :
      (ip : Str) (o : Option ℕ) (s : Moment R) (now : Str → ℕ) (later : ℕ)
      → IsMap s.limiter.clients
      → s.now ≤ later
      → now ip ≤ later
      → Remembers ip o s
      → Remembers ip o (record { now = later; limiter = evict_expired R now s.limiter })
  Remembers-evict ip none s now later one time soon h =
      evict_expired-lookup R now s.limiter ip one ∙ rw h refl
  Remembers-evict ip (some n) s now later one time soon (inr (gone, old)) =
      inr (evict_expired-lookup R now s.limiter ip one ∙ rw gone refl, omega (arith, old, time))
  Remembers-evict ip (some n) s now later one time soon (inl (entry, found, seen)) =
      let law = evict_expired-lookup R now s.limiter ip one in
      elim (Bool-cases (is_fresh R (now ip) entry)) [
        | inl fresh ↦ inl (entry, law ∙ rw (found, fresh) refl, seen)
        | inr stale ↦ inr (law ∙ rw (found, stale) refl, ground (arith, stale, seen, soon))
      ]

  Remembers-request :
      (ip : Str) (o : Option ℕ) (s : Moment R) (t : Readings) (j : Str) (later : ℕ)
      → s.now ≤ later
      → Remembers ip o s
      → Remembers ip
          (if (allow t.global_at s.limiter.global).0 && str_eq j ip then some t.seen_at else o)
          (record { now = later; limiter = (allow_request R s.limiter t j).1 })
  Remembers-request ip o s t j later time h =
      let after : Moment R = record { now = later; limiter = (allow_request R s.limiter t j).1 } in
      let entry = client_entry R s.limiter t.seen_at j in
      let written : ClientLimiter R = record entry {
        limiter = (allow t.client_at entry.limiter).1;
      } in
      let law = (allow_request_lem R s.limiter t j ip).1 in
      elim (Bool-cases ((allow t.global_at s.limiter.global).0 && str_eq j ip)) [
        | inl used ↦
            rw used
              (inl (written, (law ∙ rw used refl), last_seen-client_entry R s.limiter t.seen_at j))
        | inr not_used ↦ rw not_used (Remembers-later ip o s after (law ∙ rw not_used refl) time h)
      ]

  Run-Remembers :
      (ip : Str) {es : List Event} {s t : Moment R} (run : Run R es s t) (o : Option ℕ)
      → IsMap s.limiter.clients
      → Remembers ip o s
      → Remembers ip (last_use ip run o) t
  unfolding last_use evict_stale_clients
  Run-Remembers ip done o one h = h
  Run-Remembers ip (and_then (requested {s} t j later past (seen, asked) soon) run) o one h =
      Run-Remembers ip run _ (allow_request-IsMap R s.limiter t j one)
        (Remembers-request ip o s t j later (omega (arith, past, seen, asked, soon)) h)
  Run-Remembers ip (and_then (swept {s} now later on readings time) run) o one h =
      Run-Remembers ip run o (evict_expired-IsMap R now s.limiter one)
        (Remembers-evict ip o s now later one time (readings ip).1 h)
  Run-Remembers ip (and_then (returned {s} on closed) run) o one h =
      Run-Remembers ip run o one (Remembers-later ip o s _ refl (omega arith) h)
  Run-Remembers ip (and_then (stopped {s} {rl} q) run) o one h =
      let same = (stop_lem R s.limiter rl q).0 in
      Run-Remembers ip run o (rw same one) (
        Remembers-later ip o s (record { now = s.now; limiter = rl }) (rw same refl) (omega arith)
          h)

  evict_expired-flags :
      (rl : RateLimiter R) (now : Str → ℕ)
      → ((evict_expired R now rl).evicting ≡ rl.evicting)
        × ((evict_expired R now rl).closed ≡ rl.closed)
  unfolding evict_expired
  evict_expired-flags rl now = (refl, refl)

  pub Run-flags :
      {es : List Event} {s t : Moment R}
      → Run R es s t
      → (t.limiter.closed ≡ s.limiter.closed || was_stopped es)
        × (t.limiter.evicting ≡ s.limiter.evicting && not (has_returned es))
  unfolding was_stopped has_returned evict_stale_clients
  Run-flags done = (ground arith, ground arith)
  Run-flags (and_then (requested {s} t ip later past order soon) run) =
      let (on, off) = allow_request-flags R s.limiter t ip in rw (on, off) at (Run-flags run)
  Run-flags (and_then (swept {s} now later on readings time) run) =
      let (on, off) = evict_expired-flags s.limiter now in rw (on, off) at (Run-flags run)
  Run-flags (and_then (returned {s} on closed) run) =
      let (shut, off) = Run-flags run in (shut, off ∙ ground arith)
  Run-flags (and_then (stopped {s} {rl} q) run) =
      let made = stop_made R s.limiter rl q in
      let (shut, off) = Run-flags run in (shut ∙ ground (arith, made), off ∙ ground (arith, made))

  -- Whatever happens to a new rate limiter, it keeps the book of it: an address that has made no
  -- request which the limiter of all let pass has no entry; of any other the entry has the time of
  -- the last such request, unless that is longer ago than the TTL of 30 minutes and the entry was
  -- evicted. Its channel is closed exactly if Stop was called, and its eviction loop runs until it
  -- has returned.
  pub keeps_book :
      (config : RateLimiterConfig R) (n : ℕ) (es : List Event) (s : Moment R)
      (run : Run R es (record { now = n; limiter = new_rate_limiter R config }) s) (ip : Str)
      → Remembers ip (last_use ip run none) s
        × (s.limiter.closed ≡ was_stopped es)
        × (s.limiter.evicting ≡ not (has_returned es))
  unfolding new_rate_limiter lookup
  keeps_book config n es s run ip =
      let (shut, on) = Run-flags run in (Run-Remembers ip run none tt refl, shut, on)
