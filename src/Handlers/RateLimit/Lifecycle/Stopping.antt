-- ===== src/Handlers/RateLimit/Lifecycle/Stopping.antt =====
-- The end of the eviction loop.
use mcp_searxng.Prelude.{
  ℕ, ◌≡◌, ◌⊎◌, ◌∙◌, refl, inl, inr, true, false, List, [], ◌∷◌, none, some, arith, Bool-cases,
}
use mcp_searxng.Handlers.RateLimit.{
  Rate, RateLimiter, RateLimiterConfig, stop_closed, ticked, evict_stale_clients, stop,
  new_rate_limiter,
}
use mcp_searxng.Handlers.RateLimit.Lifecycle.{
  Event, request, wake, stop_call, Moment, Step, requested, swept, returned, stopped, Run, done,
  and_then,
}
use mcp_searxng.Handlers.RateLimit.Lifecycle.Invariant.{allow_request-flags, stop_made}
use mcp_searxng.Handlers.RateLimit.Lifecycle.History.{has_returned, Run-flags}

-- The eviction loop does not wake.
pub IsAsleep : List Event → Type 0
IsAsleep [] = Unit
IsAsleep (wake w ∷ es) = ⊥
IsAsleep (request t ip ∷ es) = IsAsleep es
IsAsleep (stop_call ∷ es) = IsAsleep es

-- Once the eviction loop has returned, it does not wake again, be it to evict or to return.
pub ReturnsOnce : List Event → Type 0
ReturnsOnce [] = Unit
ReturnsOnce (wake stop_closed ∷ es) = IsAsleep es
ReturnsOnce (wake (ticked now) ∷ es) = ReturnsOnce es
ReturnsOnce (request t ip ∷ es) = ReturnsOnce es
ReturnsOnce (stop_call ∷ es) = ReturnsOnce es

module _ (R : Rate) where
  stop_open : (rl after : RateLimiter R) → stop R rl ≡ some after → rl.closed ≡ false
  unfolding stop
  stop_open rl after h = ground (arith, h)

  stop_panics : (rl : RateLimiter R) → rl.closed ≡ true → stop R rl ≡ none
  unfolding stop
  stop_panics rl h = rw h refl

  off-IsAsleep :
      {es : List Event} {s t : Moment R} → Run R es s t → s.limiter.evicting ≡ false → IsAsleep es
  unfolding IsAsleep
  off-IsAsleep done off = tt
  off-IsAsleep (and_then (requested {s} t ip later past order soon) run) off =
      off-IsAsleep run ((allow_request-flags R s.limiter t ip).0 ∙ off)
  off-IsAsleep (and_then (swept now later on readings time) run) off = absurd (cc)
  off-IsAsleep (and_then (returned on closed) run) off = absurd (cc)
  off-IsAsleep (and_then (stopped {s} {rl} h) run) off =
      off-IsAsleep run (ground (arith, stop_made R s.limiter rl h, off))

  Run-ReturnsOnce : {es : List Event} {s t : Moment R} → Run R es s t → ReturnsOnce es
  unfolding ReturnsOnce evict_stale_clients
  Run-ReturnsOnce done = tt
  Run-ReturnsOnce (and_then (requested t ip later past order soon) run) = Run-ReturnsOnce run
  Run-ReturnsOnce (and_then (swept now later on readings time) run) = Run-ReturnsOnce run
  Run-ReturnsOnce (and_then (returned on closed) run) = off-IsAsleep run refl
  Run-ReturnsOnce (and_then (stopped h) run) = Run-ReturnsOnce run

  stays_closed :
      {es : List Event} {s t : Moment R}
      → Run R es s t
      → s.limiter.closed ≡ true
      → t.limiter.closed ≡ true
  stays_closed run h = ground (arith, (Run-flags R run).0, h)

  open_loop :
      {es : List Event} {s t : Moment R}
      → Run R es s t
      → t.limiter.closed ≡ false
      → has_returned es ≡ false
  unfolding has_returned evict_stale_clients
  open_loop done h = refl
  open_loop (and_then (requested t ip later past order soon) run) h = open_loop run h
  open_loop (and_then (swept now later on readings time) run) h = open_loop run h
  open_loop (and_then (returned on closed) run) h =
      absurd (ground (arith, stays_closed run closed, h))
  open_loop (and_then (stopped q) run) h = open_loop run h

  -- After a call of Stop on a limiter that was new once, whatever happens before and after: the
  -- eviction loop ran until the call; it returns at most once, and after that it neither evicts nor
  -- returns again; as long as it has not returned since the call, it can return at once; and a second
  -- call of Stop panics.
  pub stop_ends_loop :
      (config : RateLimiterConfig R) (n : ℕ) (before es : List Event) (s t u : Moment R)
      → Run R before (record { now = n; limiter = new_rate_limiter R config }) s
      → Step R stop_call s t
      → Run R es t u
      → (has_returned before ≡ false)
        × ReturnsOnce es
        × ((has_returned es ≡ true) × (u.limiter.evicting ≡ false)
            ⊎ (has_returned es ≡ false)
              × ((v : Moment R) × Step R (wake stop_closed) u v × (v.limiter.evicting ≡ false)))
        × (stop R u.limiter ≡ none)
  unfolding evict_stale_clients new_rate_limiter
  stop_ends_loop config n before es s t u first (stopped {rl = rl} h) run =
      let unmade = stop_open s.limiter rl h in
      let quiet = open_loop first unmade in
      let (_, on_before) = Run-flags R first in
      let (_, on) = Run-flags R run in
      let made = stop_made R s.limiter rl h in
      let closed : u.limiter.closed ≡ true = stays_closed run (rw made refl) in
      (
        quiet,
        Run-ReturnsOnce run,
        elim (Bool-cases (has_returned es)) [
          | inl gone ↦ inl (gone, ground (arith, on, gone))
          | inr here ↦
              inr (
                here,
                (_, returned (ground (arith, on, here, made, on_before, quiet)) closed, refl),
              )
        ],
        stop_panics u.limiter closed,
      )
