-- ===== src/Handlers/RateLimit/Lifecycle/Admitted.antt =====
-- How many requests the rate limiter admits, of all clients.
use mcp_searxng.Prelude.{
  some, ℕ, ◌+◌, ◌-◌, ◌≤◌, ◌≡◌, refl, subst, Bool, true, false, ◌&&◌, List, [], ◌∷◌, All, arith,
}
use mcp_searxng.Prelude.Int.{ℤ}
use mcp_searxng.Text.{Str}
use mcp_searxng.Handlers.RateLimit.{
  Rate, Readings, RateLimiter, burst_or_default, stop, RateLimiterConfig, evict_stale_clients,
  allow_request, new_rate_limiter,
}
use mcp_searxng.Handlers.RateLimit.Lifecycle.{
  Event, Moment, requested, swept, returned, stopped, Run, done, and_then,
}
use mcp_searxng.Handlers.RateLimit.Lifecycle.Refill.{
  Used, Used-later, fresh, asked, IsSorted, IsSorted-earlier, count_true, answers, Bounded,
}
use mcp_searxng.Handlers.RateLimit.Lifecycle.Invariant.{global-evict_expired, stop_made}
use mcp_searxng.Handlers.RateLimit.Limits.{allow_request_lem}
use mcp_searxng.Handlers.RateLimit.Refinement.{global-allow_request}

-- The burst of the limiter of all.
abbrev pub global_burst : (R : Rate) → RateLimiterConfig R → ℤ
global_burst R config = burst_or_default R config.global_burst config.global_limit

abbrev pub ones : Bool → ℕ
ones true = 1
ones false = 0

count_true_step :
    (b a : Bool) (bs : List Bool) (k : ℕ)
    → (b ≡ true → a ≡ true)
    → k ≤ count_true bs
    → ones b + k ≤ count_true (a ∷ bs)
count_true_step false true bs k h few = omega (arith, few)
count_true_step false false bs k h few = omega (arith, few)
count_true_step true true bs k h few = omega (arith, few)
count_true_step true false bs k h few = absurd (cc (h refl))

module _ (R : Rate) where
  open R use {Limit, Limiter, allow}

  -- The number of requests in a run that were admitted, of the addresses that satisfy a test.
  unfoldable pub admitted : (Str → Bool) → {es : List Event} {s t : Moment R} → Run R es s t → ℕ
  admitted p done = 0
  admitted p (and_then (requested {s} t ip later past order soon) run) =
      ones (p ip && (allow_request R s.limiter t ip).0) + admitted p run
  admitted p (and_then (swept now later on readings time) run) = admitted p run
  admitted p (and_then (returned on closed) run) = admitted p run
  admitted p (and_then (stopped h) run) = admitted p run

  -- A limiter was asked in a period, and said yes at least a number of times.
  abbrev pub Asked : Limiter → ℕ → ℕ → ℕ → Type 0
  Asked l from to k =
      (ts : List ℕ) × (IsSorted from ts × All (λ t. t ≤ to) ts × (k ≤ count_true (answers R l ts)))

  pub Asked-now :
      (l : Limiter) (from u later to k : ℕ) (b : Bool)
      → from ≤ u
      → u ≤ later
      → later ≤ to
      → (b ≡ true → (allow u l).0 ≡ true)
      → Asked (allow u l).1 later to k
      → Asked l from to (ones b + k)
  unfolding answers
  Asked-now l from u later to k b past soon end agreed (ts, (sorted, within, enough)) = (
    u ∷ ts,
    (
      (past, IsSorted-earlier u later ts soon sorted),
      (omega (arith, soon, end), within),
      count_true_step b (allow u l).0 (answers R (allow u l).1 ts) k agreed enough,
    ),
  )

  pub Asked-earlier :
      (l : Limiter) (from later to k j : ℕ)
      → from ≤ later
      → j ≤ k
      → Asked l later to k
      → Asked l from to j
  Asked-earlier l from later to k j h few (ts, (sorted, within, enough)) =
      (ts, (IsSorted-earlier from later ts h sorted, within, omega (arith, few, enough)))

  pub Run-later : {es : List Event} {s t : Moment R} → Run R es s t → s.now ≤ t.now
  Run-later done = omega arith
  Run-later (and_then (requested t ip later past (seen, then_client) soon) run) =
      omega (arith, past, seen, then_client, soon, Run-later run)
  Run-later (and_then (swept now later on readings time) run) = omega (arith, time, Run-later run)
  Run-later (and_then (returned on closed) run) = Run-later run
  Run-later (and_then (stopped h) run) = Run-later run

  -- A yes is one of the limiter of all.
  passed_of_admitted :
      (rl : RateLimiter R) (t : Readings) (ip : Str) (b : Bool)
      → b && (allow_request R rl t ip).0 ≡ true
      → (allow t.global_at rl.global).0 ≡ true
  passed_of_admitted rl t ip b h = ground (arith, h, (allow_request_lem R rl t ip ip).0)

  global-stop : (rl after : RateLimiter R) → stop R rl ≡ some after → after.global ≡ rl.global
  global-stop rl after h = rw (stop_made R rl after h) refl

  -- The limiter of all is asked for every request.
  all_asked :
      (p : Str → Bool) {es : List Event} {s t : Moment R} (run : Run R es s t)
      → Asked s.limiter.global s.now t.now (admitted p run)
  unfolding admitted answers evict_stale_clients
  all_asked p done = ([], (tt, tt, omega arith))
  all_asked p {t = end} (and_then (requested {s} t ip later past (seen, then_client) soon) run) =
      Asked-now s.limiter.global s.now t.global_at later end.now _ _ past
        (omega (arith, seen, then_client, soon)) (Run-later run)
        (passed_of_admitted s.limiter t ip (p ip))
        (rw (global-allow_request R s.limiter t ip) at (all_asked p run))
  all_asked p {t = end} (and_then (swept {s} now later on readings time) run) =
      Asked-earlier s.limiter.global s.now later _ _ _ time (omega arith) (
        subst (λ (l : Limiter). Asked l later end.now (admitted p run))
          (global-evict_expired R s.limiter now) (all_asked p run))
  all_asked p (and_then (returned {s} on closed) run) = all_asked p run
  all_asked p {t = end} (and_then (stopped {s} {rl} h) run) =
      subst (λ (l : Limiter). Asked l s.now end.now (admitted p run)) (global-stop s.limiter rl h)
        (all_asked p run)

  -- The limiter of all is the one from the start, whatever is evicted.
  global-Used :
      (limit : Limit) (burst : ℤ) {es : List Event} {s t : Moment R} (run : Run R es s t)
      → Used R limit burst s.now s.limiter.global
      → Used R limit burst t.now t.limiter.global
  unfolding evict_stale_clients
  global-Used limit burst done used = used
  global-Used limit burst (and_then (requested {s} t ip later past (seen, then_client) soon) run)
        used =
      global-Used limit burst run (
        rw (global-allow_request R s.limiter t ip)
          (asked used past (omega (arith, seen, then_client, soon))))
  global-Used limit burst (and_then (swept {s} now later on readings time) run) used =
      global-Used limit burst run (
        rw (global-evict_expired R s.limiter now)
          (Used-later R limit burst s.now later _ time used))
  global-Used limit burst (and_then (returned {s} on closed) run) used =
      global-Used limit burst run used
  global-Used limit burst (and_then (stopped {s} {rl} h) run) used =
      global-Used limit burst run (rw (global-stop s.limiter rl h) used)

  new-global-Used :
      (config : RateLimiterConfig R) (n : ℕ)
      → Used R config.global_limit (global_burst R config) n (new_rate_limiter R config).global
  unfolding new_rate_limiter
  new-global-Used config n = fresh

  -- If the limiters of golang.org/x/time/rate keep their rates: in every period of every run of a new
  -- limiter the number of requests that are admitted keeps the global rate.
  pub global_rate_kept :
      (config : RateLimiterConfig R) (most : ℕ → ℕ)
      → Bounded R config.global_limit (global_burst R config) most
      → (n : ℕ) (before es : List Event) (s t : Moment R)
      → Run R before (record { now = n; limiter = new_rate_limiter R config }) s
      → (run : Run R es s t) → admitted (λ j. true) run ≤ most (t.now - s.now)
  global_rate_kept config most bounded n before es s t first run =
      let (times, (sorted, within, enough)) = all_asked (λ j. true) run in
      let used =
        global-Used config.global_limit (global_burst R config) first (new-global-Used config n) in
      omega (arith, enough, bounded s.now t.now s.limiter.global used times sorted within)
