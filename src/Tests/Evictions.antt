-- ===== src/Tests/Evictions.antt =====
-- A client that is forgotten, of limiters whose one token is back after a second.
use mcp_searxng.Prelude.{
  inl, inr, ◌-◌, ◌*◌, ◌/◌, List, All, Bool-cases, ℕ, ◌+◌, ◌≤◌, ◌≡◌, refl, Bool, true, false, [],
  ◌∷◌, Option, none, some, arith, leb, if◌then◌else◌,
}
use mcp_searxng.Prelude.Int.{ℤ, pos, leb_ℤ}
use mcp_searxng.Text.{Str, str, str_eq}
use mcp_searxng.Handlers.RateLimit.{
  Rate, Readings, RateLimiterConfig, client_ttl, ticked, new_rate_limiter, allow_request,
  allow_client, client_entry, burst_or_default, evict_stale_clients,
}
use mcp_searxng.Handlers.RateLimit.Refinement.{ask, ask_all, view}
use mcp_searxng.Handlers.RateLimit.Lifecycle.{
  request, wake, Moment, requested, swept, Run, done, and_then,
}
use mcp_searxng.Handlers.RateLimit.Lifecycle.Refill.{
  IsSorted, IsSorted-earlier, count_true, Bounded, Used, fresh, asked, answers, Refills,
}
use mcp_searxng.Handlers.RateLimit.Lifecycle.Unnoticed.{eviction_unnoticed}
use mcp_searxng.Handlers.RateLimit.Lifecycle.Rates.{rates_kept}
use mcp_searxng.Handlers.RateLimit.Lifecycle.Admitted.{admitted}
use mcp_searxng.Tests.Limiter.{at_noon}

-- A second, in nanoseconds.
abbrev pub second : ℕ
second = 1000000000

-- A limiter is the time at which its token was last taken.
abbrev pub take_spaced : ℕ → Option ℕ → Bool × Option ℕ
take_spaced now none = (true, some now)
take_spaced now (some t) = if leb (t + second) now then (true, some now) else (false, some t)

abbrev pub spaced_rate : Rate
spaced_rate = record {
  Limit = ℤ;
  of_int = λ n. n;
  to_int = λ n. n;
  Limiter = Option ℕ;
  new_limiter = λ limit burst. none;
  allow = take_spaced;
}

abbrev TakenBy : ℕ → Option ℕ → Type 0
TakenBy n none = Unit
TakenBy n (some t) = t ≤ n

take-TakenBy :
    (m t n : ℕ) (l : Option ℕ) → TakenBy m l → m ≤ t → t ≤ n → TakenBy n (take_spaced t l).1
take-TakenBy m t n none old h k = k
take-TakenBy m t n (some u) old h k = ground (arith, old)

Used-TakenBy :
    (limit burst : ℤ) (n : ℕ) (l : Option ℕ) → Used spaced_rate limit burst n l → TakenBy n l
Used-TakenBy limit burst n _ fresh = tt
Used-TakenBy limit burst n _ (asked {m} {t} {l} used h k) =
    take-TakenBy m t n l (Used-TakenBy limit burst m l used) h k

spaced-Refills : Refills spaced_rate (pos 1) (pos 1) second
unfolding answers
spaced-Refills n now none used h ts sorted = refl
spaced-Refills n now (some t) used h [] sorted = refl
spaced-Refills n now (some t) used h (u ∷ ts) (later, sorted) =
    let old = Used-TakenBy (pos 1) (pos 1) n (some t) used in
    let back : leb (t + second) u ≡ true = ground (arith, old, h, later) in rw back refl

taken_spaced :
    (t m : ℕ) (ts : List ℕ)
    → t ≤ m
    → All (λ u. u ≤ m) ts
    → t + count_true (answers spaced_rate (some t) ts) * second ≤ m
unfolding answers
taken_spaced t m [] h within = omega (arith, h)
taken_spaced t m (u ∷ ts) h (soon, within) = elim (Bool-cases (leb (t + second) u)) [
  | inl e ↦ rw e (ground (arith, e, taken_spaced u m ts soon within))
  | inr e ↦ rw e (taken_spaced t m ts h within)
]

-- One token at once, and one for every second.
abbrev pub one_a_second : ℕ → ℕ
one_a_second elapsed = 1 + elapsed / second

spaced_count :
    (n m : ℕ) (l : Option ℕ) (ts : List ℕ)
    → IsSorted n ts
    → All (λ u. u ≤ m) ts
    → count_true (answers spaced_rate l ts) ≤ one_a_second (m - n)
unfolding answers
spaced_count n m l [] sorted within = omega arith
spaced_count n m none (u ∷ ts) (past, sorted) (soon, within) =
    omega (arith, past, soon, taken_spaced u m ts soon within)
spaced_count n m (some t) (u ∷ ts) (past, sorted) (soon, within) =
    elim (Bool-cases (leb (t + second) u)) [
      | inl e ↦ rw e (omega (arith, past, soon, taken_spaced u m ts soon within))
      | inr e ↦ rw e (spaced_count n m (some t) ts (IsSorted-earlier n u ts past sorted) within)
    ]

pub spaced-Bounded : Bounded spaced_rate (pos 1) (pos 1) one_a_second
spaced-Bounded n m l used = spaced_count n m l

abbrev pub spaced_config : RateLimiterConfig spaced_rate
spaced_config = record {
  global_limit = pos 1;
  global_burst = pos 1;
  per_client_limit = pos 1;
  per_client_burst = pos 1;
}

abbrev start : Moment spaced_rate
start = record { now = 0; limiter = new_rate_limiter spaced_rate spaced_config }

abbrev one_seen : Moment spaced_rate
one_seen = record {
  now = 5;
  limiter = (allow_request spaced_rate start.limiter at_noon (str "a")).1;
}

abbrev half_past : Str → ℕ
half_past ip = client_ttl + 6

abbrev forgotten : Moment spaced_rate
forgotten = record {
  now = client_ttl + 7;
  limiter = evict_stale_clients spaced_rate (ticked half_past) one_seen.limiter;
}

loop_on : one_seen.limiter.evicting ≡ true
unfolding allow_request allow_client client_entry new_rate_limiter burst_or_default leb_ℤ
loop_on = refl

forget-Run :
    Run spaced_rate (request at_noon (str "a") ∷ wake (ticked half_past) ∷ []) start forgotten
forget-Run =
    and_then (requested at_noon (str "a") 5 (omega arith) (omega arith, omega arith) (omega arith))
      (and_then
        (swept half_past (client_ttl + 7) loop_on (λ ip. (omega arith, omega arith)) (omega arith))
        done)

abbrev back_again : Readings
back_again = record {
  global_at = client_ttl + 8;
  seen_at = client_ttl + 8;
  client_at = client_ttl + 8;
}

eviction_unnoticed_example :
    (allow_request spaced_rate forgotten.limiter back_again (str "a")).0
    ≡ (ask spaced_rate
        (ask_all spaced_rate
          (view spaced_rate (new_rate_limiter spaced_rate spaced_config))
          ((at_noon, str "a") ∷ [])).1
        back_again
        (str "a")).0
unfolding burst_or_default leb_ℤ
eviction_unnoticed_example =
    eviction_unnoticed spaced_rate spaced_config second 10 spaced-Refills (omega arith) 0
      (request at_noon (str "a") ∷ wake (ticked half_past) ∷ []) forgotten forget-Run
      (omega arith, tt) back_again (str "a") (omega arith)

rates_kept_example :
    (admitted spaced_rate (λ j. true) forget-Run ≤ one_a_second (forgotten.now - 0))
    × (admitted spaced_rate (λ j. str_eq j (str "a")) forget-Run ≤ one_a_second (forgotten.now - 0))
unfolding burst_or_default leb_ℤ
rates_kept_example =
    rates_kept spaced_rate spaced_config second 10 spaced-Refills (omega arith) one_a_second
      one_a_second spaced-Bounded spaced-Bounded 0 []
      (request at_noon (str "a") ∷ wake (ticked half_past) ∷ []) start forgotten done forget-Run tt
      (omega arith, tt) (str "a")
