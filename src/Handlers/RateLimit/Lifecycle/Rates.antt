-- ===== src/Handlers/RateLimit/Lifecycle/Rates.antt =====
-- How many requests the rate limiter admits, of all clients and of each.
use mcp_searxng.Prelude.{
  ℕ, ◌+◌, ◌-◌, ◌≤◌, ◌≡◌, ap, subst, true, false, ◌&&◌, List, [], arith, Bool-cases, inl, inr,
}
use mcp_searxng.Text.{Str, str_eq, str_eq_iff}
use mcp_searxng.Handlers.RateLimit.{
  Rate, client_ttl, RateLimiterConfig, evict_stale_clients, new_rate_limiter,
}
use mcp_searxng.Handlers.RateLimit.Refinement.{Limiters, ask, ask_all, view}
use mcp_searxng.Handlers.RateLimit.Lifecycle.{
  Event, Moment, requested, swept, returned, stopped, Run, done, and_then,
}
use mcp_searxng.Handlers.RateLimit.Lifecycle.Refill.{answers, Refills, Bounded}
use mcp_searxng.Handlers.RateLimit.Lifecycle.Remembering.{
  client_burst, Like, new-Like, requested-Like, flags-Like, decision-Like, ask_client,
}
use mcp_searxng.Handlers.RateLimit.Lifecycle.Unnoticed.{
  IsPrompt, requests_of, Run-Like, swept-Like, stopped-Like,
}
use mcp_searxng.Handlers.RateLimit.Lifecycle.Admitted.{
  global_burst, admitted, Asked, Asked-now, Asked-earlier, Run-later, global_rate_kept,
}

module _ (R : Rate) (config : RateLimiterConfig R) (wait delay : ℕ)
    (refills : Refills R config.per_client_limit (client_burst R config) wait)
    (room : wait + delay ≤ client_ttl) where
  open R use {Limiter, allow}

  -- The limiter of an address is asked for its requests that the limiter of all let pass.
  own_asked :
      (ip : Str) {es : List Event} {s t : Moment R} (ls : Limiters R) (run : Run R es s t)
      → IsPrompt delay es
      → Like R config delay s ls
      → Asked R (ls.client ip) s.now t.now (admitted R (λ j. str_eq j ip) run)
  unfolding admitted answers evict_stale_clients
  own_asked ip ls done prompt like = ([], (tt, tt, omega arith))
  own_asked ip {t = end} ls (and_then (requested {s} t j later past order soon) run) (one, prompt)
        like =
      let (seen, then_client) = order in
      let in_past : s.now ≤ t.client_at = omega (arith, past, seen, then_client) in
      let same = decision-Like R config delay s ls t j in_past like in
      let rest =
        own_asked ip (ask R ls t j).1 run prompt
          (requested-Like R config delay s ls t j later past order soon one like) in
      elim (Bool-cases ((allow t.global_at ls.global).0 && str_eq j ip)) [
        | inr e ↦
            Asked-earlier R (ls.client ip) s.now later _ _ _ (omega (arith, in_past, soon))
              (ground (arith, e, same)) (rw (ask_client R config delay ls t j ip, e) at rest)
        | inl e ↦
            let own : ls.client j ≡ ls.client ip =
              ap ls.client ((str_eq_iff j ip).0 (ground (arith, e))) in
            Asked-now R (ls.client ip) s.now t.client_at later end.now _ _ in_past soon
              (Run-later R run)
              (λ f.
                subst (λ (l : Limiter). (allow t.client_at l).0 ≡ true) own
                  (ground (arith, f, same)))
              (rw (ask_client R config delay ls t j ip, e, own) at rest)
      ]
  own_asked ip ls (and_then (swept {s} now later on readings time) run) prompt like =
      Asked-earlier R (ls.client ip) s.now later _ _ _ time (omega arith) (
        own_asked ip ls run prompt
          (swept-Like R config wait delay s ls now later refills room readings time like))
  own_asked ip ls (and_then (returned {s} on closed) run) prompt like =
      own_asked ip ls run prompt (flags-Like R config delay s ls s.limiter.closed false like)
  own_asked ip ls (and_then (stopped {s} {rl} h) run) prompt like =
      own_asked ip ls run prompt (stopped-Like R config wait delay s ls rl h like)

  -- If the limiters of golang.org/x/time/rate keep their rates, and the bucket of a client that is not
  -- asked for the time `wait` answers as a full one, where `wait` and the delay between taking
  -- `lastSeen` and asking the client's limiter are together no longer than the TTL: in every period
  -- of every run of a new limiter, with its evictions, the number of requests that are admitted keeps
  -- the global rate, and for each address the rate of a client.
  pub rates_kept :
      (all_most own_most : ℕ → ℕ)
      → Bounded R config.global_limit (global_burst R config) all_most
      → Bounded R config.per_client_limit (client_burst R config) own_most
      → (n : ℕ) (before es : List Event) (s t : Moment R)
      → Run R before (record { now = n; limiter = new_rate_limiter R config }) s
      → (run : Run R es s t) → IsPrompt delay before
      → IsPrompt delay es
      → (ip : Str)
      → (admitted R (λ j. true) run ≤ all_most (t.now - s.now))
        × (admitted R (λ j. str_eq j ip) run ≤ own_most (t.now - s.now))
  rates_kept all_most own_most all_bounded own_bounded n before es s t first run prompt_before
        prompt ip =
      let start = view R (new_rate_limiter R config) in
      let ls = (ask_all R start (requests_of before)).1 in
      let like =
        Run-Like R config wait delay start refills room first prompt_before
          (new-Like R config delay n) in
      let (own_times, (own_sorted, own_within, own_enough)) = own_asked ip ls run prompt like in
      (
        global_rate_kept R config all_most all_bounded n before es s t first run,
        omega (
          arith,
          own_enough,
          own_bounded s.now t.now (ls.client ip) (like.own_used ip) own_times own_sorted own_within,
        ),
      )
