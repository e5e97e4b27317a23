-- ===== src/Handlers/RateLimit/Lifecycle/Forgetting.antt =====
-- The eviction of clients that make no more requests.
use mcp_searxng.Prelude.{
  ℕ, ◌+◌, ◌<◌, ◌≡◌, refl, ◌∙◌, inl, Bool, false, List, [], ◌∷◌, Option, none, some, arith,
}
use mcp_searxng.Text.{Str}
use mcp_searxng.Assoc.{lookup, kept}
use mcp_searxng.Handlers.RateLimit.{
  Rate, client_ttl, RateLimiterConfig, ticked, evict_stale_clients, new_rate_limiter,
}
use mcp_searxng.Handlers.RateLimit.Limits.{evict_expired-lookup, is_fresh}
use mcp_searxng.Handlers.RateLimit.Lifecycle.{
  Event, request, wake, stop_call, IsQuiet, Moment, Step, requested, swept, returned, stopped, Run,
  done, and_then,
}
use mcp_searxng.Handlers.RateLimit.Lifecycle.Invariant.{
  Inv, SeenBy, Step-Inv, Run-Inv, new-Inv, allow_request-SeenBy, evict_expired-SeenBy, stop_lem,
}

kept-none :
    {A : Type 0} (p : A → Bool) (o : Option A)
    → ((a : A) → o ≡ some a → p a ≡ false)
    → kept p o ≡ none
kept-none p none h = refl
kept-none p (some a) h = rw (h a refl)

module _ (R : Rate) where
  Step-SeenBy :
      {e : Event} {s t : Moment R} (ip : Str) (n : ℕ)
      → Step R e s t
      → Inv R s
      → IsQuiet ip (e ∷ [])
      → SeenBy R ip n s.limiter
      → SeenBy R ip n t.limiter
  unfolding evict_stale_clients
  Step-SeenBy ip n (requested {s} t j later past order soon) inv (quiet, _) old =
      allow_request-SeenBy R s.limiter t j ip n (inl quiet) old
  Step-SeenBy ip n (swept {s} now later on readings time) inv quiet old =
      evict_expired-SeenBy R s.limiter now ip n inv.one_each old
  Step-SeenBy ip n (returned on closed) inv quiet old = old
  Step-SeenBy ip n (stopped {s} {rl} h) inv quiet old = rw (stop_lem R s.limiter rl h).0 old

  IsQuiet-first :
      (ip : Str) (e : Event) (es : List Event)
      → IsQuiet ip (e ∷ es)
      → IsQuiet ip (e ∷ []) × IsQuiet ip es
  IsQuiet-first ip (request t j) es (q, qs) = ((q, tt), qs)
  IsQuiet-first ip (wake w) es qs = (tt, qs)
  IsQuiet-first ip stop_call es qs = (tt, qs)

  Run-SeenBy :
      {es : List Event} {s t : Moment R} (ip : Str) (n : ℕ)
      → Run R es s t
      → Inv R s
      → IsQuiet ip es
      → SeenBy R ip n s.limiter
      → SeenBy R ip n t.limiter
  Run-SeenBy ip n done inv quiet old = old
  Run-SeenBy ip n (and_then {e} {es} st run) inv quiet old =
      let (one, rest) = IsQuiet-first ip e es quiet in
      Run-SeenBy ip n run (Step-Inv R st inv) rest (Step-SeenBy ip n st inv one old)

  -- A client that makes no request for more than the TTL of 30 minutes is forgotten: after any run of
  -- a new limiter, and then events of which none is a request of the client, an eviction pass that
  -- begins more than the TTL after the first of these leaves the client no entry.
  pub quiet_client_forgotten :
      (config : RateLimiterConfig R) (n : ℕ) (before after : List Event) (ip : Str) (now : Str → ℕ)
      (s t u : Moment R)
      → Run R before (record { now = n; limiter = new_rate_limiter R config }) s
      → Run R after s t
      → IsQuiet ip after
      → Step R (wake (ticked now)) t u
      → s.now + client_ttl < now ip
      → lookup ip u.limiter.clients ≡ none
  unfolding evict_stale_clients
  quiet_client_forgotten config n before after ip now s t u r q quiet
        (swept _ later on readings time) gone =
      let inv = Run-Inv R r (new-Inv R config n) in
      let end = Run-Inv R q inv in
      let old = Run-SeenBy ip s.now q inv quiet (inv.seen ip) in
      evict_expired-lookup R now t.limiter ip end.one_each
      ∙ kept-none (is_fresh R (now ip)) (lookup ip t.limiter.clients)
          (λ entry e. ground (arith, old entry e, gone))
