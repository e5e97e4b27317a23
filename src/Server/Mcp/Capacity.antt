-- ===== src/Server/Mcp/Capacity.antt =====
-- What the server can ask of SearXNG over a period, whatever the clients do.
use mcp_searxng.Prelude.{
  ap, ◌∙◌, ◌++◌, ℕ, ◌+◌, ◌-◌, ◌*◌, ◌≤◌, ◌≡◌, refl, subst, Bool, true, List, [], ◌∷◌, Option, length,
  arith, inl, inr,
}
use mcp_searxng.Text.{Str}
use mcp_searxng.Packages.{Url, Clock}
use mcp_searxng.Service.{new_search_service}
use mcp_searxng.Searxng.Client.{Client, ClientState, client_repository}
use mcp_searxng.Handlers.ClientIp.{Request, extract_client_ip}
use mcp_searxng.Handlers.RateLimit.{Rate, RateLimiter, RateLimiterConfig, new_rate_limiter}
use mcp_searxng.Handlers.RateLimit.Lifecycle.{
  Event, Moment, Step, requested, swept, returned, stopped, Run, done, and_then,
}
use mcp_searxng.Handlers.RateLimit.Lifecycle.Refill.{Bounded}
use mcp_searxng.Handlers.RateLimit.Lifecycle.Admitted.{
  global_burst, ones, admitted, global_rate_kept,
}
use mcp_searxng.Handlers.Redact.{FieldValue}
use mcp_searxng.Handlers.ToolCall.{CallReadings}
use mcp_searxng.Handlers.Middleware.{JsonRpc, Web, WriterCall, Handler, max_batch_size}
use mcp_searxng.Handlers.Middleware.Flight.{begin, finish, finish_lem}
use mcp_searxng.Handlers.Middleware.Life.{
  IsHousekeeping, Flight, Stand, limiter_of, ServerRun, over, entering, landing, housekept,
}
use mcp_searxng.Log.{Log}
use mcp_searxng.Server.Mcp.{Sdk, Backend, mcp_server}
use mcp_searxng.Server.Mcp.Upstream.{
  rpc_count, rpc_count_bounded, handled_sent, SentAtMost, SentAtMost-trans, none_sent,
}

module _ {N : Type 0} (U : Url) (T : Clock) (c : Client N) (marshal : FieldValue → Option Str)
    (info_enabled : Bool) (source : Str) (readings : ℕ → CallReadings) (D : Sdk) (J : JsonRpc)
    (R : Rate) where
  abbrev pub tools : Handler WriterCall (Log × Backend (ClientState N))
  tools =
      mcp_server U T (new_search_service (client_repository c)) marshal info_enabled source readings
        D

  -- The requests in flight that were admitted.
  abbrev pub admitted_of : List Flight → ℕ
  admitted_of [] = 0
  admitted_of (f ∷ fs) = ones f.admitted + admitted_of fs

  -- A run of the rate limiter with the requests that were admitted, and the searches that were sent.
  abbrev Accounted :
      List Event → Stand R (Backend (ClientState N)) → Stand R (Backend (ClientState N)) → Type 0
  Accounted es s t =
      (run : Run R es (limiter_of R (Backend (ClientState N)) s)
        (limiter_of R (Backend (ClientState N)) t))
      × SentAtMost c (max_batch_size * (admitted_of s.flights + admitted R (λ j. true) run))
          s.web.inner.repo.net t.web.inner.repo.net

  admitted_of-append :
      (before : List Flight) (f : Flight) (after : List Flight)
      → admitted_of (before ++ f ∷ after) ≡ ones f.admitted + admitted_of (before ++ after)
  admitted_of-append [] f after = refl
  admitted_of-append (g ∷ before) f after = omega (arith, admitted_of-append before f after)

  -- The searches of one request: none, or as many as a batch may hold if it was admitted.
  finished_sent :
      ((q : Request) → length (D.calls q) ≤ rpc_count J q.body.bytes)
      → (f : Flight) (web : Web R (Backend (ClientState N)))
      → SentAtMost c
          (max_batch_size * ones f.admitted)
          web.inner.repo.net
          (finish J R f.moments tools f.admitted f.request web).1.inner.repo.net
  finished_sent rpc f web = elim (finish_lem J R f.moments tools f.admitted f.request web).2 [
    | inl same ↦ rw same (0, (omega arith, none_sent))
    | inr (said, (body, _, small, reached)) ↦
        let (k, (few, sent)) =
          handled_sent U T c marshal info_enabled source readings D J R f.moments f.request web rpc
            body in
        rw (reached, said) (k, (omega (arith, few, rpc_count_bounded J body small), sent))
  ]

  same_limiter-Run :
      {es : List Event} {end : Moment R} (now : ℕ) (l k : RateLimiter R)
      → l ≡ k
      → (rest : Run R es (record { now = now; limiter = l }) end)
      → (run : Run R es (record { now = now; limiter = k }) end) × (admitted R (λ j. true) run
          ≡ admitted R (λ j. true) rest)
  same_limiter-Run {es} {end} now l k same rest =
      subst
        (λ (x : RateLimiter R).
          (run : Run R es (record { now = now; limiter = x }) end) × (admitted R (λ j. true) run
            ≡ admitted R (λ j. true) rest))
        same (rest, refl)

  housekept-Run :
      {e : Event} {es : List Event} {s u end : Moment R}
      → IsHousekeeping e
      → Step R e s u
      → (rest : Run R es u end)
      → (run : Run R (e ∷ es) s end) × (admitted R (λ j. true) run ≡ admitted R (λ j. true) rest)
  unfolding admitted
  housekept-Run idle (requested t ip later past order soon) rest = absurd idle
  housekept-Run idle (swept now later on readings_at time) rest =
      (and_then (swept now later on readings_at time) rest, refl)
  housekept-Run idle (returned on closed) rest = (and_then (returned on closed) rest, refl)
  housekept-Run idle (stopped h) rest = (and_then (stopped h) rest, refl)

  accounted :
      ((q : Request) → length (D.calls q) ≤ rpc_count J q.body.bytes)
      → {es : List Event} {s t : Stand R (Backend (ClientState N))} → ServerRun J R tools es s t
      → Accounted es s t
  unfolding admitted begin
  accounted rpc over = (done, (0, (omega arith, none_sent)))
  accounted rpc (entering m r later past order soon run) =
      let (rest, (k, (few, sent))) = accounted rpc run in
      (
        and_then (requested m.limits (extract_client_ip r) later past order soon) rest,
        (k, (omega (arith, few), sent)),
      )
  accounted rpc (landing {s} before f after h run) =
      let (rest, sent) = accounted rpc run in
      let same = (finish_lem J R f.moments tools f.admitted f.request s.web).0 in
      let (whole, count) = same_limiter-Run s.now _ s.web.limiter same rest in
      let fewer : admitted_of s.flights ≡ ones f.admitted + admitted_of (before ++ after) =
        ap admitted_of h ∙ admitted_of-append before f after in
      (
        whole,
        SentAtMost-trans c _ _ _ _ _ _ (omega (arith, count, fewer)) (finished_sent rpc f s.web)
            sent,
      )
  accounted rpc (housekept idle st run) =
      let (rest, (k, (few, sent))) = accounted rpc run in
      let (whole, count) = housekept-Run idle st rest in
      (whole, (k, (omega (arith, few, count), sent)))

  -- If the limiters of golang.org/x/time/rate keep their rates, and the SDK finds no more calls in a
  -- request than its body holds JSON-RPC requests: in every period of the life of a server, whatever
  -- its requests are, in whatever order those in flight come to their ends, and however the rate limiter is swept in
  -- between, SearXNG gets at most 100 times as many requests as there are admitted ones in flight at
  -- first and as the global rate allows in a period of that length, all of them searches with a query
  -- of 1 to 512 bytes and a page from 1 to 100.
  pub capacity :
      ((q : Request) → length (D.calls q) ≤ rpc_count J q.body.bytes)
      → (config : RateLimiterConfig R) (most : ℕ → ℕ)
      → Bounded R config.global_limit (global_burst R config) most
      → (before es : List Event) (first s t : Stand R (Backend (ClientState N)))
      → first.web.limiter ≡ new_rate_limiter R config
      → ServerRun J R tools before first s
      → ServerRun J R tools es s t
      → SentAtMost c
          (max_batch_size * (admitted_of s.flights + most (t.now - s.now)))
          s.web.inner.repo.net
          t.web.inner.repo.net
  capacity rpc config most bounded before es first s t new earlier run =
      let begun =
        subst
          (λ (l : RateLimiter R).
            Run R before (record { now = first.now; limiter = l })
              (limiter_of R (Backend (ClientState N)) s))
          new (accounted rpc earlier).0 in
      let (period, (k, (few, sent))) = accounted rpc run in
      (
        k,
        (
          omega (
            arith,
            few,
            global_rate_kept R config most bounded first.now before es
                (limiter_of R (Backend (ClientState N)) s)
                (limiter_of R (Backend (ClientState N)) t) begun period,
          ),
          sent,
        ),
      )
