-- ===== src/Handlers/Middleware/Life.antt =====
-- The life of a server: its requests come at any time, and those in flight come to their ends in any
-- order.
use mcp_searxng.Prelude.{ℕ, ◌+◌, ◌≤◌, ◌≡◌, ap, ◌∙◌, Bool, List, [], ◌∷◌, ◌++◌, length, arith}
use mcp_searxng.Log.{Log}
use mcp_searxng.Handlers.ClientIp.{Request, extract_client_ip}
use mcp_searxng.Handlers.RateLimit.{Rate}
use mcp_searxng.Handlers.RateLimit.Lifecycle.{
  Event, request, wake, stop_call, InOrder, Moment, Step,
}
use mcp_searxng.Handlers.Middleware.{JsonRpc, Moments, Web, WriterCall, Handler}
use mcp_searxng.Handlers.Middleware.Flight.{begin, finish, finish_lem}

-- What happens to the rate limiter without a request.
abbrev pub IsHousekeeping : Event → Type 0
IsHousekeeping (request t ip) = ⊥
IsHousekeeping (wake w) = Unit
IsHousekeeping stop_call = Unit

-- A request between the rate limiter and its end, with the limiter's answer.
pub record Flight : Type 0 where
  pub moments : Moments
  pub request : Request
  pub admitted : Bool

module _ (R : Rate) (S : Type 0) where
  -- The server, its requests in flight, and a time by which its past is over.
  pub record Stand : Type 0 where
    pub now : ℕ
    pub web : Web R (S)
    pub flights : List Flight

  abbrev pub limiter_of : Stand → Moment R
  limiter_of s = record { now = s.now; limiter = s.web.limiter }

module _ (J : JsonRpc) (R : Rate) {S : Type 0} (base : Handler WriterCall (Log × S)) where
  abbrev pub entered : Moments → Request → ℕ → Stand R S → Stand R S
  entered m r later s =
      let (admitted, web) = begin J R m base r s.web in
      record {
        now = later;
        web = web;
        flights = record { moments = m; request = r; admitted = admitted } ∷ s.flights;
      }

  abbrev pub landed : Flight → List Flight → Stand R S → Stand R S
  landed f others s = record s {
    web = (finish J R f.moments base f.admitted f.request s.web).1;
    flights = others;
  }

  -- The server takes a request in, or any of those in flight comes to its end, or the rate limiter is
  -- swept or stopped.
  pub data ServerRun : List Event → Stand R S → Stand R S → Type 0 where
    over : {s : Stand R S} → ServerRun [] s s
    entering :
        {es : List Event} {s u : Stand R S} (m : Moments) (r : Request) (later : ℕ)
        → s.now ≤ m.limits.global_at
        → InOrder m.limits
        → m.limits.client_at ≤ later
        → ServerRun es (entered m r later s) u
        → ServerRun (request m.limits (extract_client_ip r) ∷ es) s u
    landing :
        {es : List Event} {s u : Stand R S} (before : List Flight) (f : Flight)
        (after : List Flight)
        → s.flights ≡ before ++ f ∷ after
        → ServerRun es (landed f (before ++ after) s) u
        → ServerRun es s u
    housekept :
        {e : Event} {es : List Event} {s u : Stand R S} {v : Moment R}
        → IsHousekeeping e
        → Step R e (limiter_of R S s) v
        → ServerRun es (record s { now = v.now; web = record s.web { limiter = v.limiter } }) u
        → ServerRun (e ∷ es) s u

  length-append-one :
      (before : List Flight) (f : Flight) (after : List Flight)
      → length (before ++ f ∷ after) ≡ length (before ++ after) + 1
  length-append-one [] f after = omega arith
  length-append-one (g ∷ before) f after = omega (arith, length-append-one before f after)

  -- Whatever its requests are and in whatever order they come to their ends: the gauge of a server is
  -- the number of its requests in flight, if it was at first.
  pub gauge_in_flight :
      {es : List Event} {s t : Stand R S}
      → ServerRun es s t
      → s.web.active ≡ length s.flights
      → t.web.active ≡ length t.flights
  unfolding begin
  gauge_in_flight over h = h
  gauge_in_flight (entering m r later past order soon run) h =
      gauge_in_flight run (omega (arith, h))
  gauge_in_flight (landing {s} before f after found run) h =
      let (_, active, _) = finish_lem J R f.moments base f.admitted f.request s.web in
      let one_less : length s.flights ≡ length (before ++ after) + 1 =
        ap length found ∙ length-append-one before f after in
      gauge_in_flight run (omega (arith, active, h, one_less))
  gauge_in_flight (housekept idle st run) h = gauge_in_flight run h
