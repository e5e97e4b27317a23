-- ===== src/Handlers/RateLimit/Lifecycle/Remembering.antt =====
-- A rate limiter next to the abstract one that has had the same requests and forgets no client.
use mcp_searxng.Prelude.{
  ℕ, ◌+◌, ◌≤◌, ◌≡◌, refl, ◌∙◌, Bool, ◌&&◌, Option, none, some, arith, if◌then◌else◌, Bool-cases,
  inl, inr,
}
use mcp_searxng.Prelude.Int.{ℤ}
use mcp_searxng.Text.{Str, str_eq}
use mcp_searxng.Assoc.{lookup, IsMap}
use mcp_searxng.Handlers.RateLimit.{
  Rate, Readings, RateLimiter, RateLimiterConfig, ClientLimiter, new_rate_limiter, allow_request,
  burst_or_default, client_entry,
}
use mcp_searxng.Handlers.RateLimit.Limits.{
  allow_request_lem, allow_request-IsMap, last_seen-client_entry,
}
use mcp_searxng.Handlers.RateLimit.Refinement.{
  decision, Limiters, ask, view, current, limiter_of, limiter-client_entry, config-allow_request,
  global-allow_request, current_passed, current_refused,
}
use mcp_searxng.Handlers.RateLimit.Lifecycle.{InOrder, Moment}
use mcp_searxng.Handlers.RateLimit.Lifecycle.Refill.{
  Used, Used-later, fresh, asked, Alike, Alike-allow, Alike-later, Alike-refl,
}

-- The burst of the limiter of a client.
abbrev pub client_burst : (R : Rate) → RateLimiterConfig R → ℤ
client_burst R config = burst_or_default R config.per_client_burst config.per_client_limit

module _ (R : Rate) (config : RateLimiterConfig R) (delay : ℕ) where
  open R use {Limiter, allow}

  -- The limiter of an entry was last asked in the past, and at most the delay after `lastSeen`.
  abbrev pub Tracked : ℕ → Option (ClientLimiter R) → Type 0
  Tracked now none = Unit
  Tracked now (some e) =
      (m : ℕ) × ((m ≤ e.last_seen + delay)
        × (m ≤ now)
        × Used R config.per_client_limit (client_burst R config) m e.limiter)

  -- A limiter in a run, and the abstract one that has had the same requests and forgets no client.
  pub record Like (s : Moment R) (ls : Limiters R) : Type 0 where
    pub one_each : IsMap s.limiter.clients
    pub same_config : s.limiter.config ≡ config
    pub same_global : s.limiter.global ≡ ls.global
    pub alike : (ip : Str) → Alike R s.now (current R s.limiter ip) (ls.client ip)
    pub tracked : (ip : Str) → Tracked s.now (lookup ip s.limiter.clients)
    pub own_used :
        (ip : Str) → Used R config.per_client_limit (client_burst R config) s.now (ls.client ip)

  pub Tracked-later : (m n : ℕ) (o : Option (ClientLimiter R)) → m ≤ n → Tracked m o → Tracked n o
  Tracked-later m n none h old = tt
  Tracked-later m n (some e) h (k, (seen, past, used)) = (k, (seen, omega (arith, past, h), used))

  Used-limiter_of :
      (now : ℕ) (o : Option (ClientLimiter R))
      → Tracked now o
      → (m : ℕ) × ((m ≤ now)
          × Used R config.per_client_limit (client_burst R config) m (limiter_of R config o))
  Used-limiter_of now none old = (now, (omega arith, fresh))
  Used-limiter_of now (some e) (m, (seen, past, used)) = (m, (past, used))

  pub new-Like :
      (n : ℕ)
      → Like
          (record { now = n; limiter = new_rate_limiter R config })
          (view R (new_rate_limiter R config))
  unfolding new_rate_limiter lookup
  new-Like n = record {
    one_each = tt;
    same_config = refl;
    same_global = refl;
    alike = λ ip. Alike-refl R n _;
    tracked = λ ip. tt;
    own_used = λ ip. fresh;
  }

  -- The entry that a request writes.
  written-Tracked :
      (s : Moment R) (ls : Limiters R) (t : Readings) (ip : Str) (later : ℕ)
      → Like s ls
      → s.now ≤ t.client_at
      → t.client_at ≤ t.seen_at + delay
      → t.client_at ≤ later
      → let entry = client_entry R s.limiter t.seen_at ip in
        Tracked later (some (record entry { limiter = (allow t.client_at entry.limiter).1 }))
  written-Tracked s ls t ip later like past prompt soon =
      let (m, (bound, used)) =
        Used-limiter_of s.now (lookup ip s.limiter.clients) (like.tracked ip) in
      (
        t.client_at,
        (
          rw (last_seen-client_entry R s.limiter t.seen_at ip) prompt,
          soon,
          rw (limiter-client_entry R s.limiter t.seen_at ip, like.same_config)
              (asked used (omega (arith, bound, past)) (omega arith)),
        ),
      )

  pub ask_client :
      (ls : Limiters R) (t : Readings) (ip j : Str)
      → (ask R ls t ip).1.client j ≡ (
          if (allow t.global_at ls.global).0 && str_eq ip j
          then (allow t.client_at (ls.client ip)).1
          else ls.client j)
  unfolding ask
  ask_client ls t ip j = elim (Bool-cases (allow t.global_at ls.global).0) [
    | inl e ↦ rw e refl
    | inr e ↦ rw e refl
  ]

  pub ask_global :
      (ls : Limiters R) (t : Readings) (ip : Str)
      → (ask R ls t ip).1.global ≡ (allow t.global_at ls.global).1
  unfolding ask
  ask_global ls t ip = elim (Bool-cases (allow t.global_at ls.global).0) [
    | inl e ↦ rw e refl
    | inr e ↦ rw e refl
  ]

  pub ask_decision :
      (ls : Limiters R) (t : Readings) (ip : Str)
      → (ask R ls t ip).0 ≡ (allow t.global_at ls.global).0 && (allow t.client_at (ls.client ip)).0
  unfolding ask
  ask_decision ls t ip = elim (Bool-cases (allow t.global_at ls.global).0) [
    | inl e ↦ rw e refl
    | inr e ↦ rw e refl
  ]

  current_after :
      (rl : RateLimiter R) (t : Readings) (ip j : Str)
      → current R (allow_request R rl t ip).1 j ≡ (
          if (allow t.global_at rl.global).0 && str_eq ip j
          then (allow t.client_at (current R rl ip)).1
          else current R rl j)
  current_after rl t ip j = elim (Bool-cases (allow t.global_at rl.global).0) [
    | inl e ↦ rw e (current_passed R rl t ip e j)
    | inr e ↦ rw e (current_refused R rl t ip e j)
  ]

  pub requested-Like :
      (s : Moment R) (ls : Limiters R) (t : Readings) (ip : Str) (later : ℕ)
      → s.now ≤ t.global_at
      → InOrder t
      → t.client_at ≤ later
      → t.client_at ≤ t.seen_at + delay
      → Like s ls
      → Like
          (record { now = later; limiter = (allow_request R s.limiter t ip).1 })
          (ask R ls t ip).1
  requested-Like s ls t ip later past (seen, then_client) soon prompt like =
      let in_past : s.now ≤ t.client_at = omega (arith, past, seen, then_client) in
      record {
        one_each = allow_request-IsMap R s.limiter t ip like.one_each;
        same_config = config-allow_request R s.limiter t ip ∙ like.same_config;
        same_global =
            rw (global-allow_request R s.limiter t ip, ask_global ls t ip, like.same_global) refl;
        alike = λ j.
            rw (current_after s.limiter t ip j, ask_client ls t ip j, like.same_global)
              (elim (Bool-cases ((allow t.global_at ls.global).0 && str_eq ip j)) [
                | inl e ↦ rw e (
                    Alike-later R t.client_at later _ _ soon
                      (Alike-allow R s.now t.client_at _ _ in_past (like.alike ip)).1)
                | inr e ↦ rw e (Alike-later R s.now later _ _ (omega arith) (like.alike j))
              ]);
        tracked = λ j.
            rw (allow_request_lem R s.limiter t ip j).1
              (elim (Bool-cases ((allow t.global_at s.limiter.global).0 && str_eq ip j)) [
                | inl e ↦ rw e (written-Tracked s ls t ip later like in_past prompt soon)
                | inr e ↦ rw e (Tracked-later s.now later _ (omega arith) (like.tracked j))
              ]);
        own_used = λ j.
            rw (ask_client ls t ip j)
              (elim (Bool-cases ((allow t.global_at ls.global).0 && str_eq ip j)) [
                | inl e ↦ rw e (asked (like.own_used ip) in_past soon)
                | inr e ↦ rw e (Used-later R _ _ s.now later _ (omega arith) (like.own_used j))
              ]);
      }

  -- The decision on a request is that of the abstract limiter.
  pub decision-Like :
      (s : Moment R) (ls : Limiters R) (t : Readings) (ip : Str)
      → s.now ≤ t.client_at
      → Like s ls
      → (allow_request R s.limiter t ip).0
        ≡ (allow t.global_at ls.global).0 && (allow t.client_at (ls.client ip)).0
  decision-Like s ls t ip past like =
      rw
        (
          decision R s.limiter t ip,
          like.same_global,
          (Alike-allow R s.now t.client_at _ _ past (like.alike ip)).0,
        )
        refl

  -- The flags of the eviction loop are nothing to the clients.
  pub flags-Like :
      (s : Moment R) (ls : Limiters R) (closed evicting : Bool)
      → Like s ls
      → Like
          (record {
            now = s.now;
            limiter = record s.limiter { closed = closed; evicting = evicting };
          })
          ls
  flags-Like s ls closed evicting like = record {
    one_each = like.one_each;
    same_config = like.same_config;
    same_global = like.same_global;
    alike = like.alike;
    tracked = like.tracked;
    own_used = like.own_used;
  }
