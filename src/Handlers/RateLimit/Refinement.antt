-- ===== src/Handlers/RateLimit/Refinement.antt =====
-- The rate limiter against an abstract one that has a limiter for every address from the start.
use mcp_searxng.Prelude.{
  ℕ, ◌≡◌, refl, ap, ap₂, ◌∙◌, Bool, true, false, ◌&&◌, List, [], ◌∷◌, Option, none, some, arith,
  if◌then◌else◌, Bool-cases, inl, inr,
}
use mcp_searxng.Text.{Str, str_eq, str_eq_iff}
use mcp_searxng.Assoc.{lookup}
use mcp_searxng.Handlers.RateLimit.{
  Rate, Readings, RateLimiter, RateLimiterConfig, ClientLimiter, client_entry, allow_client,
  allow_request, burst_or_default,
}
use mcp_searxng.Handlers.RateLimit.Limits.{allow_request_lem}

module _ (R : Rate) where
  open R use {Limiter, new_limiter, allow}

  -- The abstract limiter: one for all, and one for each address.
  pub record Limiters : Type 0 where
    pub global : Limiter
    pub client : Str → Limiter

  -- A request asks the limiter of all, and if that admits it the limiter of its address.
  unfoldable pub ask : Limiters → Readings → Str → Bool × Limiters
  ask ls t ip =
      let (passed, global) = allow t.global_at ls.global in
      let (admitted, limiter) = allow t.client_at (ls.client ip) in
      if passed
      then (
        admitted,
        record { global = global; client = λ j. if str_eq ip j then limiter else ls.client j },
      )
      else (false, record { global = global; client = ls.client })

  -- The limiter of an address whether or not it has an entry.
  abbrev pub limiter_of : RateLimiterConfig R → Option (ClientLimiter R) → Limiter
  limiter_of config none =
      new_limiter config.per_client_limit
        (burst_or_default R config.per_client_burst config.per_client_limit)
  limiter_of config (some entry) = entry.limiter

  abbrev pub current : RateLimiter R → Str → Limiter
  current rl ip = limiter_of rl.config (lookup ip rl.clients)

  abbrev pub view : RateLimiter R → Limiters
  view rl = record { global = rl.global; client = current rl }

  pub limiter-client_entry :
      (rl : RateLimiter R) (now : ℕ) (ip : Str) → (client_entry R rl now ip).limiter ≡ current rl ip
  unfolding client_entry
  limiter-client_entry rl now ip = ground arith

  pub config-allow_request :
      (rl : RateLimiter R) (t : Readings) (ip : Str)
      → (allow_request R rl t ip).1.config ≡ rl.config
  unfolding allow_request allow_client
  config-allow_request rl t ip = ground arith

  pub global-allow_request :
      (rl : RateLimiter R) (t : Readings) (ip : Str)
      → (allow_request R rl t ip).1.global ≡ (allow t.global_at rl.global).1
  unfolding allow_request allow_client
  global-allow_request rl t ip = ground arith

  current-allow_request :
      (rl : RateLimiter R) (t : Readings) (ip j : Str)
      → current (allow_request R rl t ip).1 j ≡ (
          if (allow t.global_at rl.global).0
          then (if str_eq ip j then (allow t.client_at (current rl ip)).1 else current rl j)
          else current rl j)
  current-allow_request rl t ip j =
      rw
        (
          config-allow_request rl t ip,
          (allow_request_lem R rl t ip j).1,
          limiter-client_entry rl t.seen_at ip,
        )
        (ground arith)

  pub current_passed :
      (rl : RateLimiter R) (t : Readings) (ip : Str)
      → (allow t.global_at rl.global).0 ≡ true
      → (j : Str)
      → current (allow_request R rl t ip).1 j
        ≡ (if str_eq ip j then (allow t.client_at (current rl ip)).1 else current rl j)
  current_passed rl t ip e j = rw (current-allow_request rl t ip j, e)

  pub current_refused :
      (rl : RateLimiter R) (t : Readings) (ip : Str)
      → (allow t.global_at rl.global).0 ≡ false
      → (j : Str) → current (allow_request R rl t ip).1 j ≡ current rl j
  current_refused rl t ip e j = rw (current-allow_request rl t ip j, e)

  pub decision :
      (rl : RateLimiter R) (t : Readings) (ip : Str)
      → (allow_request R rl t ip).0
        ≡ (allow t.global_at rl.global).0 && (allow t.client_at (current rl ip)).0
  decision rl t ip = rw ((allow_request_lem R rl t ip ip).0, limiter-client_entry rl t.seen_at ip)

  -- Each request gets the decision that the abstract limiter makes, and leaves the limiters that it
  -- leaves.
  allow_request-ask :
      (rl : RateLimiter R) (t : Readings) (ip : Str)
      → ((allow_request R rl t ip).0 ≡ (ask (view rl) t ip).0)
        × (view (allow_request R rl t ip).1 ≡ (ask (view rl) t ip).1)
  unfolding ask
  allow_request-ask rl t ip = elim (Bool-cases (allow t.global_at rl.global).0) [
    | inl e ↦ rw e (
      rw (decision rl t ip, e),
      λ i. record {
        global = global-allow_request rl t ip i;
        client = λ j. current_passed rl t ip e j i;
      },
    )
    | inr e ↦ rw e (
      rw (decision rl t ip, e),
      λ i. record {
        global = global-allow_request rl t ip i;
        client = λ j. current_refused rl t ip e j i;
      },
    )
  ]

  -- A sequence of requests, each with its clock readings and its address.
  unfoldable pub allow_all : RateLimiter R → List (Readings × Str) → List Bool × RateLimiter R
  allow_all rl [] = ([], rl)
  allow_all rl ((t, ip) ∷ rs) =
      let (admitted, rl') = allow_request R rl t ip in
      let (rest, last) = allow_all rl' rs in (admitted ∷ rest, last)

  unfoldable pub ask_all : Limiters → List (Readings × Str) → List Bool × Limiters
  ask_all ls [] = ([], ls)
  ask_all ls ((t, ip) ∷ rs) =
      let (admitted, ls') = ask ls t ip in
      let (rest, last) = ask_all ls' rs in (admitted ∷ rest, last)

  -- Over any sequence of requests between two evictions, the decisions are those of the abstract
  -- limiter, and so is the limiter that each address is left with.
  pub allow_all-ask_all :
      (rl : RateLimiter R) (rs : List (Readings × Str))
      → ((allow_all rl rs).0 ≡ (ask_all (view rl) rs).0)
        × (view (allow_all rl rs).1 ≡ (ask_all (view rl) rs).1)
  unfolding allow_all ask_all
  allow_all-ask_all rl [] = (refl, refl)
  allow_all-ask_all rl ((t, ip) ∷ rs) =
      let (same, left) = allow_request-ask rl t ip in
      let (rest, last) = allow_all-ask_all (allow_request R rl t ip).1 rs in
      (
        ap₂ ◌∷◌ same (rest ∙ ap (λ (ls : Limiters). (ask_all ls rs).0) left),
        last ∙ ap (λ (ls : Limiters). (ask_all ls rs).1) left,
      )

  -- The times at which the limiter of an address is asked: its own requests that the limiter of all
  -- has admitted.
  pub own_times : Str → Limiter → List (Readings × Str) → List ℕ
  own_times ip g [] = []
  own_times ip g ((t, j) ∷ rs) =
      let (passed, g') = allow t.global_at g in
      let rest = own_times ip g' rs in if passed && str_eq j ip then t.client_at ∷ rest else rest

  pub spend : Limiter → List ℕ → Limiter
  spend l [] = l
  spend l (now ∷ ts) = spend (allow now l).1 ts

  -- Clients are isolated: what is left in the limiter of an address depends on its own admitted
  -- requests only, whatever the others ask in between.
  pub clients_isolated :
      (rl : RateLimiter R) (rs : List (Readings × Str)) (ip : Str)
      → current (allow_all rl rs).1 ip ≡ spend (current rl ip) (own_times ip rl.global rs)
  unfolding allow_all own_times spend
  clients_isolated rl [] ip = refl
  clients_isolated rl ((t, j) ∷ rs) ip =
      let rl' = (allow_request R rl t j).1 in
      let g' = (allow t.global_at rl.global).1 in
      clients_isolated rl' rs ip
      ∙ rw (global-allow_request rl t j) (elim (Bool-cases (allow t.global_at rl.global).0) [
        | inr e ↦ rw (e, current_refused rl t j e ip)
        | inl e ↦ elim (Bool-cases (str_eq j ip)) [
          | inr f ↦ rw (e, current_passed rl t j e ip, f)
          | inl f ↦
              let same : current rl j ≡ current rl ip = ap (current rl) ((str_eq_iff j ip).0 f) in
              rw (e, current_passed rl t j e ip, f, same)
        ]
      ])
