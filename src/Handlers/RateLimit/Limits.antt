-- ===== src/Handlers/RateLimit/Limits.antt =====
-- The map of clients: each operation's effect on it.
use mcp_searxng.Prelude.{
  ℕ, ◌+◌, ◌-◌, ◌≤◌, ◌≡◌, refl, Bool, true, ◌&&◌, some, arith, leb, if◌then◌else◌, Bool-cases, inl,
  inr,
}
use mcp_searxng.Text.{Str, str_eq, str_eq_refl}
use mcp_searxng.Assoc.{lookup, IsMap, lookup-put, put-IsMap, retain-IsMap, lookup-retain, kept}
use mcp_searxng.Handlers.RateLimit.{
  Rate, client_ttl, Readings, RateLimiter, ClientLimiter, client_entry, allow_client, allow_request,
  evict_expired,
}

module _ (R : Rate) where
  open R use {allow}

  -- A request is admitted exactly when the global limiter and the client's own limiter admit it; the
  -- client's limiter is asked, and the client's entry written, only if the global limiter admits it,
  -- and no other client's entry changes.
  pub allow_request_lem :
      (rl : RateLimiter R) (t : Readings) (ip j : Str)
      → let passed = (allow t.global_at rl.global).0 in
        let entry = client_entry R rl t.seen_at ip in
        let asked = allow t.client_at entry.limiter in
        ((allow_request R rl t ip).0 ≡ passed && asked.0)
        × (lookup j (allow_request R rl t ip).1.clients ≡ (
            if passed && str_eq ip j
            then some (record entry { limiter = asked.1 })
            else lookup j rl.clients))
  unfolding allow_request allow_client client_entry
  allow_request_lem rl t ip j =
      let entry = client_entry R rl t.seen_at ip in
      let written = record entry { limiter = (allow t.client_at entry.limiter).1 } in
      let law = lookup-put ip j written rl.clients in
      elim (Bool-cases (allow t.global_at rl.global).0) [
        | inl e ↦ rw e (refl, law)
        | inr e ↦ rw e (refl, refl)
      ]

  pub allow_request-IsMap :
      (rl : RateLimiter R) (t : Readings) (ip : Str)
      → IsMap rl.clients
      → IsMap (allow_request R rl t ip).1.clients
  unfolding allow_request allow_client
  allow_request-IsMap rl t ip h = elim (Bool-cases (allow t.global_at rl.global).0) [
    | inl e ↦ rw e (put-IsMap ip _ rl.clients h)
    | inr e ↦ rw e h
  ]

  abbrev pub is_fresh : ℕ → ClientLimiter R → Bool
  is_fresh now entry = leb (now - entry.last_seen) client_ttl

  -- If each client has one entry, an eviction removes the clients that were last seen longer than the TTL ago, and no others.
  pub evict_expired-lookup :
      (now : Str → ℕ) (rl : RateLimiter R) (ip : Str)
      → IsMap rl.clients
      → lookup ip (evict_expired R now rl).clients ≡ kept (is_fresh (now ip)) (lookup ip rl.clients)
  unfolding evict_expired
  evict_expired-lookup now rl ip h =
      lookup-retain (λ k entry. is_fresh (now k) entry) ip rl.clients h

  pub evict_expired-IsMap :
      (now : Str → ℕ) (rl : RateLimiter R)
      → IsMap rl.clients
      → IsMap (evict_expired R now rl).clients
  unfolding evict_expired
  evict_expired-IsMap now rl h = retain-IsMap (λ k entry. is_fresh (now k) entry) rl.clients h

  pub last_seen-client_entry :
      (rl : RateLimiter R) (now : ℕ) (ip : Str) → (client_entry R rl now ip).last_seen ≡ now
  unfolding client_entry
  last_seen-client_entry rl now ip = ground arith

  -- If each client has one entry, a client that the global limiter let pass keeps its entry, with the
  -- tokens that it has used, in an eviction at most the TTL of 30 minutes later.
  pub evict_keeps_recent :
      (rl : RateLimiter R) (t : Readings) (ip : Str) (now : Str → ℕ)
      → IsMap rl.clients
      → (allow t.global_at rl.global).0 ≡ true
      → now ip ≤ t.seen_at + client_ttl
      → lookup ip (evict_expired R now (allow_request R rl t ip).1).clients
        ≡ lookup ip (allow_request R rl t ip).1.clients
  evict_keeps_recent rl t ip now h passed recent =
      let after = (allow_request R rl t ip).1 in
      rw (evict_expired-lookup now after ip (allow_request-IsMap rl t ip h)) (
        rw
          (
            (allow_request_lem rl t ip ip).1,
            passed,
            str_eq_refl ip,
            last_seen-client_entry rl t.seen_at ip,
          )
          (ground arith))
