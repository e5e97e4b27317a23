-- ===== src/Tests/Runs.antt =====
-- The sample rate limiter in a short run: a request of each of two clients, and a sweep.
use mcp_searxng.Prelude.{ℕ, ◌+◌, ◌≡◌, ◌⊎◌, refl, true, false, [], ◌∷◌, none, some, arith}
use mcp_searxng.Prelude.Int.{leb_ℤ}
use mcp_searxng.Text.{Str, str}
use mcp_searxng.Assoc.{lookup}
use mcp_searxng.Handlers.RateLimit.{
  Readings, client_ttl, ticked, stop_closed, new_rate_limiter, allow_request, allow_client,
  client_entry, burst_or_default, evict_stale_clients, stop,
}
use mcp_searxng.Handlers.RateLimit.Lifecycle.{
  request, wake, Moment, Step, requested, swept, returned, stopped, Run, done, and_then,
}
use mcp_searxng.Handlers.RateLimit.Lifecycle.History.{
  last_use, Remembers, was_stopped, has_returned, keeps_book,
}
use mcp_searxng.Handlers.RateLimit.Lifecycle.Forgetting.{quiet_client_forgotten}
use mcp_searxng.Handlers.RateLimit.Lifecycle.Stopping.{ReturnsOnce, stop_ends_loop}
use mcp_searxng.Tests.Samples.{token_rate}
use mcp_searxng.Tests.Limiter.{small_config, at_noon}

abbrev fresh : Moment token_rate
fresh = record { now = 0; limiter = new_rate_limiter token_rate small_config }

-- After a request of "a" at the time 0.
abbrev after_a : Moment token_rate
after_a = record { now = 5; limiter = (allow_request token_rate fresh.limiter at_noon (str "a")).1 }

abbrev later_readings : Readings
later_readings = record { global_at = 7; seen_at = 7; client_at = 7 }

abbrev after_b : Moment token_rate
after_b = record {
  now = 9;
  limiter = (allow_request token_rate after_a.limiter later_readings (str "b")).1;
}

abbrev sweep_time : Str → ℕ
sweep_time ip = client_ttl + 6

abbrev after_sweep : Moment token_rate
after_sweep = record {
  now = client_ttl + 7;
  limiter = evict_stale_clients token_rate (ticked sweep_time) after_b.limiter;
}

to_a-Run : Run token_rate (request at_noon (str "a") ∷ []) fresh after_a
to_a-Run =
    and_then (requested at_noon (str "a") 5 (omega arith) (omega arith, omega arith) (omega arith))
      done

to_b-Run : Run token_rate (request later_readings (str "b") ∷ []) after_a after_b
to_b-Run =
    and_then
      (requested later_readings (str "b") 9 (omega arith) (omega arith, omega arith) (omega arith))
      done

still_on : after_b.limiter.evicting ≡ true
unfolding allow_request allow_client client_entry new_rate_limiter burst_or_default leb_ℤ
still_on = refl

sweep : Step token_rate (wake (ticked sweep_time)) after_b after_sweep
sweep = swept sweep_time (client_ttl + 7) still_on (λ ip. (omega arith, omega arith)) (omega arith)

to_sweep-Run :
    Run token_rate
      (request at_noon (str "a") ∷ request later_readings (str "b") ∷ wake (ticked sweep_time) ∷ [])
      fresh
      after_sweep
to_sweep-Run =
    and_then (requested at_noon (str "a") 5 (omega arith) (omega arith, omega arith) (omega arith))
      (and_then
        (requested later_readings (str "b") 9 (omega arith) (omega arith, omega arith)
          (omega arith))
        (and_then sweep done))

keeps_book_example :
    Remembers token_rate (str "b") (last_use token_rate (str "b") to_sweep-Run none) after_sweep
    × (after_sweep.limiter.closed ≡ false)
    × (after_sweep.limiter.evicting ≡ true)
unfolding was_stopped has_returned
keeps_book_example =
    keeps_book token_rate small_config 0
      (request at_noon (str "a") ∷ request later_readings (str "b") ∷ wake (ticked sweep_time) ∷ [])
      after_sweep to_sweep-Run (str "b")

quiet_client_forgotten_example : lookup (str "a") after_sweep.limiter.clients ≡ none
quiet_client_forgotten_example =
    quiet_client_forgotten token_rate small_config 0 (request at_noon (str "a") ∷ [])
      (request later_readings (str "b") ∷ []) (str "a") sweep_time after_a after_b after_sweep
      to_a-Run to_b-Run (ground arith, tt) sweep (omega arith)

abbrev stopped_b : Moment token_rate
stopped_b = record after_b { limiter = record after_b.limiter { closed = true } }

stop_made : stop token_rate after_b.limiter ≡ some stopped_b.limiter
unfolding stop allow_request allow_client client_entry new_rate_limiter burst_or_default leb_ℤ
stop_made = refl

abbrev ended : Moment token_rate
ended = record {
  now = stopped_b.now;
  limiter = evict_stale_clients token_rate stop_closed stopped_b.limiter;
}

still_on_b : stopped_b.limiter.evicting ≡ true
unfolding allow_request allow_client client_entry new_rate_limiter burst_or_default leb_ℤ
still_on_b = refl

to_b_whole-Run :
    Run token_rate (request at_noon (str "a") ∷ request later_readings (str "b") ∷ []) fresh after_b
to_b_whole-Run =
    and_then (requested at_noon (str "a") 5 (omega arith) (omega arith, omega arith) (omega arith))
      to_b-Run

stop_ends_loop_example :
    (has_returned (request at_noon (str "a") ∷ request later_readings (str "b") ∷ []) ≡ false)
    × ReturnsOnce (wake stop_closed ∷ [])
    × ((has_returned (wake stop_closed ∷ []) ≡ true) × (ended.limiter.evicting ≡ false)
        ⊎ (has_returned (wake stop_closed ∷ []) ≡ false)
          × ((v : Moment token_rate) × Step token_rate (wake stop_closed) ended v
              × (v.limiter.evicting ≡ false)))
    × (stop token_rate ended.limiter ≡ none)
stop_ends_loop_example =
    stop_ends_loop token_rate small_config 0
      (request at_noon (str "a") ∷ request later_readings (str "b") ∷ []) (wake stop_closed ∷ [])
      after_b stopped_b ended to_b_whole-Run (stopped stop_made)
      (and_then (returned still_on_b refl) done)
