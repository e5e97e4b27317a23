-- ===== src/Handlers/Middleware/Recording.antt =====
-- loggingResponseWriter of handlers/middleware.go: what it has recorded after a handler's calls.
use mcp_searxng.Prelude.{ℕ, ◌+◌, ◌≡◌, refl, List, [], ◌∷◌, arith}
use mcp_searxng.Prelude.Int.{ℤ}
use mcp_searxng.Handlers.Middleware.{
  WriterCall, write_header, write, LoggingResponseWriter, record_call, record_calls,
}

-- The status that a writer's calls set last, and the bytes that they wrote.
pub last_status : ℤ → List WriterCall → ℤ
last_status status [] = status
last_status status (write_header code ∷ cs) = last_status code cs
last_status status (write bytes n ∷ cs) = last_status status cs

pub bytes_written : List WriterCall → ℕ
bytes_written [] = 0
bytes_written (write_header code ∷ cs) = bytes_written cs
bytes_written (write bytes n ∷ cs) = n + bytes_written cs

-- The recording writer holds the status that was set last, the one that it had before any,
-- and the sum of the bytes that were taken.
pub record_calls_lem :
    (cs : List WriterCall) (lrw : LoggingResponseWriter)
    → ((record_calls cs lrw).status_code ≡ last_status lrw.status_code cs)
      × ((record_calls cs lrw).body_size ≡ lrw.body_size + bytes_written cs)
unfolding record_calls record_call last_status bytes_written
record_calls_lem [] lrw = (refl, omega arith)
record_calls_lem (write_header code ∷ cs) lrw =
    record_calls_lem cs (record lrw { status_code = code })
record_calls_lem (write bytes n ∷ cs) lrw =
    let (status, size) = record_calls_lem cs (record lrw { body_size = lrw.body_size + n }) in
    (status, omega (arith, size))
