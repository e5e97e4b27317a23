-- ===== src/Logging/Slog/Levels.antt =====
-- The levels of slog among those of logrus.
use mcp_searxng.Prelude.{ℕ, ◌≤◌, ◌≡◌, Bool, true, arith}
use mcp_searxng.Prelude.Int.{ℤ, ltb_ℤ, ◌≤ℤ◌}
use mcp_searxng.Log
use mcp_searxng.Log.{Level}
use mcp_searxng.Logging.Slog.{slog_level_to_logrus, enabled}

-- The number of a level in logrus: the more severe, the smaller.
abbrev pub number_of : Level → ℕ
number_of Log.panic = 0
number_of Log.fatal = 1
number_of Log.error = 2
number_of Log.warn = 3
number_of Log.info = 4
number_of Log.debug = 5
number_of Log.trace = 6

-- A more severe slog level is not made less severe.
number_of-slog_level_to_logrus :
    (a b : ℤ) → a ≤ℤ b → number_of (slog_level_to_logrus b) ≤ number_of (slog_level_to_logrus a)
unfolding slog_level_to_logrus ltb_ℤ
number_of-slog_level_to_logrus a b h = ground arith

-- For a logger that enables a level whenever it enables a less severe one: where a slog level is
-- enabled, every more severe one is.
pub enabled_mono :
    (is_level_enabled : Level → Bool)
    → ((l m : Level)
        → number_of m ≤ number_of l
        → is_level_enabled l ≡ true
        → is_level_enabled m ≡ true)
    → (a b : ℤ) → a ≤ℤ b
    → enabled is_level_enabled a ≡ true
    → enabled is_level_enabled b ≡ true
unfolding enabled
enabled_mono is_level_enabled downward a b h e =
    downward (slog_level_to_logrus a) (slog_level_to_logrus b)
      (number_of-slog_level_to_logrus a b h) e
