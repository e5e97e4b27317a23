-- ===== src/Log.antt =====
-- The calls on the logger, a *logrus.Logger: each entry with its level, its message and its fields.
use mcp_searxng.Prelude.{ℕ, Bool, List, [], ◌∷◌, ◌++◌}
use mcp_searxng.Prelude.Int.{ℤ}
use mcp_searxng.Text.{Str}

-- logrus.Level, from the most severe.
pub data Level : Type 0 where
  panic fatal error warn info debug trace : Level

-- The value of a field.
pub data Value : Type 0 where
  text : Str → Value
  number : ℤ → Value
  boolean : Bool → Value
  -- A time.Duration, in nanoseconds.
  duration : ℕ → Value

pub record Entry : Type 0 where
  pub level : Level
  pub message : Str
  pub fields : List (Str × Value)

abbrev pub Log : Type 0
Log = List Entry

-- logger.Errorf, with the text that it formats.
abbrev pub log_error : Str → Log → Log
log_error line log = log ++ record { level = error; message = line; fields = [] } ∷ []

-- logger.WithFields(fields).Log(level, message)
abbrev pub log_fields : Level → Str → List (Str × Value) → Log → Log
log_fields level message fields log =
    log ++ record { level = level; message = message; fields = fields } ∷ []

-- logger.Info and logger.Infof, with the text that is formatted.
abbrev pub log_info : Str → Log → Log
log_info line log = log ++ record { level = info; message = line; fields = [] } ∷ []
