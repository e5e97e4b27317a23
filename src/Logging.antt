-- ===== src/Logging.antt =====
-- logging/logging.go: the logger that the options of a deployment ask for.
pub mod Laws
pub mod Slog
use mcp_searxng.Prelude.{
  Bool, true, false, ◌||◌, List, ◌++◌, Option, none, some, Result, ok, err, if◌then◌else◌, [],
}
use mcp_searxng.Text.{Str, str, str_eq}
use mcp_searxng.Errors.{GoError, other, fail}
use mcp_searxng.Packages.{Letters}
use mcp_searxng.Log
use mcp_searxng.Log.{Level}

-- logrus.TextFormatter and logrus.JSONFormatter
pub data Formatter : Type 0 where
  text json : Formatter

-- os.Stdout, io.Discard, and a file that is open for appending.
pub data Output : Type 0 where
  stdout discard : Output
  file : Str → Output

pub record Logger : Type 0 where
  pub output : Output
  pub formatter : Formatter
  pub level : Level

pub record Options : Type 0 where
  pub mode : Str
  pub level : Option Str
  pub format : Str
  pub filename : Str

-- The output channel of an enabled logger. `open` is os.OpenFile, which may fail.
unfoldable pub output_channel : (Str → Option GoError) → Options → Result GoError Output
output_channel open_file opts =
    if str_eq opts.filename []
    then if str_eq opts.mode (str "http") then ok stdout else ok discard
    else elim (open_file opts.filename) [
      | some e ↦ fail (str "open log file") e
      | none ↦ ok (file opts.filename)
    ]

abbrev pub is_given : Option Str → Bool
is_given none = false
is_given (some s) = true

module _ (L : Letters) where
  -- The names of the levels, as ParseLevel's switch has them.
  unfoldable pub level_named : Str → Option Level
  level_named s =
      if str_eq s (str "debug")
      then some Log.debug
      else if str_eq s (str "info")
      then some Log.info
      else if str_eq s (str "warn") || str_eq s (str "warning")
      then some Log.warn
      else if str_eq s (str "error")
      then some Log.error
      else if str_eq s (str "fatal")
      then some Log.fatal
      else if str_eq s (str "panic")
      then some Log.panic
      else none

  -- ParseLevel
  unfoldable pub parse_level : Str → Result GoError Level
  parse_level s = elim (level_named (L.to_lower s)) [
    | some level ↦ ok level
    | none ↦ err (
        other (
          str "invalid log level "
          ++ L.quote s
          ++ str " (want debug, info, warn, warning, error, fatal, panic)"))
  ]

  -- ParseFormat
  unfoldable pub parse_format : Str → Result GoError Formatter
  parse_format s =
      let lower = L.to_lower s in
      if str_eq lower (str "text") || str_eq lower []
      then ok text
      else if str_eq lower (str "json")
      then ok json
      else err (other (str "invalid log format " ++ L.quote s ++ str " (want text or json)"))

  -- The level of an enabled logger: the given one, or info.
  unfoldable pub level_or_info : Option Str → Result GoError Level
  unfolding parse_level
  level_or_info none = ok Log.info
  level_or_info (some s) = parse_level s

  -- New
  unfoldable pub new : (Str → Option GoError) → Options → Result GoError Logger
  unfolding parse_format level_or_info output_channel
  new open_file opts = elim (parse_format opts.format) [
    | err e ↦ err e
    | ok formatter ↦
        if str_eq opts.mode (str "http") || is_given opts.level
        then elim (level_or_info opts.level) [
          | err e ↦ err e
          | ok level ↦ elim (output_channel open_file opts) [
            | err e ↦ err e
            | ok output ↦ ok (record { output = output; formatter = formatter; level = level })
          ]
        ]
        else ok (record { output = discard; formatter = text; level = Log.panic })
  ]

  -- NewString
  unfoldable pub new_string : (Str → Option GoError) → Str → Str → Str → Result GoError Logger
  unfolding new
  new_string open_file level format filename =
      new open_file
        (record { mode = str "http"; level = some level; format = format; filename = filename })
