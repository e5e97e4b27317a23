-- ===== src/Packages.antt =====
-- The packages of Go's library that the program calls and that are not modelled: net/url and the
-- parsing and formatting of time. Their functions are parameters. And io's streams.
use mcp_searxng.Prelude.{Bool, Option, none, some, Result, ok, err}
use mcp_searxng.Text.{Str}
use mcp_searxng.Errors.{GoError}

-- url.Parse and what the program reads of a *url.URL; an error is `none`.
pub record Url : Type 1 where
  pub Parsed : Type 0
  pub parse : Str → Option Parsed
  -- The error, of a text that does not parse.
  pub parse_error : Str → GoError
  pub scheme : Parsed → Str
  pub host : Parsed → Str
  -- `User` is not nil.
  pub has_user : Parsed → Bool
  -- The URL with `User` set to nil.
  pub drop_user : Parsed → Parsed
  pub to_string : Parsed → Str

-- time.Parse and Time.Format, of a layout and a text.
pub record Clock : Type 1 where
  pub Time : Type 0
  pub parse : Str → Str → Option Time
  pub format : Str → Time → Str

-- A body as a stream: the bytes that it delivers, then its end or an error.
pub record Body : Type 0 where
  pub bytes : Str
  pub fault : Option GoError

-- io.ReadAll
abbrev pub read_all : Body → Result GoError Str
read_all body = elim body.fault [ none ↦ ok body.bytes | some e ↦ err e ]

-- strings.ToLower, and the quoting of fmt's %q.
pub record Letters : Type 0 where
  pub to_lower : Str → Str
  pub quote : Str → Str
