-- ===== src/Handlers/Sanitize.antt =====
-- `SanitizeLog` of handlers/middleware.go and `sanitizeOutput` of handlers/tools.go.
pub mod Exact
use mcp_searxng.Prelude.{
  ℕ, Bool, ◌&&◌, ◌||◌, Option, none, some, map, leb, ltb, ◌==◌, if◌then◌else◌,
}
use mcp_searxng.Text.{Str}
use mcp_searxng.Text.Utf8.{map_string}

-- The mapping of SanitizeLog; a rune that it drops is mapped to -1.
unfoldable pub log_rune : ℕ → Option ℕ
log_rune r =
    if r == 9
    then some r
    else if ltb r 0x20 || r == 0x7f
    then none
    else if leb 0x200e r && leb r 0x200f
    then none
    else if leb 0x202a r && leb r 0x202e
    then none
    else if leb 0x2066 r && leb r 0x2069
    then none
    else some r

-- The mapping of sanitizeOutput.
unfoldable pub output_rune : ℕ → Option ℕ
output_rune r =
    if r == 9 || r == 10 || r == 13
    then some r
    else if ltb r 0x20 || r == 0x7f
    then none
    else if leb 0x200e r && leb r 0x200f
    then none
    else if leb 0x202a r && leb r 0x202e
    then none
    else if leb 0x2066 r && leb r 0x2069
    then none
    else some r

-- SanitizeLog
unfoldable pub sanitize_log : Str → Str
unfolding log_rune map_string
sanitize_log s = map_string log_rune s

-- sanitizeOutput
unfoldable pub sanitize_output : Str → Str
unfolding output_rune map_string
sanitize_output s = map_string output_rune s

-- sanitizeOutputPtr; `none` is nil.
unfoldable pub sanitize_output_ptr : Option Str → Option Str
unfolding sanitize_output
sanitize_output_ptr none = none
sanitize_output_ptr (some s) = some (sanitize_output s)
