-- ===== src/Tests/Texts.antt =====
-- Sanitizing, client addresses and request ids.
use mcp_searxng.Prelude.{[], ◌∷◌, none}
use mcp_searxng.Text.{Str, str}
use mcp_searxng.Text.Utf8.{runes}
use mcp_searxng.Text.Utf8.Mapping.{Kept}
use mcp_searxng.Context.{background}
use mcp_searxng.Handlers.Sanitize.{sanitize_log}
use mcp_searxng.Handlers.Sanitize.Exact.{IsLogSafe, sanitize_log-Kept}
use mcp_searxng.Handlers.ClientIp.{Request}

-- A line break, an escape sequence and a right-to-left override among letters.
abbrev hostile : Str
hostile = b'a' ∷ 10 ∷ 0x1b ∷ b'b' ∷ 0xe2 ∷ 0x80 ∷ 0xae ∷ b'c' ∷ []

sanitize_log-Kept_example : Kept IsLogSafe (runes hostile) (runes (sanitize_log hostile))
sanitize_log-Kept_example = sanitize_log-Kept hostile

-- A request through two proxies.
abbrev proxied : Request
proxied = record {
  method = str "POST";
  path = str "/mcp";
  header = (str "X-Forwarded-For", str "10.0.0.7, 10.0.0.1") ∷ [];
  remote_addr = str "10.0.0.1:80";
  context = background;
  body = record { bytes = []; fault = none };
}
