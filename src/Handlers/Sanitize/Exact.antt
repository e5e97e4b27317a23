-- ===== src/Handlers/Sanitize/Exact.antt =====
-- What the two sanitizers keep of a string, and what they remove.
use mcp_searxng.Prelude.{ℕ, ◌≤◌, ◌<◌, ◌≡◌, ◌≢◌, ◌⊎◌, inl, inr, List, none, some, arith, All}
use mcp_searxng.Text.{Str}
use mcp_searxng.Text.Utf8.{runes, encode}
use mcp_searxng.Text.Utf8.RoundTrip.{IsScalar}
use mcp_searxng.Text.Utf8.Mapping.{
  Kept, Selects, Kept-All, map_string-Kept, map_string_idem, map_string_of_All,
}
use mcp_searxng.Handlers.Sanitize.{log_rune, output_rune, sanitize_log, sanitize_output}

abbrev Outside : ℕ → ℕ → ℕ → Type 0
Outside lo hi r = (r < lo) ⊎ (hi < r)

-- No control character of ASCII, and none of the bidirectional formatting characters of Unicode.
abbrev pub IsPlain : ℕ → Type 0
IsPlain r =
    (0x20 ≤ r)
    × (r ≢ 0x7f)
    × Outside 0x200e 0x200f r
    × Outside 0x202a 0x202e r
    × Outside 0x2066 0x2069 r

-- What a log line may hold: plain runes and tabs.
abbrev pub IsLogSafe : ℕ → Type 0
IsLogSafe r = (r ≡ 9) ⊎ IsPlain r

-- What an output text may hold: plain runes, tabs and line breaks.
abbrev pub IsOutputSafe : ℕ → Type 0
IsOutputSafe r = (r ≡ 9) ⊎ ((r ≡ 10) ⊎ ((r ≡ 13) ⊎ IsPlain r))

log_rune-kept : (r : ℕ) → IsLogSafe r → log_rune r ≡ some r
unfolding log_rune
log_rune-kept r h = ground arith

log_rune-cases : (r : ℕ) → (log_rune r ≡ some r) ⊎ (log_rune r ≡ none)
unfolding log_rune
log_rune-cases r = ground arith

log_rune-IsLogSafe : (r : ℕ) → log_rune r ≡ some r → IsLogSafe r
unfolding log_rune
log_rune-IsLogSafe r h = ground arith

log_rune-Selects : Selects log_rune IsLogSafe
log_rune-Selects r = elim (log_rune-cases r) [
  | inl e ↦ inl (e, log_rune-IsLogSafe r e)
  | inr e ↦ inr (e, λ p. cc (log_rune-kept r p))
]

output_rune-kept : (r : ℕ) → IsOutputSafe r → output_rune r ≡ some r
unfolding output_rune
output_rune-kept r h = ground arith

output_rune-cases : (r : ℕ) → (output_rune r ≡ some r) ⊎ (output_rune r ≡ none)
unfolding output_rune
output_rune-cases r = ground arith

output_rune-IsOutputSafe : (r : ℕ) → output_rune r ≡ some r → IsOutputSafe r
unfolding output_rune
output_rune-IsOutputSafe r h = ground arith

output_rune-Selects : Selects output_rune IsOutputSafe
output_rune-Selects r = elim (output_rune-cases r) [
  | inl e ↦ inl (e, output_rune-IsOutputSafe r e)
  | inr e ↦ inr (e, λ p. cc (output_rune-kept r p))
]

-- SanitizeLog keeps the plain runes and the tabs of a text, in order, and nothing else; where the
-- bytes are no UTF-8, the runes of the text are utf8.RuneError.
pub sanitize_log-Kept : (s : Str) → Kept IsLogSafe (runes s) (runes (sanitize_log s))
unfolding sanitize_log
sanitize_log-Kept s = map_string-Kept log_rune log_rune-Selects s

pub sanitize_log-IsLogSafe : (s : Str) → All IsLogSafe (runes (sanitize_log s))
sanitize_log-IsLogSafe s = Kept-All (sanitize_log-Kept s)

-- sanitizeOutput keeps the plain runes, the tabs and the line breaks of a text, in order, and nothing
-- else.
pub sanitize_output-Kept : (s : Str) → Kept IsOutputSafe (runes s) (runes (sanitize_output s))
unfolding sanitize_output
sanitize_output-Kept s = map_string-Kept output_rune output_rune-Selects s

pub sanitize_output-IsOutputSafe : (s : Str) → All IsOutputSafe (runes (sanitize_output s))
sanitize_output-IsOutputSafe s = Kept-All (sanitize_output-Kept s)

-- Sanitizing a text for the log or for the output a second time changes nothing.
pub sanitize_idempotent :
    (s : Str)
    → (sanitize_log (sanitize_log s) ≡ sanitize_log s)
      × (sanitize_output (sanitize_output s) ≡ sanitize_output s)
unfolding sanitize_log sanitize_output
sanitize_idempotent s =
    (map_string_idem log_rune log_rune-Selects s, map_string_idem output_rune output_rune-Selects s)

-- Well-formed UTF-8 text whose runes are all allowed is left as it is.
pub sanitize_output_clean :
    (rs : List ℕ) → All IsScalar rs → All IsOutputSafe rs → sanitize_output (encode rs) ≡ encode rs
unfolding sanitize_output
sanitize_output_clean = map_string_of_All output_rune output_rune-Selects
