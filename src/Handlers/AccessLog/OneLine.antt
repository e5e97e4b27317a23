-- ===== src/Handlers/AccessLog/OneLine.antt =====
-- The texts of an access log line, and what could break the line.
use mcp_searxng.Prelude.{
  ℕ, zero, suc, ◌≤◌, ◌<◌, ◌≡◌, ◌≢◌, ◌⊎◌, List, [], ◌∷◌, Option, Result, ok, err, arith, All,
  All-append, All-take, take, length, ltb, inl, inr, Bool-cases, Option-cases,
}
use mcp_searxng.Text.{Str, str}
use mcp_searxng.Text.Utf8.Ascii.{All-runes_ascii}
use mcp_searxng.Errors.{GoError, error_text}
use mcp_searxng.Packages.{Url}
use mcp_searxng.Context.{new_request_id}
use mcp_searxng.Context.Laws.{IsHex, IsByte, new_request_id-IsHex}
use mcp_searxng.Log.{Value, text}
use mcp_searxng.Handlers.Sanitize.{sanitize_log}
use mcp_searxng.Handlers.Sanitize.Exact.{IsLogSafe, sanitize_log-IsLogSafe}
use mcp_searxng.Handlers.Redact.{FieldValue, redact_struct, redact_from, redact_url}
use mcp_searxng.Handlers.AccessLog.{access_log_max_args, redact_args, outcome_fields, access_fields}
use mcp_searxng.Handlers.Tools.Types.{SearchOutput}

-- A byte that is no control character of ASCII but the tab.
abbrev pub IsInline : ℕ → Type 0
IsInline b = (b ≡ 9) ⊎ ((0x20 ≤ b) × (b ≢ 0x7f))

IsInline-of_ascii : (b : ℕ) → (b < 0x80 → IsLogSafe b) → IsInline b
IsInline-of_ascii b h = ground arith

All-IsInline : (s : Str) → All (λ b. b < 0x80 → IsLogSafe b) s → All IsInline s
All-IsInline [] h = tt
All-IsInline (b ∷ s) (first, h) = (IsInline-of_ascii b first, All-IsInline s h)

pub sanitize_log-IsInline : (s : Str) → All IsInline (sanitize_log s)
sanitize_log-IsInline s =
    All-IsInline (sanitize_log s)
      (All-runes_ascii IsLogSafe (sanitize_log s) (sanitize_log-IsLogSafe s))

module _ (P : ℕ → Type 0) where
  All-redact_from : (keep skip : ℕ) (s : Str) → All P s → All P (redact_from keep skip s)
  unfolding redact_from
  All-redact_from keep skip [] h = tt
  All-redact_from (suc keep) skip (c ∷ s) (first, h) = (first, All-redact_from keep skip s h)
  All-redact_from zero (suc skip) (c ∷ s) (first, h) = All-redact_from zero skip s h
  All-redact_from zero zero (c ∷ s) (first, h) = (first, All-redact_from _ _ s h)

redact_args-IsInline :
    (U : Url) (marshal : FieldValue → Option Str) (input : FieldValue)
    → All IsInline (redact_args U marshal input)
unfolding redact_args redact_url
redact_args-IsInline U marshal input = elim (Option-cases (marshal (redact_struct U input))) [
  | inl e ↦ rw (redact_args, e) (ground arith)
  | inr (b, e) ↦
      let s = redact_from 0 0 (sanitize_log b) in
      let safe = All-redact_from IsInline 0 0 (sanitize_log b) (sanitize_log-IsInline b) in
      elim (Bool-cases (ltb access_log_max_args (length s))) [
        | inl long ↦
            rw (redact_args, e, long)
              (All-append IsInline (take access_log_max_args s) (str "...")
                (All-take IsInline access_log_max_args s safe) (ground arith))
        | inr short ↦ rw (redact_args, e, short) safe
      ]
]

-- The texts of fields, but for the times and numbers.
abbrev pub IsInlineValue : Value → Type 0
IsInlineValue (text s) = All IsInline s
IsInlineValue _ = Unit

abbrev pub HasInlineFields : List (Str × Value) → Type 0
HasInlineFields fields = All (λ (f : Str × Value). IsInlineValue f.1) fields

new_request_id-IsInline : (bs : List ℕ) → All IsByte bs → All IsInline (new_request_id bs)
new_request_id-IsInline bs h = hex_inline (new_request_id bs) (new_request_id-IsHex bs h).0
  where
    hex_inline : (s : Str) → All IsHex s → All IsInline s
    hex_inline [] k = tt
    hex_inline (c ∷ s) (first, k) = (ground (arith, first), hex_inline s k)

outcome_fields-inline : (r : Result GoError SearchOutput) → HasInlineFields (outcome_fields r)
unfolding outcome_fields
outcome_fields-inline (ok output) = (ground arith, tt)
outcome_fields-inline (err e) = (ground arith, (sanitize_log-IsInline (error_text e), tt))

-- The texts of an access log line have no control characters but tabs, if its name and its source
-- have none, whatever the arguments and the error of the call are.
pub access_fields-inline :
    (U : Url) (marshal : FieldValue → Option Str) (input : FieldValue) (name source : Str)
    (random : List ℕ) (took : ℕ) (r : Result GoError SearchOutput)
    → All IsInline name
    → All IsInline source
    → All IsByte random
    → HasInlineFields
        (access_fields name (redact_args U marshal input) source (new_request_id random) took r)
unfolding access_fields
access_fields-inline U marshal input name source random took r named sourced bytes = (
  named,
  (
    redact_args-IsInline U marshal input,
    (sourced, (new_request_id-IsInline random bytes, (tt, outcome_fields-inline r))),
  ),
)
