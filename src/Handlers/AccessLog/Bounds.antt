-- ===== src/Handlers/AccessLog/Bounds.antt =====
-- The length of the arguments in an access log line.
use mcp_searxng.Prelude.{
  ◌+◌, ◌≤◌, ◌++◌, Option, arith, ltb, length, length-append, length-take, take, Option-cases,
  Bool-cases, inl, inr, if◌then◌else◌,
}
use mcp_searxng.Text.{Str, str}
use mcp_searxng.Packages.{Url}
use mcp_searxng.Handlers.Sanitize.{sanitize_log}
use mcp_searxng.Handlers.Redact.{FieldValue, redact_struct, redact_url}
use mcp_searxng.Handlers.AccessLog.{access_log_max_args, redact_args}

shortened :
    (s : Str)
    → length
        (if ltb access_log_max_args (length s) then take access_log_max_args s ++ str "..." else s)
      ≤ access_log_max_args + 3
shortened s = elim (Bool-cases (ltb access_log_max_args (length s))) [
  | inl long ↦ rw long (
      omega (
        arith,
        length-append (take access_log_max_args s) (str "..."),
        length-take access_log_max_args s,
      ))
  | inr short ↦ rw short (ground arith)
]

-- The arguments in a line have at most 512 bytes and three dots, however large the input is.
pub redact_args_bounded :
    (U : Url) (marshal : FieldValue → Option Str) (input : FieldValue)
    → length (redact_args U marshal input) ≤ access_log_max_args + 3
unfolding redact_args
redact_args_bounded U marshal input = elim (Option-cases (marshal (redact_struct U input))) [
  | inl e ↦ rw (e, redact_args) (omega arith)
  | inr (b, e) ↦ rw (e, redact_args) (shortened (redact_url (sanitize_log b)))
]
