-- ===== src/Handlers/Tools/Results.antt =====
-- What a tool call returns, logs and asks for, over all five tools.
use mcp_searxng.Prelude.{
  ℕ, ◌≤◌, ◌<◌, ◌≡◌, refl, sym, subst, inl, inr, [], ◌∷◌, ◌++◌, Option, none, some, arith, ok, All,
  All-append, length, Result, err, map_err,
}
use mcp_searxng.Prelude.Int.{pos, ◌≤ℤ◌}
use mcp_searxng.Text.{Str, str}
use mcp_searxng.Text.Utf8.{runes}
use mcp_searxng.Text.Utf8.RoundTrip.{runes_ascii}
use mcp_searxng.Errors.{
  GoError, error_text, sentinel, query_too_long, page_too_large, invalid_query,
}
use mcp_searxng.Packages.{Url, Clock}
use mcp_searxng.Context.{Context}
use mcp_searxng.Log
use mcp_searxng.Log.{Log, Entry, log_error}
use mcp_searxng.Domain.{SearchParams, SearchResponse}
use mcp_searxng.Service
use mcp_searxng.Service.{SearchService}
use mcp_searxng.Handlers.Sanitize.{sanitize_log}
use mcp_searxng.Handlers.Sanitize.Exact.{IsLogSafe, sanitize_log-IsLogSafe}
use mcp_searxng.Handlers.Tools.Types.{SearchOutput}
use mcp_searxng.Handlers.Tools.Output.{build_output}
use mcp_searxng.Handlers.Tools.Safety.{
  Reparses, IsSafeOutput, build_output-IsSafeOutput, at_most, build_output_counts,
}
use mcp_searxng.Handlers.Tools.Calls.{
  ToolInput, search, search_news, search_images, search_videos, search_music, tool_name,
  tool_params, tool_max, ToolState, page_or_first, max_page_number,
}
use mcp_searxng.Handlers.Tools.Errors.{
  IsAccepted, failure_line, called, handle_cases, page_or_first_bounds,
}

abbrev IsPrintable : ℕ → Type 0
IsPrintable c = (0x20 ≤ c) × (c < 0x7f)

prefix_safe :
    (s t : Str) → All IsPrintable s → All IsLogSafe (runes t) → All IsLogSafe (runes (s ++ t))
prefix_safe [] t h k = k
prefix_safe (c ∷ s) t (h, hs) k =
    rw (runes_ascii c (s ++ t) (omega arith)) (ground arith, prefix_safe s t hs k)

tool_name-IsPrintable : (i : ToolInput) → All IsPrintable (tool_name i)
tool_name-IsPrintable (search input) = omega arith
tool_name-IsPrintable (search_news input) = omega arith
tool_name-IsPrintable (search_images input) = omega arith
tool_name-IsPrintable (search_videos input) = omega arith
tool_name-IsPrintable (search_music input) = omega arith

failure_line-safe :
    (i : ToolInput) (what : Str) (e : GoError)
    → All IsPrintable what
    → All IsLogSafe (runes (failure_line (tool_name i) what e))
failure_line-safe i what e h =
    prefix_safe (tool_name i) (what ++ sanitize_log (error_text e)) (tool_name-IsPrintable i)
      (prefix_safe what (sanitize_log (error_text e)) h (sanitize_log-IsLogSafe (error_text e)))

-- The messages of a log have no control or bidirectional formatting characters.
abbrev pub IsSafeLog : Log → Type 0
IsSafeLog log = All (λ (e : Entry). All IsLogSafe (runes e.message)) log

log_error-IsSafeLog :
    (text : Str) (log : Log)
    → All IsLogSafe (runes text)
    → IsSafeLog log
    → IsSafeLog (log_error text log)
log_error-IsSafeLog text log h k =
    All-append (λ (e : Entry). All IsLogSafe (runes e.message)) log
      (record { level = Log.error; message = text; fields = [] } ∷ []) k (h, tt)

-- A limit that a call may set.
abbrev pub IsWithin : Option ℕ → ℕ → Type 0
IsWithin none n = Unit
IsWithin (some m) n = n ≤ m

at_most-IsWithin : (m : Option ℕ) (n : ℕ) → IsWithin m (at_most m n)
at_most-IsWithin none n = tt
at_most-IsWithin (some m) n = omega arith

map_err-ok : {E A : Type 0} (f : E → E) (r : Result E A) (a : A) → map_err f r ≡ ok a → r ≡ ok a
map_err-ok f (ok b) a h = h
map_err-ok f (err e) a h = absurd (cc h)

module _ (U : Url) (T : Clock) {S : Type 0} (svc : SearchService S) (i : ToolInput) (ctx : Context)
    (st : ToolState S) where
  -- If the messages of the log have no control or bidirectional formatting characters but tabs, they
  -- have none after the call, whatever the query and the upstream error hold.
  pub handle-IsSafeLog : IsSafeLog st.log → IsSafeLog (called U T svc i ctx st).1.log
  handle-IsSafeLog safe = elim (handle_cases U T svc i ctx st) [
    | inl (_, (_, _, e)) ↦ added (str " validation: ") (sentinel invalid_query) (omega arith) e
    | inr (inl (_, _, (_, _, e))) ↦
        added (str " validation: ") (sentinel query_too_long) (omega arith) e
    | inr (inr (inl (_, _, _, (_, _, e)))) ↦
        added (str " validation: ") (sentinel page_too_large) (omega arith) e
    | inr (inr (inr (_, (_, inl (_, _, _, e))))) ↦ subst IsSafeLog (sym e) safe
    | inr (inr (inr (_, (_, inr (x, _, _, e))))) ↦ added (str ": ") x (omega arith) e
  ]
    where
      added :
          (what : Str) (x : GoError)
          → All IsPrintable what
          → (called U T svc i ctx st).1.log ≡ log_error (failure_line (tool_name i) what x) st.log
          → IsSafeLog (called U T svc i ctx st).1.log
      added what x h e = subst IsSafeLog (sym e) (
          log_error-IsSafeLog (failure_line (tool_name i) what x) st.log
            (failure_line-safe i what x h) safe)

  -- The search of a call: the one of its input, with the page that is asked for.
  abbrev pub IsSearch : SearchParams → Type 0
  IsSearch p =
      (p ≡ record (tool_params i) { page = p.page })
      × (pos 1 ≤ℤ p.page)
      × (p.page ≤ℤ pos max_page_number)

  -- A call that returns an output has an accepted input, and the output is that of the repository's
  -- response to the search of the call.
  handle-ok :
      (o : SearchOutput)
      → (called U T svc i ctx st).0 ≡ ok o
      → IsAccepted (tool_params i)
        × ((p : SearchParams) × (d : SearchResponse) × IsSearch p
            × ((svc.repo.search ctx p st.repo).0 ≡ ok d)
            × ((called U T svc i ctx st).1.repo ≡ (svc.repo.search ctx p st.repo).1)
            × (o ≡ build_output U T d (tool_max i)))
  unfolding Service.search
  handle-ok o h = elim (handle_cases U T svc i ctx st) [
    | inl (_, r) ↦ absurd (cc (r.0))
    | inr (inl (_, _, r)) ↦ absurd (cc (r.0))
    | inr (inr (inl (_, _, _, r))) ↦ absurd (cc (r.0))
    | inr (inr (inr (accepted, (asked, inl (d, got, r, _))))) ↦
        let (first, last) = page_or_first_bounds (tool_params i).page accepted.2 in
        (
          accepted,
          (
            record (tool_params i) { page = page_or_first (tool_params i).page },
            d,
            (refl, first, last),
            map_err-ok _ _ d got,
            asked,
            cc r,
          ),
        )
    | inr (inr (inr (_, (_, inr (x, _, r, _))))) ↦ absurd (cc r)
  ]

  -- If URL.String writes a URL that parses again with its scheme: a call that returns an output had
  -- an accepted input, made one search of the repository, that of its input with a page from 1 to 100,
  -- and got a response; the output is within the caller's maximum of results, its texts but for the
  -- dates have no control characters but tabs, line feeds and carriage returns, and no bidirectional
  -- formatting characters, its links are empty or parse as http or https, and its image sources
  -- parse with no scheme or as http, https or data.
  pub handle-IsSafeOutput :
      Reparses U
      → (o : SearchOutput) → (called U T svc i ctx st).0 ≡ ok o
      → IsSafeOutput U o
        × IsWithin (tool_max i) (length o.results)
        × IsAccepted (tool_params i)
        × ((p : SearchParams) × (d : SearchResponse) × IsSearch p
            × ((svc.repo.search ctx p st.repo).0 ≡ ok d)
            × ((called U T svc i ctx st).1.repo ≡ (svc.repo.search ctx p st.repo).1))
  handle-IsSafeOutput again o h =
      let (accepted, (p, d, wanted, got, left, same)) = handle-ok o h in
      let count = (build_output_counts U T d (tool_max i)).0 in
      (
        subst (IsSafeOutput U) (sym same) (build_output-IsSafeOutput U T again d (tool_max i)),
        rw same (rw count (at_most-IsWithin (tool_max i) (length d.results))),
        accepted,
        (p, d, wanted, got, left),
      )
