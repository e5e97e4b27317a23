-- ===== src/Handlers/Tools/Errors.antt =====
-- The branches of a tool call: what the client is told, what is logged, and what SearXNG is asked.
use mcp_searxng.Prelude.{
  ◌≤◌, ◌<◌, ◌≡◌, ◌≢◌, ◌⊎◌, inl, inr, [], ◌++◌, none, some, arith, Result, ok, err, length, ltb,
  Bool-cases, Result-cases,
}
use mcp_searxng.Prelude.Int.{ℤ, pos, ltb_ℤ, leb_ℤ, ◌≤ℤ◌}
use mcp_searxng.Text.{Str, str, str_eq, str_eq_iff}
use mcp_searxng.Errors.{
  GoError, Sentinel, api_client, sentinel, wrap, error_text, fail, search_failed, query_too_long,
  page_too_large, invalid_query,
}
use mcp_searxng.Packages.{Url, Clock}
use mcp_searxng.Context.{Context}
use mcp_searxng.Log.{log_error}
use mcp_searxng.Domain.{SearchParams, SearchResponse}
use mcp_searxng.Service
use mcp_searxng.Service.{SearchService}
use mcp_searxng.Handlers.Sanitize.{sanitize_log}
use mcp_searxng.Handlers.Tools.Types.{SearchOutput}
use mcp_searxng.Handlers.Tools.Output.{build_output}
use mcp_searxng.Handlers.Tools.Calls.{
  validate_query, validate_page, page_or_first, ToolState, search_helper, reject, conclude,
  tool_call, ToolInput, handle, tool_name, tool_params, tool_max, max_query_length, max_page_number,
  handle-tool_call,
}

-- A query and a page that the handlers accept.
abbrev pub IsAccepted : SearchParams → Type 0
IsAccepted p =
    (p.query ≢ []) × (length p.query ≤ max_query_length) × (p.page ≤ℤ pos max_page_number)

validate_query-cases :
    (q : Str)
    → ((q ≡ []) × (validate_query q ≡ some (sentinel invalid_query)))
      ⊎ (((q ≢ [])
            × (max_query_length < length q)
            × (validate_query q ≡ some (sentinel query_too_long)))
          ⊎ ((q ≢ []) × (length q ≤ max_query_length) × (validate_query q ≡ none)))
unfolding validate_query
validate_query-cases q = elim (Bool-cases (str_eq q [])) [
  | inl empty ↦ inl ((str_eq_iff q []).0 empty, rw empty)
  | inr given ↦
      let nonempty : q ≢ [] = λ e. ground (arith, (str_eq_iff q []).1 e) in
      elim (Bool-cases (ltb max_query_length (length q))) [
        | inl long ↦ inr (inl (nonempty, ground arith, rw (given, long)))
        | inr short ↦ inr (inr (nonempty, ground arith, rw (given, short)))
      ]
]

validate_page-cases :
    (n : ℤ)
    → ((¬ (n ≤ℤ pos max_page_number)) × (validate_page n ≡ some (sentinel page_too_large)))
      ⊎ ((n ≤ℤ pos max_page_number) × (validate_page n ≡ none))
unfolding validate_page ltb_ℤ
validate_page-cases n = elim (Bool-cases (ltb_ℤ (pos max_page_number) n)) [
  | inl large ↦ inl (ground arith, ground arith)
  | inr small ↦ inr (ground arith, ground arith)
]

-- The page that SearXNG is asked for lies between 1 and 100.
pub page_or_first_bounds :
    (n : ℤ)
    → n ≤ℤ pos max_page_number
    → (pos 1 ≤ℤ page_or_first n) × (page_or_first n ≤ℤ pos max_page_number)
unfolding page_or_first leb_ℤ
page_or_first_bounds n h = ground arith

-- The text of a log line for a failed call.
abbrev pub failure_line : Str → Str → GoError → Str
failure_line name what e = name ++ (what ++ sanitize_log (error_text e))

module _ (U : Url) (T : Clock) {S : Type 0} (svc : SearchService S) (i : ToolInput) (ctx : Context)
    (st : ToolState S) where
  -- The call of the tool.
  abbrev pub called : Result GoError SearchOutput × ToolState S
  called = handle U T svc i ctx st

  -- What the service answers to the tool's search, with the page set.
  abbrev pub answer : Result GoError SearchResponse × S
  answer =
      Service.search svc ctx (record (tool_params i) { page = page_or_first (tool_params i).page })
        st.repo

  -- The input is refused: the error says why, the repository is not asked, and one line is logged.
  abbrev pub Refused : Sentinel → Type 0
  Refused s =
      (called.0 ≡ fail (tool_name i) (sentinel s))
      × (called.1.repo ≡ st.repo)
      × (called.1.log
          ≡ log_error (failure_line (tool_name i) (str " validation: ") (sentinel s)) st.log)

  -- The repository is asked once; its error stays in the log.
  abbrev pub Asked : Type 0
  Asked =
      (called.1.repo ≡ answer.1)
      × (((d : SearchResponse) × (answer.0 ≡ ok d)
            × (called.0 ≡ ok (build_output U T d (tool_max i)))
            × (called.1.log ≡ st.log))
          ⊎ ((e : GoError) × (answer.0 ≡ err e)
              × (called.0 ≡ fail (tool_name i) (sentinel search_failed))
              × (called.1.log ≡ log_error (failure_line (tool_name i) (str ": ") e) st.log)))

  validate_query-Refused :
      (s : Sentinel) → validate_query (tool_params i).query ≡ some (sentinel s) → Refused s
  unfolding tool_call reject
  validate_query-Refused s h =
      rw (handle-tool_call U T svc i ctx st) (ground arith, ground arith, ground arith)

  validate_page-Refused :
      (s : Sentinel)
      → validate_query (tool_params i).query ≡ none
      → validate_page (tool_params i).page ≡ some (sentinel s)
      → Refused s
  unfolding tool_call reject
  validate_page-Refused s h k =
      rw (handle-tool_call U T svc i ctx st) (ground arith, ground arith, ground arith)

  accepted_asked :
      validate_query (tool_params i).query ≡ none
      → validate_page (tool_params i).page ≡ none
      → Asked
  unfolding tool_call conclude search_helper
  accepted_asked h k = rw (handle-tool_call U T svc i ctx st) (elim (Result-cases answer.0) [
    | inl (d, e) ↦ (ground arith, inl (d, e, ground arith, ground arith))
    | inr (x, e) ↦ (ground arith, inr (x, e, ground arith, ground arith))
  ])

  -- Every call of a tool: an empty query, one of more than 512 bytes or a page above 100 is refused,
  -- the query first, with its own error and without asking SearXNG; any other input is searched for
  -- once, and the call returns the output of the response, or says only that the search failed.
  pub handle_cases :
      ((tool_params i).query ≡ []) × Refused invalid_query
      ⊎ (((tool_params i).query ≢ [])
            × (max_query_length < length (tool_params i).query)
            × Refused query_too_long
          ⊎ (((tool_params i).query ≢ [])
                × (length (tool_params i).query ≤ max_query_length)
                × (¬ ((tool_params i).page ≤ℤ pos max_page_number))
                × Refused page_too_large
              ⊎ IsAccepted (tool_params i) × Asked))
  handle_cases = elim (validate_query-cases (tool_params i).query) [
    | inl (empty, e) ↦ inl (empty, validate_query-Refused invalid_query e)
    | inr (inl (given, long, e)) ↦ inr (inl (given, long, validate_query-Refused query_too_long e))
    | inr (inr (given, short, e)) ↦ elim (validate_page-cases (tool_params i).page) [
      | inl (large, f) ↦
          inr (inr (inl (given, short, large, validate_page-Refused page_too_large e f)))
      | inr (small, f) ↦ inr (inr (inr ((given, short, small), accepted_asked e f)))
    ]
  ]

  -- An error of a tool call is one of four fixed ones behind the tool's name, so its text says
  -- nothing of the upstream error.
  pub public_error :
      (e : GoError)
      → called.0 ≡ err e
      → (s : Sentinel) × (s ≢ api_client) × (e ≡ wrap (tool_name i) (sentinel s))
  public_error e h = elim handle_cases [
    | inl (_, r) ↦ (invalid_query, (λ x. cc), cc (r.0))
    | inr (inl (_, _, r)) ↦ (query_too_long, (λ x. cc), cc (r.0))
    | inr (inr (inl (_, _, _, r))) ↦ (page_too_large, (λ x. cc), cc (r.0))
    | inr (inr (inr (_, (_, inl (d, _, r, _))))) ↦ absurd (cc r)
    | inr (inr (inr (_, (_, inr (x, _, r, _))))) ↦ (search_failed, (λ x. cc), cc r)
  ]
