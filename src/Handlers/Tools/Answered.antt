-- ===== src/Handlers/Tools/Answered.antt =====
-- A tool call that SearXNG answers well.
use mcp_searxng.Prelude.{
  ℕ, false, map_err, ◌<◌, ◌≡◌, refl, sym, ap, ◌∙◌, inl, inr, none, map, ok, All, length, arith,
}
use mcp_searxng.Prelude.Int.{ℤ, pos, negsuc, ltb_ℤ, leb_ℤ}
use mcp_searxng.Text.{Str, str}
use mcp_searxng.Packages.{Url, Clock, Body}
use mcp_searxng.Context.{Context}
use mcp_searxng.Domain.{SearchParams, SearchResponse}
use mcp_searxng.Errors.{wrap}
use mcp_searxng.Service
use mcp_searxng.Service.{new_search_service}
use mcp_searxng.Searxng.Wire.{RawSearchResponse, response_to_domain}
use mcp_searxng.Searxng.Client.{
  max_response_body_size, Response, answered, Client, ClientState, read_limited, read_reply,
  do_request, parse_body, search, client_repository,
}
use mcp_searxng.Searxng.Client.Laws.{IsSuccess, search_request}
use mcp_searxng.Handlers.Tools.Types.{SearchOutput}
use mcp_searxng.Handlers.Tools.Output.{build_output}
use mcp_searxng.Handlers.Tools.Calls.{ToolInput, ToolState, tool_params, tool_max, page_or_first}
use mcp_searxng.Handlers.Tools.Errors.{IsAccepted, called, handle_cases}
use mcp_searxng.Handlers.Tools.Fidelity.{IsCleanResult, verbatim, first, results_verbatim}

-- An answer of success whose body is whole, below the limit of 10 MB.
abbrev pub IsWhole : Response → Type 0
IsWhole r =
    IsSuccess r.status × (r.body.fault ≡ none) × (length r.body.bytes < max_response_body_size)

read_limited_whole :
    (limit : ℕ) (b : Body)
    → b.fault ≡ none
    → length b.bytes < limit
    → read_limited limit b ≡ ok b.bytes
unfolding read_limited
read_limited_whole limit b whole small = ground (arith, whole, small)

in_range : (n : ℤ) → IsSuccess n → (ltb_ℤ n (pos 200) ≡ false) × (leb_ℤ (pos 300) n ≡ false)
unfolding ltb_ℤ leb_ℤ
in_range (pos n) (low, high) = (ground (arith, low, high), ground (arith, low, high))
in_range (negsuc n) (low, high) = (ground (arith, low, high), ground (arith, low, high))

module _ {N : Type 0} (c : Client N) where
  read_reply_whole : (r : Response) → IsWhole r → read_reply c (answered r) ≡ ok r.body.bytes
  unfolding read_reply
  read_reply_whole r (success, whole, small) =
      let (above, below) = in_range r.status success in
      rw (read_reply, read_limited_whole max_response_body_size r.body whole small, above, below)
        refl

  search_whole :
      (ctx : Context) (p : SearchParams) (st : ClientState N) (url : Str) (r : Response)
      (raw : RawSearchResponse)
      → c.http.join_path c.base_url (str "/search") ≡ ok url
      → (c.http.get (search_request ctx p url) st.net).0.0 ≡ answered r
      → IsWhole r
      → c.json.unmarshal_response r.body.bytes ≡ ok raw
      → (search c ctx p st).0 ≡ ok (response_to_domain c.json raw)
  unfolding search do_request parse_body
  search_whole ctx p st url r raw joined replied whole decoded =
      rw (search, do_request, joined, replied, read_reply_whole r whole, parse_body, decoded) refl

module _ {N : Type 0} (U : Url) (T : Clock) (c : Client N) (i : ToolInput) (ctx : Context)
    (st : ToolState (ClientState N)) where
  -- The search that the call makes.
  abbrev pub wanted : SearchParams
  wanted = record (tool_params i) { page = page_or_first (tool_params i).page }

  -- A call with a query of 1 to 512 bytes and a page of at most 100, whose URL can be joined, and
  -- which SearXNG answers with a status of success, a whole body below 10 MB, and JSON of results with
  -- clean texts and web links, succeeds: its results are the first of these, up to the maximum, in
  -- order, each with its fields as they came over the wire and with its date formatted.
  pub call_verbatim :
      (url : Str) (r : Response) (raw : RawSearchResponse)
      → IsAccepted (tool_params i)
      → c.http.join_path c.base_url (str "/search") ≡ ok url
      → (c.http.get (search_request ctx wanted url) st.repo.net).0.0 ≡ answered r
      → IsWhole r
      → c.json.unmarshal_response r.body.bytes ≡ ok raw
      → All (IsCleanResult U) raw.results
      → (output : SearchOutput) × ((called U T
            (new_search_service (client_repository c))
            i
            ctx
            st).0
          ≡ ok output)
        × (output.results ≡ map (verbatim T) (first (tool_max i) raw.results))
  unfolding Service.search
  call_verbatim url r raw (given, short, small) joined replied whole decoded clean =
      let found = search_whole c ctx wanted st.repo url r raw joined replied whole decoded in
      let d = response_to_domain c.json raw in
      let won = ap (map_err (wrap (str "search"))) found in
      elim (handle_cases U T (new_search_service (client_repository c)) i ctx st) [
        | inl (empty, _) ↦ absurd (given empty)
        | inr (inl (_, long, _)) ↦ absurd (omega (arith, long, short))
        | inr (inr (inl (_, _, large, _))) ↦ absurd (large small)
        | inr (inr (inr (_, (_, inl (e, h, result, _))))) ↦
            let same : e ≡ d = cc (sym h ∙ won) in
            (
              build_output U T d (tool_max i),
              result ∙ ap (λ (x : SearchResponse). ok (build_output U T x (tool_max i))) same,
              results_verbatim U T c.json raw (tool_max i) clean,
            )
        | inr (inr (inr (_, (_, inr (e, h, _, _))))) ↦ absurd (cc (sym h ∙ won))
      ]
