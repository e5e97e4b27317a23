-- ===== src/Searxng/Client/Laws.antt =====
-- What a search against SearXNG returns, and what it leaves in the metrics.
use mcp_searxng.Prelude.{
  ℕ, ◌≤◌, ◌≡◌, refl, inl, inr, Bool, false, ◌||◌, some, Result, ok, err, arith, length, take,
  length-take, take_all, Bool-cases, Result-cases,
}
use mcp_searxng.Prelude.Int.{ℤ, pos, negsuc, ltb_ℤ, leb_ℤ, ◌≤ℤ◌}
use mcp_searxng.Text.{Str, str}
use mcp_searxng.Errors.{GoError}
use mcp_searxng.Packages.{Body}
use mcp_searxng.Context.{Context, request_id_from}
use mcp_searxng.Domain.{SearchParams, SearchResponse}
use mcp_searxng.Searxng.Wire.{RawSearchResponse, response_to_domain}
use mcp_searxng.Searxng.Query.{build_search_query}
use mcp_searxng.Searxng.Client.{
  max_response_body_size, Response, Reply, answered, failed, HttpRequest, headers_for, read_limited,
  Client, ClientState, read_reply, do_request, parse_body, search,
}

-- A status of success.
abbrev pub IsSuccess : ℤ → Type 0
IsSuccess status = (pos 200 ≤ℤ status) × (status ≤ℤ pos 299)

read_limited-ok :
    (limit : ℕ) (b : Body) (s : Str)
    → read_limited limit b ≡ ok s
    → (s ≡ take limit b.bytes) × (length s ≤ limit)
unfolding read_limited
read_limited-ok limit b s h = ground (arith, take_all limit b.bytes, length-take limit b.bytes)

-- The test of doRequest on the status.
abbrev pub out_of_range : ℤ → Bool
out_of_range status = ltb_ℤ status (pos 200) || leb_ℤ (pos 300) status

out_of_range-IsSuccess : (n : ℤ) → out_of_range n ≡ false → IsSuccess n
unfolding ltb_ℤ leb_ℤ
out_of_range-IsSuccess (pos n) h = ground arith
out_of_range-IsSuccess (negsuc n) h = ground arith

-- The request of a search: the query, and the id of the context if it carries one.
abbrev pub search_request : Context → SearchParams → Str → HttpRequest
search_request ctx params url = record {
  url = url;
  headers = headers_for (request_id_from ctx);
  query = some (build_search_query params);
}

module _ {N : Type 0} (c : Client N) where
  read_reply-ok :
      (reply : Reply) (s : Str)
      → read_reply c reply ≡ ok s
      → (r : Response) × (reply ≡ answered r)
        × IsSuccess r.status
        × (s ≡ take max_response_body_size r.body.bytes)
        × (length s ≤ max_response_body_size)
  unfolding read_reply
  read_reply-ok (failed status e) s h = cc
  read_reply-ok (answered r) s h =
      elim (Result-cases (read_limited max_response_body_size r.body)) [
        | inr (x, e) ↦ absurd (ground arith)
        | inl (body, e) ↦ elim (Bool-cases (out_of_range r.status)) [
          | inl out ↦ absurd (ground arith)
          | inr good ↦
              let same : body ≡ s = ground arith in
              let (prefix, bounded) =
                read_limited-ok max_response_body_size r.body s (rw (← same) e) in
              (r, refl, out_of_range-IsSuccess r.status good, prefix, bounded)
        ]
      ]

  parse_body-ok :
      (body : Result GoError Str) (d : SearchResponse)
      → parse_body c body ≡ ok d
      → (s : Str) × (raw : RawSearchResponse) × (body ≡ ok s)
        × (c.json.unmarshal_response s ≡ ok raw)
        × (d ≡ response_to_domain c.json raw)
  unfolding parse_body
  parse_body-ok (err e) d h = cc
  parse_body-ok (ok s) d h = elim (Result-cases (c.json.unmarshal_response s)) [
    | inl (raw, e) ↦ (s, raw, refl, e, ground arith)
    | inr (x, e) ↦ absurd (ground arith)
  ]

  -- A search that returns a response has asked the server once, at the joined URL, got an answer with
  -- a status from 200 to 299, read at most 10 MB of its body and decoded what it read.
  pub search-ok :
      (ctx : Context) (params : SearchParams) (st : ClientState N) (d : SearchResponse)
      → (search c ctx params st).0 ≡ ok d
      → (url : Str) × (r : Response) × (s : Str) × (raw : RawSearchResponse) × (c.http.join_path
            c.base_url
            (str "/search")
          ≡ ok url)
        × ((c.http.get (search_request ctx params url) st.net).0.0 ≡ answered r)
        × IsSuccess r.status
        × (s ≡ take max_response_body_size r.body.bytes)
        × (length s ≤ max_response_body_size)
        × (c.json.unmarshal_response s ≡ ok raw)
        × (d ≡ response_to_domain c.json raw)
  unfolding search do_request
  search-ok ctx params st d h = elim (Result-cases (c.http.join_path c.base_url (str "/search"))) [
    | inl (url, e) ↦
        let reply = (c.http.get (search_request ctx params url) st.net).0.0 in
        let (s, raw, body, decoded, same) = parse_body-ok (read_reply c reply) d (ground arith) in
        let (r, got, success, prefix, bounded) = read_reply-ok reply s body in
        (url, r, s, raw, e, got, success, prefix, bounded, decoded, same)
    | inr (x, e) ↦ absurd (ground (arith))
  ]
