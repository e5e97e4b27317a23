-- ===== src/Tests/Upstream.antt =====
-- Searches against the sample network.
use mcp_searxng.Prelude.{
  ℕ, ◌+◌, ◌≤◌, ◌≡◌, ◌↔◌, refl, true, false, [], ◌∷◌, none, some, arith, ok, err, length, take, All,
  ◌++◌,
}
use mcp_searxng.Prelude.Int.{pos, leb_ℤ, ltb_ℤ}
use mcp_searxng.Text.{Str, str, str_eq}
use mcp_searxng.Text.Decimal.{itoa}
use mcp_searxng.Errors.{GoError, sentinel, wrap, api_client, is_error}
use mcp_searxng.Context.{background}
use mcp_searxng.Domain.{SearchParams}
use mcp_searxng.Searxng.Wire.{RawSearchResponse, response_to_domain}
use mcp_searxng.Searxng.Query.{build_search_query}
use mcp_searxng.Searxng.Query.RoundTrip.{read_params, as_sent, read_params-build_search_query}
use mcp_searxng.Searxng.Client.{
  answered, Reply, Response, ClientState, UpstreamMetrics, search, do_request, read_reply,
  read_limited, parse_body, max_response_body_size, max_error_detail_size, extract_error_detail,
}
use mcp_searxng.Searxng.Client.Laws.{IsSuccess, search_request, search-ok}
use mcp_searxng.Searxng.Client.Failures.{
  HasForeignErrors, IsRefused, api_error_iff, IsInLine, Begins, error_detail_bounded,
}
use mcp_searxng.Searxng.Client.Metrics.{IsCounted, search_counts}
use mcp_searxng.Tests.Samples.{sample_json, sample_response, steady_client}

abbrev news : SearchParams
news = record {
  query = str "go news";
  categories = str "news" ∷ str "it" ∷ [];
  language = str "en";
  page = pos 12;
  time_range = str "day";
  safe_search = pos 0;
}

abbrev start : ClientState ℕ
start = record { metrics = some (record { requests_total = []; duration = [] }); net = 0 }

abbrev reply_with : ℕ → Str → Reply
reply_with status bytes =
    answered (record { status = pos status; body = record { bytes = bytes; fault = none } })

read_params-build_search_query_example : read_params (build_search_query news) ≡ as_sent news
read_params-build_search_query_example = read_params-build_search_query news

good_search :
    (search (steady_client (reply_with 200 (str "{}"))) background news start).0
    ≡ ok (response_to_domain sample_json sample_response)
unfolding search do_request read_reply read_limited parse_body ltb_ℤ leb_ℤ
good_search = refl

search-ok_example :
    (url : Str) × (r : Response) × (s : Str) × (raw : RawSearchResponse) × ((steady_client
          (reply_with 200 (str "{}"))).http.join_path
        (str "http://searxng")
        (str "/search")
      ≡ ok url)
    × (((steady_client (reply_with 200 (str "{}"))).http.get
          (search_request background news url)
          0).0.0
        ≡ answered r)
    × IsSuccess r.status
    × (s ≡ take max_response_body_size r.body.bytes)
    × (length s ≤ max_response_body_size)
    × (sample_json.unmarshal_response s ≡ ok raw)
    × (response_to_domain sample_json sample_response ≡ response_to_domain sample_json raw)
search-ok_example =
    search-ok (steady_client (reply_with 200 (str "{}"))) background news start
      (response_to_domain sample_json sample_response) good_search

-- The error of a search that the server refuses.
abbrev not_found : GoError
not_found = wrap (str "API status=404: gone") (sentinel api_client)

refused_search :
    (search (steady_client (reply_with 404 (str "gone"))) background news start).0 ≡ err not_found
unfolding search do_request read_reply read_limited parse_body ltb_ℤ leb_ℤ extract_error_detail
    str_eq itoa
refused_search = refl

steady-HasForeignErrors : HasForeignErrors (steady_client (reply_with 404 (str "gone")))
unfolding is_error
steady-HasForeignErrors = record {
  joining = λ path e h. absurd (cc h);
  sending = λ request net status e h. absurd (cc h);
  reading = λ request net r e got h. ground arith;
  decoding = λ s e h. decoded s e h;
}
  where
    decoded :
        (s : Str) (e : GoError)
        → sample_json.unmarshal_response s ≡ err e
        → is_error e api_client ≡ false
    decoded [] e h = ground arith
    decoded (c ∷ s) e h = absurd (cc h)

api_error_iff_example :
    (is_error not_found api_client ≡ true)
    ↔ IsRefused (steady_client (reply_with 404 (str "gone"))) background news start
api_error_iff_example =
    api_error_iff (steady_client (reply_with 404 (str "gone"))) steady-HasForeignErrors background
      news start not_found refused_search

-- A body of two lines, of which the first is the detail.
abbrev two_lines : Str
two_lines = b'n' ∷ b'o' ∷ 10 ∷ b'x' ∷ []

search_counts_example :
    (m' : UpstreamMetrics) × ((search
        (steady_client (reply_with 404 (str "gone")))
        background
        news
        start).1.metrics
      ≡ some m')
    × IsCounted m'
    × (length m'.requests_total ≡ 0 + 1)
search_counts_example =
    search_counts (steady_client (reply_with 404 (str "gone"))) background news start
      (record { requests_total = []; duration = [] }) refl (record { paired = refl; labelled = tt })

abbrev broken_page : Str
broken_page = str "bad gateway" ++ 10 ∷ str "<html>"

error_detail_bounded_example :
    All IsInLine
      (extract_error_detail (steady_client (reply_with 502 broken_page)) broken_page (pos 502))
    × (length
          (extract_error_detail (steady_client (reply_with 502 broken_page)) broken_page (pos 502))
        ≤ max_error_detail_size)
    × Begins
        (extract_error_detail (steady_client (reply_with 502 broken_page)) broken_page (pos 502))
        broken_page
error_detail_bounded_example =
    error_detail_bounded (steady_client (reply_with 502 broken_page)) broken_page (pos 502)
      (λ e. cc e) refl refl
