-- ===== src/Searxng/Client.antt =====
-- infrastructure/searxng/client.go: one search against SearXNG.
pub mod Laws
pub mod Metrics
pub mod Failures
use mcp_searxng.Prelude.{
  ℕ, ◌≤◌, ◌++◌, Bool, true, false, ◌&&◌, ◌||◌, not, List, [], ◌∷◌, Option, none, some, Result, ok,
  err, ltb, ◌==◌, length, take, if◌then◌else◌,
}
use mcp_searxng.Prelude.Int.{ℤ, pos, ltb_ℤ, leb_ℤ}
use mcp_searxng.Text.{Str, str, str_eq, index_byte}
use mcp_searxng.Text.Decimal.{itoa}
use mcp_searxng.Errors.{GoError, sentinel, wrap, other, api_client, fail}
use mcp_searxng.Packages.{Body, read_all}
use mcp_searxng.Context.{Context, request_id_from}
use mcp_searxng.Domain.{SearchParams, SearchResponse}
use mcp_searxng.Domain.Repository.{SearchRepository}
use mcp_searxng.Searxng.Wire.{Json, response_to_domain}
use mcp_searxng.Searxng.Query.{Values, build_search_query}

-- maxResponseBodySize, maxErrorDetailSize
abbrev pub max_response_body_size : ℕ
max_response_body_size = 10485760

abbrev pub max_error_detail_size : ℕ
max_error_detail_size = 512

-- The calls made on the two Prometheus collectors: a label for each count, and the observed
-- durations.
pub record UpstreamMetrics : Type 0 where
  pub requests_total : List Str
  pub duration : List ℕ

-- UpstreamMetrics.record; `none` is the nil receiver.
unfoldable pub record_request : Str → ℕ → Option UpstreamMetrics → Option UpstreamMetrics
record_request status d none = none
record_request status d (some m) =
    some (record { requests_total = status ∷ m.requests_total; duration = d ∷ m.duration })

-- statusClass
unfoldable pub status_class : ℤ → Str
unfolding ltb_ℤ
status_class code =
    if ltb_ℤ code (pos 300)
    then str "2xx"
    else if ltb_ℤ code (pos 400)
    then str "3xx"
    else if ltb_ℤ code (pos 500)
    then str "4xx"
    else str "5xx"

-- The request handed to resty.
pub record HttpRequest : Type 0 where
  pub url : Str
  pub headers : List (Str × Str)
  pub query : Option Values

pub record Response : Type 0 where
  pub status : ℤ
  pub body : Body

-- What resty's Get returns. With an error there may be a response all the same, of which only the
-- status is read; without one there is a response.
pub data Reply : Type 0 where
  answered : Response → Reply
  failed : Option ℤ → GoError → Reply

-- net/http, net/url and resty, as the client uses them: `N` is the state of the network.
pub record Http (N : Type 0) : Type 0 where
  pub join_path : Str → Str → Result GoError Str
  pub status_text : ℤ → Str
  -- The reply to a request, and how long it took.
  pub get : HttpRequest → N → (Reply × ℕ) × N

-- io.ReadAll(io.LimitReader(body, limit))
unfoldable pub read_limited : ℕ → Body → Result GoError Str
read_limited limit body =
    if ltb (length body.bytes) limit then read_all body else ok (take limit body.bytes)

-- The text before the first line break: `detail[:strings.IndexAny(detail, "\n\r")]`.
unfoldable pub first_line : Str → Str
first_line [] = []
first_line (c ∷ s) = if c == 10 || c == 13 then [] else c ∷ first_line s

-- A JSON field that is present and not empty.
abbrev given : Option Str → Bool
given none = false
given (some s) = not (str_eq s [])

abbrev or_nil : Option Str → Str
or_nil none = []
or_nil (some s) = s

-- What the client is made of; NewClient puts the parts together.
pub record Client (N : Type 0) : Type 0 where
  pub base_url : Str
  pub http : Http N
  pub json : Json

-- The metrics field of the client, and the network that it talks to.
pub record ClientState (N : Type 0) : Type 0 where
  pub metrics : Option UpstreamMetrics
  pub net : N

-- The headers of a request; the id is forwarded if there is one.
unfoldable pub headers_for : Str → List (Str × Str)
headers_for id =
    (str "Accept", str "application/json")
    ∷ (if str_eq id [] then [] else (str "X-Request-ID", id) ∷ [])

-- The label under which a reply is counted.
unfoldable pub reply_class : Reply → Str
unfolding status_class
reply_class (answered r) = status_class r.status
reply_class (failed (some status) e) = status_class status
reply_class (failed none e) = str "error"

module _ {N : Type 0} where
  -- Client.SetMetrics
  unfoldable pub set_metrics : Option UpstreamMetrics → ClientState N → ClientState N
  set_metrics m st = record st { metrics = m }

  -- extractErrorDetail
  unfoldable pub extract_error_detail : Client N → Str → ℤ → Str
  unfolding first_line
  extract_error_detail c body status =
      if str_eq body []
      then c.http.status_text status
      else if given (c.json.unmarshal_detail body)
      then or_nil (c.json.unmarshal_detail body)
      else if given (c.json.unmarshal_message body)
      then or_nil (c.json.unmarshal_message body)
      else first_line (
          if ltb max_error_detail_size (length body) then take max_error_detail_size body else body)

  -- The second half of doRequest: from the reply to its body or an error.
  unfoldable pub read_reply : Client N → Reply → Result GoError Str
  unfolding read_limited extract_error_detail
  read_reply c (failed status e) = fail (str "execute request") e
  read_reply c (answered r) = elim (read_limited max_response_body_size r.body) [
    | err e ↦ fail (str "read response body") e
    | ok body ↦
        if ltb_ℤ r.status (pos 200) || leb_ℤ (pos 300) r.status
        then err (
            wrap
              (str "API status="
                ++ itoa r.status
                ++ str ": "
                ++ extract_error_detail c body r.status)
              (sentinel api_client))
        else ok body
  ]

  -- Client.doRequest
  unfoldable pub do_request :
      Client N → Context → Str → Option Values → ClientState N → Result GoError Str × ClientState N
  unfolding headers_for reply_class read_reply record_request
  do_request c ctx path query st = elim (c.http.join_path c.base_url path) [
    | err e ↦ (fail (str "build URL") e, st)
    | ok url ↦
        let request : HttpRequest = record {
          url = url;
          headers = headers_for (request_id_from ctx);
          query = query;
        } in
        let answer = c.http.get request st.net in
        (
          read_reply c answer.0.0,
          record {
            metrics = record_request (reply_class answer.0.0) answer.0.1 st.metrics;
            net = answer.1;
          },
        )
  ]

  -- The second half of Search: from the body to the domain's response.
  unfoldable pub parse_body : Client N → Result GoError Str → Result GoError SearchResponse
  parse_body c (err e) = err e
  parse_body c (ok body) = elim (c.json.unmarshal_response body) [
    | err e ↦ fail (str "unmarshal search response") e
    | ok raw ↦ ok (response_to_domain c.json raw)
  ]

  -- Client.Search
  unfoldable pub search :
      Client N
      → Context
      → SearchParams
      → ClientState N
      → Result GoError SearchResponse × ClientState N
  unfolding do_request parse_body
  search c ctx params st =
      let (body, st') = do_request c ctx (str "/search") (some (build_search_query params)) st in
      (parse_body c body, st')

  -- The client as a repository of the domain.
  abbrev pub client_repository : Client N → SearchRepository (ClientState N)
  client_repository c = record { search = search c }
