-- ===== src/Searxng/Client/Failures.antt =====
-- The errors of a search, and the detail that an error body contributes to them.
use mcp_searxng.Prelude.{
  ℕ, ◌≤◌, ◌≡◌, ◌≢◌, ◌↔◌, refl, sym, ap, ◌∙◌, inl, inr, true, false, ◌||◌, [], ◌∷◌, ◌++◌, Option,
  some, Result, ok, err, arith, All, length, take, length-take, length-append, append_assoc,
  append-nil, take-append-drop, drop, Result-cases, Bool-cases, ltb, if◌then◌else◌, ◌==◌,
}
use mcp_searxng.Prelude.Int.{ℤ}
use mcp_searxng.Text.{Str, str, str_eq, str_eq_iff}
use mcp_searxng.Text.Decimal.{itoa}
use mcp_searxng.Errors.{GoError, sentinel, wrap, api_client, is_error}
use mcp_searxng.Packages.{Body}
use mcp_searxng.Context.{Context}
use mcp_searxng.Domain.{SearchParams}
use mcp_searxng.Searxng.Client.Laws.{search_request, out_of_range}
use mcp_searxng.Searxng.Client.{
  max_response_body_size, max_error_detail_size, Response, Reply, answered, failed, HttpRequest,
  first_line, given, read_limited, Client, ClientState, extract_error_detail, read_reply,
  parse_body, do_request, search,
}

-- An error that another package made: it is not the client's ErrAPIClient.
abbrev pub IsForeign : GoError → Type 0
IsForeign e = is_error e api_client ≡ false

-- ErrAPIClient is made by this client only: no package that it calls returns it.
pub record HasForeignErrors {N : Type 0} (c : Client N) : Type 0 where
  pub joining : (path : Str) (e : GoError) → c.http.join_path c.base_url path ≡ err e → IsForeign e
  pub sending :
      (request : HttpRequest) (net : N) (status : Option ℤ) (e : GoError)
      → (c.http.get request net).0.0 ≡ failed status e
      → IsForeign e
  pub reading :
      (request : HttpRequest) (net : N) (r : Response) (e : GoError)
      → (c.http.get request net).0.0 ≡ answered r
      → r.body.fault ≡ some e
      → IsForeign e
  pub decoding : (s : Str) (e : GoError) → c.json.unmarshal_response s ≡ err e → IsForeign e

read_limited-err :
    (limit : ℕ) (b : Body) (e : GoError) → read_limited limit b ≡ err e → b.fault ≡ some e
unfolding read_limited
read_limited-err limit b e h = ground arith

module _ {N : Type 0} (c : Client N) where
  -- The server answered with a status other than success, and its body could be read.
  pub record IsRefused (ctx : Context) (params : SearchParams) (st : ClientState N) : Type 0 where
    pub url : Str
    pub response : Response
    pub body : Str
    pub joined : c.http.join_path c.base_url (str "/search") ≡ ok url
    pub reply : (c.http.get (search_request ctx params url) st.net).0.0 ≡ answered response
    pub readable : read_limited max_response_body_size response.body ≡ ok body
    pub refused : out_of_range response.status ≡ true

  -- The error of a refused search.
  abbrev refusal : Str → ℤ → GoError
  refusal body status =
      wrap (str "API status=" ++ itoa status ++ str ": " ++ extract_error_detail c body status)
        (sentinel api_client)

  read_reply_refused :
      (r : Response) (body : Str)
      → read_limited max_response_body_size r.body ≡ ok body
      → out_of_range r.status ≡ true
      → read_reply c (answered r) ≡ err (refusal body r.status)
  unfolding read_reply
  read_reply_refused r body h k = rw (h, read_reply) (rw k)

  search_of_reply :
      (ctx : Context) (params : SearchParams) (st : ClientState N) (url : Str)
      → c.http.join_path c.base_url (str "/search") ≡ ok url
      → (search c ctx params st).0
        ≡ parse_body c (read_reply c (c.http.get (search_request ctx params url) st.net).0.0)
  unfolding search do_request
  search_of_reply ctx params st url h = ground arith

  search_refused :
      (ctx : Context) (params : SearchParams) (st : ClientState N) (r : IsRefused ctx params st)
      → (search c ctx params st).0 ≡ err (refusal r.body r.response.status)
  unfolding parse_body
  search_refused ctx params st r =
      search_of_reply ctx params st r.url r.joined
      ∙ ap (λ (x : Reply). parse_body c (read_reply c x)) r.reply
      ∙ ap (parse_body c) (read_reply_refused r.response r.body r.readable r.refused)

module _ {N : Type 0} (c : Client N) (foreign : HasForeignErrors c) where
  -- The error of a reply, if it is ErrAPIClient, is a refusal.
  api_error_reply :
      (request : HttpRequest) (net : N) (reply : Reply) (e : GoError)
      → (c.http.get request net).0.0 ≡ reply
      → read_reply c reply ≡ err e
      → is_error e api_client ≡ true
      → (r : Response) × (body : Str) × (reply ≡ answered r)
        × (read_limited max_response_body_size r.body ≡ ok body)
        × (out_of_range r.status ≡ true)
  unfolding read_reply is_error
  api_error_reply request net (failed status x) e got h k =
      absurd (ground (arith, foreign.sending request net status x got))
  api_error_reply request net (answered r) e got h k =
      elim (Result-cases (read_limited max_response_body_size r.body)) [
        | inr (x, unread) ↦
            let faulty = read_limited-err max_response_body_size r.body x unread in
            absurd (ground (arith, foreign.reading request net r x got faulty))
        | inl (body, read) ↦ elim (Bool-cases (out_of_range r.status)) [
          | inl refused ↦ (r, body, refl, read, refused)
          | inr success ↦ absurd (ground arith)
        ]
      ]

  api_error_body :
      (body : Result GoError Str) (e : GoError)
      → parse_body c body ≡ err e
      → is_error e api_client ≡ true
      → body ≡ err e
  unfolding parse_body is_error
  api_error_body (err x) e h k = cc
  api_error_body (ok s) e h k = elim (Result-cases (c.json.unmarshal_response s)) [
    | inl (raw, decoded) ↦ absurd (ground arith)
    | inr (x, undecoded) ↦ absurd (ground (arith, foreign.decoding s x undecoded))
  ]

  search-IsRefused :
      (ctx : Context) (params : SearchParams) (st : ClientState N) (e : GoError)
      → (search c ctx params st).0 ≡ err e
      → is_error e api_client ≡ true
      → IsRefused c ctx params st
  unfolding search do_request parse_body is_error
  search-IsRefused ctx params st e h k =
      elim (Result-cases (c.http.join_path c.base_url (str "/search"))) [
        | inr (x, unjoined) ↦ absurd (ground (arith, foreign.joining (str "/search") x unjoined))
        | inl (url, joined) ↦
            let request = search_request ctx params url in
            let reply = (c.http.get request st.net).0.0 in
            let failed_body =
              api_error_body (read_reply c reply) e
                (sym (search_of_reply c ctx params st url joined) ∙ h) k in
            let (r, body, got, readable, refused) =
              api_error_reply request st.net reply e refl failed_body k in
            record {
              url = url;
              response = r;
              body = body;
              joined = joined;
              reply = got;
              readable = readable;
              refused = refused;
            }
      ]

  -- If no package that the client calls returns ErrAPIClient, a failed search has ErrAPIClient in its chain of errors exactly when the server answered with a
  -- status outside 200 to 299 and a body that could be read.
  pub api_error_iff :
      (ctx : Context) (params : SearchParams) (st : ClientState N) (e : GoError)
      → (search c ctx params st).0 ≡ err e
      → (is_error e api_client ≡ true) ↔ IsRefused c ctx params st
  unfolding is_error
  api_error_iff ctx params st e h =
      (search-IsRefused ctx params st e h, λ r. cc (search_refused c ctx params st r))

-- A prefix of a text.
abbrev pub Begins : Str → Str → Type 0
Begins s t = (rest : Str) × (t ≡ s ++ rest)

abbrev pub IsInLine : ℕ → Type 0
IsInLine c = (c ≢ 10) × (c ≢ 13)

first_line_lem : (s : Str) → All IsInLine (first_line s) × Begins (first_line s) s
unfolding first_line
first_line_lem [] = (tt, ([], refl))
first_line_lem (c ∷ s) = elim (Bool-cases (c == 10 || c == 13)) [
  | inl break ↦ rw break (tt, (c ∷ s, refl))
  | inr inside ↦
      let (in_line, (rest, same)) = first_line_lem s in
      rw inside (((ground arith, ground arith), in_line), (rest, ap (◌∷◌ c) same))
]

Begins-trans : (s t u : Str) → Begins s t → Begins t u → Begins s u
Begins-trans s t u (x, p) (y, q) = (x ++ y, q ∙ ap (λ (r : Str). r ++ y) p ∙ append_assoc s x y)

Begins-take : (n : ℕ) (s : Str) → Begins (take n s) s
Begins-take n s = (drop n s, sym (take-append-drop n s))

Begins-length : (s t : Str) → Begins s t → length s ≤ length t
Begins-length s t (rest, e) = omega (arith, ap (length {A = ℕ}) e, length-append s rest)

-- The excerpt of a body that the detail is taken from.
abbrev excerpt : Str → Str
excerpt body =
    if ltb max_error_detail_size (length body) then take max_error_detail_size body else body

excerpt_lem :
    (body : Str) → Begins (excerpt body) body × (length (excerpt body) ≤ max_error_detail_size)
excerpt_lem body = elim (Bool-cases (ltb max_error_detail_size (length body))) [
  | inl long ↦ rw long (
    Begins-take max_error_detail_size body,
    omega (arith, length-take max_error_detail_size body),
  )
  | inr short ↦ rw short (([], sym (append-nil body)), ground arith)
]

-- Where an error body is not empty and gives no JSON detail or message, the detail is text that begins the body, of at
-- most 512 bytes and with no line break.
pub error_detail_bounded :
    {N : Type 0} (c : Client N) (body : Str) (status : ℤ)
    → body ≢ []
    → given (c.json.unmarshal_detail body) ≡ false
    → given (c.json.unmarshal_message body) ≡ false
    → All IsInLine (extract_error_detail c body status)
      × (length (extract_error_detail c body status) ≤ max_error_detail_size)
      × Begins (extract_error_detail c body status) body
unfolding extract_error_detail
error_detail_bounded c body status h d m =
    let nonempty : str_eq body [] ≡ false = ground (arith, str_eq_iff body []) in
    let (in_line, begins) = first_line_lem (excerpt body) in
    let (whole, bounded) = excerpt_lem body in
    rw (nonempty, d, m)
      (
        in_line,
        omega (arith, Begins-length (first_line (excerpt body)) (excerpt body) begins, bounded),
        Begins-trans (first_line (excerpt body)) (excerpt body) body begins whole,
      )
