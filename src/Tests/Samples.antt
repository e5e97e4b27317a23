-- ===== src/Tests/Samples.antt =====
-- Concrete packages: a URL is a text whose scheme is what stands before its colon, every date is a
-- time, and a rate limiter is a number of tokens.
use mcp_searxng.Prelude.{
  ℕ, zero, suc, refl, Bool, true, false, [], ◌∷◌, ◌++◌, none, some, Result, ok, err, take,
}
use mcp_searxng.Prelude.Int.{ℤ, pos, negsuc}
use mcp_searxng.Text.{Str, str, index_byte}
use mcp_searxng.Errors.{GoError, other}
use mcp_searxng.Config.{Config}
use mcp_searxng.Packages.{Url, Clock}
use mcp_searxng.Handlers.RateLimit.{Rate}
use mcp_searxng.Handlers.Tools.Safety.{Reparses}
use mcp_searxng.Searxng.Wire.{Json, RawSearchResult, RawSearchResponse}
use mcp_searxng.Searxng.Client.{Http, Client, Reply}

abbrev pub text_scheme : Str → Str
text_scheme s = elim (index_byte b':' s) [ some i ↦ take i s | none ↦ [] ]

abbrev pub text_url : Url
text_url = record {
  Parsed = Str;
  parse = λ s. some s;
  parse_error = λ s. other (str "parse");
  scheme = text_scheme;
  host = λ s. [];
  has_user = λ s. false;
  drop_user = λ s. s;
  to_string = λ s. s;
}

pub text_url-Reparses : Reparses text_url
text_url-Reparses raw u parsed = (u, refl, refl)

abbrev pub text_clock : Clock
text_clock = record { Time = Str; parse = λ layout s. some s; format = λ layout t. t }

abbrev tokens : ℤ → ℕ
tokens (pos n) = n
tokens (negsuc n) = 0

abbrev take_token : ℕ → Bool × ℕ
take_token zero = (false, zero)
take_token (suc n) = (true, n)

abbrev pub token_rate : Rate
token_rate = record {
  Limit = ℤ;
  of_int = λ n. n;
  to_int = λ n. n;
  Limiter = ℕ;
  new_limiter = λ limit burst. tokens burst;
  allow = λ now l. take_token l;
}

-- One result, with a line break in its content and a script as its link.
abbrev pub sample_result : RawSearchResult
sample_result = record {
  title = str "Go";
  url = str "javascript:x";
  content = b'a' ∷ 0 ∷ b'b' ∷ [];
  engine = str "ddg";
  template = [];
  published_date = none;
  pub_date = some (str "2024-01-01");
  category = str "general";
  img_src = some (str "https://i");
  source = none;
  engine_avatar = none;
  parsed_url = [];
}

abbrev pub sample_response : RawSearchResponse
sample_response = record {
  query = str "go";
  results = sample_result ∷ sample_result ∷ [];
  answers = str "42" ∷ [];
  infoboxes = [];
  suggestions = str "golang" ∷ [];
  number_of_results = pos 2;
  paging = false;
}

-- Every body decodes to the sample, but for the empty one.
abbrev decode_sample : Str → Result GoError RawSearchResponse
decode_sample [] = err (other (str "unexpected end of JSON input"))
decode_sample (c ∷ s) = ok sample_response

abbrev pub sample_json : Json
sample_json = record {
  unmarshal_response = decode_sample;
  unmarshal_string = λ s. some s;
  marshal_raw = λ s. some s;
  unmarshal_detail = λ s. none;
  unmarshal_message = λ s. none;
}

-- A network that answers each request alike and counts the requests.
abbrev pub steady_http : Reply → Http ℕ
steady_http reply = record {
  join_path = λ base path. ok (base ++ path);
  status_text = λ status. str "status";
  get = λ request n. ((reply, 5), suc n);
}

abbrev pub steady_client : Reply → Client ℕ
steady_client reply = record {
  base_url = str "http://searxng";
  http = steady_http reply;
  json = sample_json;
}

abbrev pub sample_config : Config
sample_config = record {
  searxng_url = str "http://searxng:8888";
  listen_addr = str ":8080";
  internal_addr = str ":8081";
  rate_limit_global = pos 100;
  rate_limit_per_client = pos 10;
  write_timeout = pos 60000000000;
  mode = str "http";
  log_level = some (str "warning");
  log_format = str "text";
  log_filename = [];
}
