-- ===== src/Searxng/Wire.antt =====
-- infrastructure/searxng/models.go: the answers of SearXNG as they are decoded, and their conversion
-- to the domain's data.
use mcp_searxng.Prelude.{List, Option, none, some, Bool, Result, map}
use mcp_searxng.Errors.{GoError}
use mcp_searxng.Prelude.Int.{ℤ}
use mcp_searxng.Text.{Str}
use mcp_searxng.Domain.{
  SearchResult, InfoboxUrl, InfoboxAttribute, InfoboxDetail, Infobox, SearchResponse,
}

pub record RawSearchResult : Type 0 where
  pub title : Str
  pub url : Str
  pub content : Str
  pub engine : Str
  pub template : Str
  pub published_date : Option Str
  pub pub_date : Option Str
  pub category : Str
  pub img_src : Option Str
  pub source : Option Str
  pub engine_avatar : Option Str
  pub parsed_url : List Str

pub record RawInfoboxUrl : Type 0 where
  pub title : Str
  pub url : Str

pub record RawInfoboxAttribute : Type 0 where
  pub key : Str
  pub value : Str

pub record RawInfoboxDetail : Type 0 where
  pub id : Str
  pub content : Str
  pub img_src : Option Str
  pub urls : List RawInfoboxUrl
  pub attributes : List RawInfoboxAttribute

pub record RawInfobox : Type 0 where
  pub id : Str
  pub url : Str
  pub content : Str
  pub infoboxes : List RawInfoboxDetail
  pub img_src : Option Str
  pub engine : Str
  pub urls : List RawInfoboxUrl
  pub attributes : List RawInfoboxAttribute

-- A `json.RawMessage` is the bytes of one JSON value.
pub record RawSearchResponse : Type 0 where
  pub query : Str
  pub results : List RawSearchResult
  pub answers : List Str
  pub infoboxes : List RawInfobox
  pub suggestions : List Str
  pub number_of_results : ℤ
  pub paging : Bool

-- encoding/json, of which the client uses the decoding of a response, of a string and of the two
-- forms of an error body, and the encoding of a raw message. `none` is an error whose text is not
-- read.
pub record Json : Type 0 where
  pub unmarshal_response : Str → Result GoError RawSearchResponse
  pub unmarshal_string : Str → Option Str
  pub marshal_raw : Str → Option Str
  pub unmarshal_detail : Str → Option Str
  pub unmarshal_message : Str → Option Str

-- rawInfoboxURL.toDomain
unfoldable pub url_to_domain : RawInfoboxUrl → InfoboxUrl
url_to_domain r = record { title = r.title; url = r.url }

-- rawInfoboxAttribute.toDomain
unfoldable pub attribute_to_domain : RawInfoboxAttribute → InfoboxAttribute
attribute_to_domain r = record { key = r.key; value = r.value }

-- rawInfoboxDetail.toDomain
unfoldable pub detail_to_domain : RawInfoboxDetail → InfoboxDetail
detail_to_domain r = record {
  id = r.id;
  content = r.content;
  img_src = r.img_src;
  urls = map url_to_domain r.urls;
  attributes = map attribute_to_domain r.attributes;
}

-- rawInfobox.toDomain
unfoldable pub infobox_to_domain : RawInfobox → Infobox
infobox_to_domain r = record {
  id = r.id;
  url = r.url;
  content = r.content;
  infoboxes = map detail_to_domain r.infoboxes;
  img_src = r.img_src;
  engine = r.engine;
  urls = map url_to_domain r.urls;
  attributes = map attribute_to_domain r.attributes;
}

-- `publishedDate`, or `pubdate` where that is missing
unfoldable pub date_of : Option Str → Option Str → Option Str
date_of none (some d) = some d
date_of published _ = published

-- rawSearchResult.toDomain
unfoldable pub result_to_domain : RawSearchResult → SearchResult
unfolding date_of
result_to_domain r = record {
  title = r.title;
  url = r.url;
  content = r.content;
  engine = r.engine;
  template = r.template;
  published_date = date_of r.published_date r.pub_date;
  category = r.category;
  img_src = r.img_src;
  source = r.source;
  engine_avatar = r.engine_avatar;
  parsed_url = r.parsed_url;
}

module _ (json : Json) where
  -- rawAnswerToString
  unfoldable pub raw_answer_to_string : Str → Str
  raw_answer_to_string a = elim (json.unmarshal_string a) [
    | some s ↦ s
    | none ↦ elim (json.marshal_raw a) [ some b ↦ b | none ↦ a ]
  ]

  -- rawSearchResponse.toDomain
  unfoldable pub response_to_domain : RawSearchResponse → SearchResponse
  response_to_domain r = record {
    query = r.query;
    results = map result_to_domain r.results;
    answers = map raw_answer_to_string r.answers;
    infoboxes = map infobox_to_domain r.infoboxes;
    suggestions = r.suggestions;
    number_of_results = r.number_of_results;
    paging = r.paging;
    corrected_url = none;
  }
