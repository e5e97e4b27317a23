-- ===== src/Domain.antt =====
-- domain/models.go and domain/repository.go: the data that the layers exchange, and the port through
-- which the search service reaches SearXNG.
pub mod Repository
use mcp_searxng.Prelude.{List, Option, Bool}
use mcp_searxng.Prelude.Int.{ℤ}
use mcp_searxng.Text.{Str}

-- A `*string` is an `Option Str`.
pub record SearchResult : Type 0 where
  pub title : Str
  pub url : Str
  pub content : Str
  pub engine : Str
  pub template : Str
  pub published_date : Option Str
  pub category : Str
  pub img_src : Option Str
  pub source : Option Str
  pub engine_avatar : Option Str
  pub parsed_url : List Str

pub record InfoboxUrl : Type 0 where
  pub title : Str
  pub url : Str

pub record InfoboxAttribute : Type 0 where
  pub key : Str
  pub value : Str

pub record InfoboxDetail : Type 0 where
  pub id : Str
  pub content : Str
  pub img_src : Option Str
  pub urls : List InfoboxUrl
  pub attributes : List InfoboxAttribute

pub record Infobox : Type 0 where
  pub id : Str
  pub url : Str
  pub content : Str
  pub infoboxes : List InfoboxDetail
  pub img_src : Option Str
  pub engine : Str
  pub urls : List InfoboxUrl
  pub attributes : List InfoboxAttribute

-- `SuggestionResult` and `AnswerResult` are strings.
pub record SearchResponse : Type 0 where
  pub query : Str
  pub results : List SearchResult
  pub answers : List Str
  pub infoboxes : List Infobox
  pub suggestions : List Str
  pub number_of_results : ℤ
  pub paging : Bool
  pub corrected_url : Option Str

pub record SearchParams : Type 0 where
  pub query : Str
  pub categories : List Str
  pub language : Str
  pub page : ℤ
  pub time_range : Str
  pub safe_search : ℤ
