-- ===== src/Handlers/Tools/Types.antt =====
-- The inputs and the output of the tools, in handlers/tools.go. A `*uint64` is an `Option ℕ`.
use mcp_searxng.Prelude.{ℕ, List, Option}
use mcp_searxng.Prelude.Int.{ℤ}
use mcp_searxng.Text.{Str}

pub record SearchInput : Type 0 where
  pub query : Str
  pub categories : List Str
  pub language : Str
  pub page : ℤ
  pub time_range : Str
  pub safe_search : ℤ
  pub max_results : Option ℕ

pub record SearchNewsInput : Type 0 where
  pub query : Str
  pub language : Str
  pub page : ℤ
  pub safe_search : ℤ
  pub max_results : Option ℕ

pub record SearchImagesInput : Type 0 where
  pub query : Str
  pub page : ℤ
  pub safe_search : ℤ
  pub language : Str
  pub max_results : Option ℕ

pub record SearchVideosInput : Type 0 where
  pub query : Str
  pub page : ℤ
  pub safe_search : ℤ
  pub language : Str
  pub max_results : Option ℕ

pub record SearchMusicInput : Type 0 where
  pub query : Str
  pub page : ℤ
  pub safe_search : ℤ
  pub language : Str
  pub max_results : Option ℕ

pub record SearchResultItem : Type 0 where
  pub title : Str
  pub url : Str
  pub content : Str
  pub engine : Str
  pub category : Str
  pub published_date : Option Str
  pub formatted_date : Str
  pub img_src : Option Str
  pub source : Option Str

pub record InfoboxAttributeItem : Type 0 where
  pub key : Str
  pub value : Str

pub record InfoboxUrlItem : Type 0 where
  pub title : Str
  pub url : Str

pub record InfoboxItem : Type 0 where
  pub id : Str
  pub url : Str
  pub content : Str
  pub attributes : List InfoboxAttributeItem
  pub urls : List InfoboxUrlItem
  pub img_src : Option Str
  pub engine : Str

pub record SearchOutput : Type 0 where
  pub query : Str
  pub results : List SearchResultItem
  pub answers : List Str
  pub suggestions : List Str
  pub infoboxes : List InfoboxItem
  pub number_of_results : ℤ
