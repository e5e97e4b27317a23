-- ===== src/Handlers/Tools/Calls.antt =====
-- `searchHelper`, the validation and the five tool handlers of handlers/tools.go.
use mcp_searxng.Prelude.{
  ℕ, ◌++◌, ◌≡◌, refl, [], ◌∷◌, Option, none, some, Result, ok, err, ltb, length, if◌then◌else◌,
}
use mcp_searxng.Prelude.Int.{ℤ, pos, ltb_ℤ, leb_ℤ}
use mcp_searxng.Text.{Str, str, str_eq}
use mcp_searxng.Errors.{
  GoError, sentinel, error_text, fail, search_failed, query_too_long, page_too_large, invalid_query,
}
use mcp_searxng.Packages.{Url, Clock}
use mcp_searxng.Context.{Context}
use mcp_searxng.Log.{Log, log_error}
use mcp_searxng.Domain.{SearchParams}
use mcp_searxng.Service
use mcp_searxng.Service.{SearchService}
use mcp_searxng.Handlers.Sanitize.{sanitize_log}
use mcp_searxng.Handlers.Tools.Types.{
  SearchInput, SearchNewsInput, SearchImagesInput, SearchVideosInput, SearchMusicInput,
  SearchOutput,
}
use mcp_searxng.Handlers.Tools.Output.{build_output}

abbrev pub max_query_length : ℕ
max_query_length = 512

abbrev pub max_page_number : ℕ
max_page_number = 100

-- validateQuery; `none` is nil.
unfoldable pub validate_query : Str → Option GoError
validate_query q =
    if str_eq q []
    then some (sentinel invalid_query)
    else if ltb max_query_length (length q)
    then some (sentinel query_too_long)
    else none

-- validatePage
unfoldable pub validate_page : ℤ → Option GoError
validate_page page =
    if ltb_ℤ (pos max_page_number) page then some (sentinel page_too_large) else none

-- The page that is asked for: the first where none is given.
unfoldable pub page_or_first : ℤ → ℤ
page_or_first page = if leb_ℤ page (pos 0) then pos 1 else page

-- What a handler may change: the repository's state, and the log.
pub record ToolState (S : Type 0) : Type 0 where
  pub repo : S
  pub log : Log

-- The searches that the five handlers make of their inputs.
abbrev pub search_params : SearchInput → SearchParams
search_params input = record {
  query = input.query;
  categories = input.categories;
  language = input.language;
  page = input.page;
  time_range = input.time_range;
  safe_search = input.safe_search;
}

abbrev pub search_news_params : SearchNewsInput → SearchParams
search_news_params input = record {
  query = input.query;
  categories = str "news" ∷ [];
  language = input.language;
  page = input.page;
  time_range = str "day";
  safe_search = input.safe_search;
}

abbrev pub search_images_params : SearchImagesInput → SearchParams
search_images_params input = record {
  query = input.query;
  categories = str "images" ∷ [];
  language = input.language;
  page = input.page;
  time_range = [];
  safe_search = input.safe_search;
}

abbrev pub search_videos_params : SearchVideosInput → SearchParams
search_videos_params input = record {
  query = input.query;
  categories = str "videos" ∷ [];
  language = input.language;
  page = input.page;
  time_range = [];
  safe_search = input.safe_search;
}

abbrev pub search_music_params : SearchMusicInput → SearchParams
search_music_params input = record {
  query = input.query;
  categories = str "music" ∷ [];
  language = input.language;
  page = input.page;
  time_range = [];
  safe_search = input.safe_search;
}

module _ (U : Url) (T : Clock) {S : Type 0} (svc : SearchService S) where
  -- searchHelper
  unfoldable pub search_helper :
      Context → SearchParams → Option ℕ → S → Result GoError SearchOutput × S
  search_helper ctx params max_results s =
      let params' = record params { page = page_or_first params.page } in
      let (result, s') = Service.search svc ctx params' s in
      (elim result [ err e ↦ err e | ok d ↦ ok (build_output U T d max_results) ], s')

  -- The branch of a handler for input that is refused.
  unfoldable pub reject : Str → GoError → ToolState S → Result GoError SearchOutput × ToolState S
  reject name e st = (
    fail name e,
    record st {
      log = log_error (name ++ (str " validation: " ++ sanitize_log (error_text e))) st.log;
    },
  )

  -- The rest of a handler, from the result of searchHelper.
  unfoldable pub conclude :
      Str → Result GoError SearchOutput × S → Log → Result GoError SearchOutput × ToolState S
  conclude name (ok output, s) log = (ok output, record { repo = s; log = log })
  conclude name (err e, s) log = (
    fail name (sentinel search_failed),
    record { repo = s; log = log_error (name ++ (str ": " ++ sanitize_log (error_text e))) log },
  )

  -- What the five handlers have in common, over the tool's name and the search that it makes.
  unfoldable pub tool_call :
      Str
      → SearchParams
      → Option ℕ
      → Context
      → ToolState S
      → Result GoError SearchOutput × ToolState S
  unfolding reject conclude
  tool_call name params max_results ctx st = elim (validate_query params.query) [
    | some e ↦ reject name e st
    | none ↦ elim (validate_page params.page) [
      | some e ↦ reject name e st
      | none ↦ conclude name (search_helper ctx params max_results st.repo) st.log
    ]
  ]

  -- NewSearchHandler
  unfoldable pub search_handler :
      Context → SearchInput → ToolState S → Result GoError SearchOutput × ToolState S
  search_handler ctx input = tool_call (str "search") (search_params input) input.max_results ctx

  -- NewSearchNewsHandler
  unfoldable pub search_news_handler :
      Context → SearchNewsInput → ToolState S → Result GoError SearchOutput × ToolState S
  search_news_handler ctx input =
      tool_call (str "search_news") (search_news_params input) input.max_results ctx

  -- NewSearchImagesHandler
  unfoldable pub search_images_handler :
      Context → SearchImagesInput → ToolState S → Result GoError SearchOutput × ToolState S
  search_images_handler ctx input =
      tool_call (str "search_images") (search_images_params input) input.max_results ctx

  -- NewSearchVideosHandler
  unfoldable pub search_videos_handler :
      Context → SearchVideosInput → ToolState S → Result GoError SearchOutput × ToolState S
  search_videos_handler ctx input =
      tool_call (str "search_videos") (search_videos_params input) input.max_results ctx

  -- NewSearchMusicHandler
  unfoldable pub search_music_handler :
      Context → SearchMusicInput → ToolState S → Result GoError SearchOutput × ToolState S
  search_music_handler ctx input =
      tool_call (str "search_music") (search_music_params input) input.max_results ctx

-- A call of one of the five tools.
pub data ToolInput : Type 0 where
  search : SearchInput → ToolInput
  search_news : SearchNewsInput → ToolInput
  search_images : SearchImagesInput → ToolInput
  search_videos : SearchVideosInput → ToolInput
  search_music : SearchMusicInput → ToolInput

abbrev pub tool_name : ToolInput → Str
tool_name (search input) = str "search"
tool_name (search_news input) = str "search_news"
tool_name (search_images input) = str "search_images"
tool_name (search_videos input) = str "search_videos"
tool_name (search_music input) = str "search_music"

abbrev pub tool_params : ToolInput → SearchParams
tool_params (search input) = search_params input
tool_params (search_news input) = search_news_params input
tool_params (search_images input) = search_images_params input
tool_params (search_videos input) = search_videos_params input
tool_params (search_music input) = search_music_params input

abbrev pub tool_max : ToolInput → Option ℕ
tool_max (search input) = input.max_results
tool_max (search_news input) = input.max_results
tool_max (search_images input) = input.max_results
tool_max (search_videos input) = input.max_results
tool_max (search_music input) = input.max_results

-- The handler that registerTool of handlers/registration.go chooses by the tool's name.
module _ (U : Url) (T : Clock) {S : Type 0} (svc : SearchService S) where
  unfoldable pub handle :
      ToolInput → Context → ToolState S → Result GoError SearchOutput × ToolState S
  handle (search input) ctx = search_handler U T svc ctx input
  handle (search_news input) ctx = search_news_handler U T svc ctx input
  handle (search_images input) ctx = search_images_handler U T svc ctx input
  handle (search_videos input) ctx = search_videos_handler U T svc ctx input
  handle (search_music input) ctx = search_music_handler U T svc ctx input

  pub handle-tool_call :
      (i : ToolInput) (ctx : Context) (st : ToolState S)
      → handle i ctx st ≡ tool_call U T svc (tool_name i) (tool_params i) (tool_max i) ctx st
  unfolding handle search_handler search_news_handler search_images_handler search_videos_handler
      search_music_handler
  handle-tool_call (search input) ctx st = refl
  handle-tool_call (search_news input) ctx st = refl
  handle-tool_call (search_images input) ctx st = refl
  handle-tool_call (search_videos input) ctx st = refl
  handle-tool_call (search_music input) ctx st = refl
