-- ===== src/Handlers/Tools/Output.antt =====
-- From the domain's response to the output of a tool, in handlers/tools.go.
use mcp_searxng.Prelude.{
  ℕ, ◌&&◌, ◌||◌, not, List, Option, none, some, map, ltb, length, take, if◌then◌else◌, [],
}
use mcp_searxng.Text.{Str, str, str_eq}
use mcp_searxng.Packages.{Url, Clock}
use mcp_searxng.Domain.{SearchResult, InfoboxUrl, InfoboxAttribute, Infobox, SearchResponse}
use mcp_searxng.Handlers.Sanitize.{sanitize_output, sanitize_output_ptr}
use mcp_searxng.Handlers.Tools.Types.{
  SearchResultItem, InfoboxAttributeItem, InfoboxUrlItem, InfoboxItem, SearchOutput,
}

-- formatDate: the layouts are tried in turn.
module _ (T : Clock) where
  first_layout : Str → Str → Str → Str → Option T.Time
  first_layout l m n d = elim (T.parse l d) [
    | some t ↦ some t
    | none ↦ elim (T.parse m d) [ some t ↦ some t | none ↦ T.parse n d ]
  ]

  unfoldable pub format_date : Option Str → Str
  unfolding first_layout
  format_date none = []
  format_date (some d) =
      if str_eq d []
      then []
      else elim (first_layout (str "2006-01-02T15:04:05Z07:00") (str "2006-01-02T15:04:05")
          (str "2006-01-02") d) [ some t ↦ T.format (str "2 Jan 2006") t | none ↦ [] ]

module _ (U : Url) where
  -- sanitizeURL
  unfoldable pub sanitize_url : Str → Str
  sanitize_url raw = if str_eq raw [] then [] else elim (U.parse raw) [
    | none ↦ []
    | some u ↦
        if not (str_eq (U.scheme u) (str "http")) && not (str_eq (U.scheme u) (str "https"))
        then []
        else U.to_string u
  ]

  -- sanitizeImgSrc
  unfoldable pub sanitize_img_src : Option Str → Option Str
  sanitize_img_src none = none
  sanitize_img_src (some s) = elim (U.parse s) [
    | none ↦ none
    | some u ↦
        if str_eq (U.scheme u) []
          || str_eq (U.scheme u) (str "http")
          || str_eq (U.scheme u) (str "https")
          || str_eq (U.scheme u) (str "data")
        then some s
        else none
  ]

  unfoldable pub attribute_item : InfoboxAttribute → InfoboxAttributeItem
  attribute_item a = record { key = sanitize_output a.key; value = sanitize_output a.value }

  unfoldable pub url_item : InfoboxUrl → InfoboxUrlItem
  url_item u = record { title = sanitize_output u.title; url = sanitize_url u.url }

  unfoldable pub infobox_item : Infobox → InfoboxItem
  unfolding attribute_item url_item
  infobox_item b = record {
    id = sanitize_output b.id;
    url = sanitize_url b.url;
    content = sanitize_output b.content;
    attributes = map attribute_item b.attributes;
    urls = map url_item b.urls;
    img_src = sanitize_img_src b.img_src;
    engine = sanitize_output b.engine;
  }

  -- buildInfoboxes
  unfoldable pub build_infoboxes : List Infobox → List InfoboxItem
  unfolding infobox_item
  build_infoboxes source = map infobox_item source

-- The results that are kept: all, or the first `maxResults`.
unfoldable pub truncate : Option ℕ → List SearchResult → List SearchResult
truncate none results = results
truncate (some n) results = if ltb n (length results) then take n results else results

module _ (U : Url) (T : Clock) where
  -- The body of the loop over the results, in searchHelper.
  unfoldable pub result_item : SearchResult → SearchResultItem
  result_item r = record {
    title = sanitize_output r.title;
    url = sanitize_url U r.url;
    content = sanitize_output r.content;
    engine = sanitize_output r.engine;
    category = sanitize_output r.category;
    published_date = r.published_date;
    formatted_date = format_date T r.published_date;
    img_src = sanitize_img_src U r.img_src;
    source = sanitize_output_ptr r.source;
  }

  -- The second half of searchHelper: the output of a response.
  unfoldable pub build_output : SearchResponse → Option ℕ → SearchOutput
  unfolding result_item build_infoboxes
  build_output d max_results = record {
    query = sanitize_output d.query;
    results = map result_item (truncate max_results d.results);
    answers = map sanitize_output d.answers;
    suggestions = map sanitize_output d.suggestions;
    infoboxes = build_infoboxes U d.infoboxes;
    number_of_results = d.number_of_results;
  }
