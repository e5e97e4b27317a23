-- ===== src/Handlers/Tools/Safety.antt =====
-- What the output of a tool may hold.
use mcp_searxng.Prelude.{
  ℕ, ◌≡◌, ◌⊎◌, refl, ap, sym, subst, ◌∙◌, ◌||◌, inl, inr, Bool, true, false, not, ◌&&◌, List, [],
  Option, none, some, arith, min, All, All-map, length, length-take, length-map, if◌then◌else◌,
  Bool-cases, Option-cases,
}
use mcp_searxng.Text.{Str, str, str_eq, str_eq_iff}
use mcp_searxng.Text.Utf8.{runes}
use mcp_searxng.Packages.{Url, Clock}
use mcp_searxng.Domain.{SearchResult, Infobox, SearchResponse}
use mcp_searxng.Handlers.Sanitize.{sanitize_output, sanitize_output_ptr}
use mcp_searxng.Handlers.Sanitize.Exact.{IsOutputSafe, sanitize_output-IsOutputSafe}
use mcp_searxng.Handlers.Tools.Types.{SearchResultItem, InfoboxItem, SearchOutput}
use mcp_searxng.Handlers.Tools.Output.{
  sanitize_url, attribute_item, url_item, infobox_item, truncate, result_item, build_output,
  sanitize_img_src,
}

-- A text without control and bidirectional formatting characters.
abbrev pub IsSafeText : Str → Type 0
IsSafeText s = All IsOutputSafe (runes s)

abbrev pub IsSafeTextPtr : Option Str → Type 0
IsSafeTextPtr none = Unit
IsSafeTextPtr (some s) = IsSafeText s

module _ (U : Url) where
  abbrev pub IsWebScheme : Str → Type 0
  IsWebScheme s = (s ≡ str "http") ⊎ (s ≡ str "https")

  -- No URL, or one that parses as http or https.
  abbrev pub IsWebUrl : Str → Type 0
  IsWebUrl s = (s ≡ []) ⊎ ((u : U.Parsed) × (U.parse s ≡ some u) × IsWebScheme (U.scheme u))

  -- URL.String writes a URL that parses again, with the scheme that it had.
  abbrev pub Reparses : Type 0
  Reparses =
      (raw : Str) (u : U.Parsed)
      → U.parse raw ≡ some u
      → (v : U.Parsed) × (U.parse (U.to_string u) ≡ some v) × (U.scheme v ≡ U.scheme u)

  -- An image source: none, or one that parses with no scheme, or as http, https or data.
  abbrev pub IsImageSource : Option Str → Type 0
  IsImageSource none = Unit
  IsImageSource (some s) =
      (u : U.Parsed) × (U.parse s ≡ some u)
      × ((U.scheme u ≡ []) ⊎ (IsWebScheme (U.scheme u) ⊎ (U.scheme u ≡ str "data")))

  abbrev other_scheme : Str → Bool
  other_scheme s = not (str_eq s (str "http")) && not (str_eq s (str "https"))

  abbrev image_scheme : Str → Bool
  image_scheme s =
      str_eq s [] || str_eq s (str "http") || str_eq s (str "https") || str_eq s (str "data")

  image_scheme_lem :
      (s : Str) → image_scheme s ≡ true → (s ≡ []) ⊎ (IsWebScheme s ⊎ (s ≡ str "data"))
  image_scheme_lem s h = ground (
    arith,
    str_eq_iff s [],
    str_eq_iff s (str "http"),
    str_eq_iff s (str "https"),
    str_eq_iff s (str "data"),
  )

  web_scheme : (s : Str) → other_scheme s ≡ false → IsWebScheme s
  web_scheme s h = elim (Bool-cases (str_eq s (str "http"))) [
    | inl e ↦ inl ((str_eq_iff s (str "http")).0 e)
    | inr e ↦ inr ((str_eq_iff s (str "https")).0 (ground arith))
  ]

  -- What sanitizeURL returns: nothing, or the parsed URL of a web scheme, written out.
  sanitize_url-cases :
      (raw : Str)
      → (sanitize_url U raw ≡ [])
        ⊎ ((u : U.Parsed) × (U.parse raw ≡ some u)
            × IsWebScheme (U.scheme u)
            × (sanitize_url U raw ≡ U.to_string u))
  unfolding sanitize_url
  sanitize_url-cases raw = elim (Bool-cases (str_eq raw [])) [
    | inl empty ↦ inl (ground arith)
    | inr given ↦ elim (Option-cases (U.parse raw)) [
      | inl e ↦ inl (ground arith)
      | inr (u, e) ↦ elim (Bool-cases (other_scheme (U.scheme u))) [
        | inl other ↦ inl (ground arith)
        | inr web ↦ inr (u, e, web_scheme (U.scheme u) web, ground arith)
      ]
    ]
  ]

  sanitize_url-IsWebUrl : Reparses → (raw : Str) → IsWebUrl (sanitize_url U raw)
  sanitize_url-IsWebUrl again raw = elim (sanitize_url-cases raw) [
    | inl empty ↦ inl empty
    | inr (u, parsed, web, same) ↦
        let (v, reparsed, scheme) = again raw u parsed in
        inr (v, ap U.parse same ∙ reparsed, subst IsWebScheme (sym scheme) web)
  ]

  sanitize_img_src-IsImageSource : (s : Option Str) → IsImageSource (sanitize_img_src U s)
  unfolding sanitize_img_src
  sanitize_img_src-IsImageSource none = tt
  sanitize_img_src-IsImageSource (some s) = elim (Option-cases (U.parse s)) [
    | inl e ↦ rw (e, sanitize_img_src) tt
    | inr (u, e) ↦ rw (e, sanitize_img_src) (image s u e)
  ]
    where
      image :
          (s : Str) (u : U.Parsed)
          → U.parse s ≡ some u
          → IsImageSource (if image_scheme (U.scheme u) then some s else none)
      image s u e = elim (Bool-cases (image_scheme (U.scheme u))) [
        | inr f ↦ rw f tt
        | inl f ↦ rw f (u, e, image_scheme_lem (U.scheme u) f)
      ]

  pub record IsSafeItem (i : SearchResultItem) : Type 0 where
    pub title : IsSafeText i.title
    pub url : IsWebUrl i.url
    pub content : IsSafeText i.content
    pub engine : IsSafeText i.engine
    pub category : IsSafeText i.category
    pub img_src : IsImageSource i.img_src
    pub source : IsSafeTextPtr i.source

  pub record IsSafeInfobox (b : InfoboxItem) : Type 0 where
    pub id : IsSafeText b.id
    pub url : IsWebUrl b.url
    pub content : IsSafeText b.content
    pub attributes : All (λ a. IsSafeText a.key × IsSafeText a.value) b.attributes
    pub urls : All (λ u. IsSafeText u.title × IsWebUrl u.url) b.urls
    pub img_src : IsImageSource b.img_src
    pub engine : IsSafeText b.engine

  pub record IsSafeOutput (o : SearchOutput) : Type 0 where
    pub query : IsSafeText o.query
    pub results : All IsSafeItem o.results
    pub answers : All IsSafeText o.answers
    pub suggestions : All IsSafeText o.suggestions
    pub infoboxes : All IsSafeInfobox o.infoboxes

  safe_ptr : (s : Option Str) → IsSafeTextPtr (sanitize_output_ptr s)
  unfolding sanitize_output_ptr
  safe_ptr none = tt
  safe_ptr (some s) = sanitize_output-IsOutputSafe s

module _ (U : Url) (T : Clock) (again : Reparses U) where
  result_item-IsSafeItem : (r : SearchResult) → IsSafeItem U (result_item U T r)
  unfolding result_item
  result_item-IsSafeItem r = record {
    title = sanitize_output-IsOutputSafe r.title;
    url = sanitize_url-IsWebUrl U again r.url;
    content = sanitize_output-IsOutputSafe r.content;
    engine = sanitize_output-IsOutputSafe r.engine;
    category = sanitize_output-IsOutputSafe r.category;
    img_src = sanitize_img_src-IsImageSource U r.img_src;
    source = safe_ptr U r.source;
  }

  infobox_item-IsSafeInfobox : (b : Infobox) → IsSafeInfobox U (infobox_item U b)
  unfolding infobox_item
  infobox_item-IsSafeInfobox b = record {
    id = sanitize_output-IsOutputSafe b.id;
    url = sanitize_url-IsWebUrl U again b.url;
    content = sanitize_output-IsOutputSafe b.content;
    attributes =
        All-map (λ a. IsSafeText a.key × IsSafeText a.value) (attribute_item U)
          (λ a. (sanitize_output-IsOutputSafe a.key, sanitize_output-IsOutputSafe a.value))
          b.attributes;
    urls =
        All-map (λ u. IsSafeText u.title × IsWebUrl U u.url) (url_item U)
          (λ u. (sanitize_output-IsOutputSafe u.title, sanitize_url-IsWebUrl U again u.url)) b.urls;
    img_src = sanitize_img_src-IsImageSource U b.img_src;
    engine = sanitize_output-IsOutputSafe b.engine;
  }

  -- Whatever SearXNG answered: every text of the output but the dates is free of control and
  -- bidirectional formatting characters, every URL is empty or parses as http or https, and every
  -- image source parses with no scheme or as http, https or data.
  pub build_output-IsSafeOutput :
      (d : SearchResponse) (max_results : Option ℕ)
      → IsSafeOutput U (build_output U T d max_results)
  unfolding build_output
  build_output-IsSafeOutput d max_results = record {
    query = sanitize_output-IsOutputSafe d.query;
    results =
        All-map (IsSafeItem U) (result_item U T) result_item-IsSafeItem
          (truncate max_results d.results);
    answers = All-map IsSafeText sanitize_output sanitize_output-IsOutputSafe d.answers;
    suggestions = All-map IsSafeText sanitize_output sanitize_output-IsOutputSafe d.suggestions;
    infoboxes = All-map (IsSafeInfobox U) (infobox_item U) infobox_item-IsSafeInfobox d.infoboxes;
  }

-- The number of results that a limit allows.
abbrev pub at_most : Option ℕ → ℕ → ℕ
at_most none n = n
at_most (some m) n = min m n

length-truncate :
    (m : Option ℕ) (rs : List SearchResult) → length (truncate m rs) ≡ at_most m (length rs)
unfolding truncate
length-truncate none rs = refl
length-truncate (some n) rs = ground (arith, length-take n rs)

module _ (U : Url) (T : Clock) where
  -- The output has as many results as SearXNG gave, or the given maximum if that is less; answers,
  -- suggestions and infoboxes are not cut, and the total that SearXNG reported is passed on.
  pub build_output_counts :
      (d : SearchResponse) (m : Option ℕ)
      → let o = build_output U T d m in
        (length o.results ≡ at_most m (length d.results))
        × (length o.answers ≡ length d.answers)
        × (length o.suggestions ≡ length d.suggestions)
        × (length o.infoboxes ≡ length d.infoboxes)
        × (o.number_of_results ≡ d.number_of_results)
  unfolding build_output
  build_output_counts d m = (
    length-map (result_item U T) (truncate m d.results) ∙ length-truncate m d.results,
    length-map sanitize_output d.answers,
    length-map sanitize_output d.suggestions,
    length-map (infobox_item U) d.infoboxes,
    refl,
  )
