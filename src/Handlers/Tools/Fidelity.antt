-- ===== src/Handlers/Tools/Fidelity.antt =====
-- Plain texts and web links on the way from SearXNG to the client.
use mcp_searxng.Prelude.{
  ℕ, zero, suc, ◌≡◌, ◌⊎◌, refl, sym, ap, ap₂, ◌∙◌, inl, inr, List, [], ◌∷◌, Option, none, some, map,
  take, take_all, All, All-take, arith, length, ltb, Bool-cases,
}
use mcp_searxng.Text.{Str, str, str_eq_iff}
use mcp_searxng.Text.Utf8.{encode}
use mcp_searxng.Text.Utf8.RoundTrip.{IsScalar}
use mcp_searxng.Packages.{Url, Clock}
use mcp_searxng.Domain.{SearchResult}
use mcp_searxng.Searxng.Wire.{
  Json, RawSearchResult, RawSearchResponse, date_of, result_to_domain, response_to_domain,
}
use mcp_searxng.Handlers.Sanitize.{sanitize_output, sanitize_output_ptr}
use mcp_searxng.Handlers.Sanitize.Exact.{IsOutputSafe, sanitize_output_clean}
use mcp_searxng.Handlers.Tools.Types.{SearchResultItem}
use mcp_searxng.Handlers.Tools.Output.{
  format_date, sanitize_url, sanitize_img_src, truncate, result_item, build_output,
}

-- Well-formed UTF-8 of plain runes, tabs and line breaks.
abbrev pub IsClean : Str → Type 0
IsClean s = (rs : List ℕ) × ((s ≡ encode rs) × All IsScalar rs × All IsOutputSafe rs)

-- A link of http or https that net/url writes as it reads it.
abbrev pub IsWeb : Url → Str → Type 0
IsWeb U s =
    (u : U.Parsed) × ((U.parse s ≡ some u)
      × (U.to_string u ≡ s)
      × ((U.scheme u ≡ str "http") ⊎ (U.scheme u ≡ str "https")))

abbrev OrNone : (Str → Type 0) → Option Str → Type 0
OrNone P none = Unit
OrNone P (some s) = P s

-- A result with clean texts and web links.
abbrev pub IsCleanResult : Url → RawSearchResult → Type 0
IsCleanResult U r =
    IsClean r.title
    × IsWeb U r.url
    × IsClean r.content
    × IsClean r.engine
    × IsClean r.category
    × OrNone (IsWeb U) r.img_src
    × OrNone IsClean r.source

-- A result of the output with the fields as they came over the wire.
abbrev pub verbatim : Clock → RawSearchResult → SearchResultItem
verbatim T r = record {
  title = r.title;
  url = r.url;
  content = r.content;
  engine = r.engine;
  category = r.category;
  published_date = date_of r.published_date r.pub_date;
  formatted_date = format_date T (date_of r.published_date r.pub_date);
  img_src = r.img_src;
  source = r.source;
}

-- The first elements, or all.
abbrev pub first : {A : Type 0} → Option ℕ → List A → List A
first none xs = xs
first (some n) xs = take n xs

truncate-first : (m : Option ℕ) (rs : List SearchResult) → truncate m rs ≡ first m rs
unfolding truncate
truncate-first none rs = refl
truncate-first (some n) rs = elim (Bool-cases (ltb n (length rs))) [
  | inl e ↦ rw e
  | inr e ↦ rw e (sym (take_all n rs (ground (arith, e))))
]

take-map : {A B : Type 0} (f : A → B) (n : ℕ) (xs : List A) → take n (map f xs) ≡ map f (take n xs)
take-map f zero xs = refl
take-map f (suc n) [] = refl
take-map f (suc n) (x ∷ xs) = ap (◌∷◌ (f x)) (take-map f n xs)

first-map :
    {A B : Type 0} (f : A → B) (m : Option ℕ) (xs : List A)
    → first m (map f xs) ≡ map f (first m xs)
first-map f none xs = refl
first-map f (some n) xs = take-map f n xs

All-first :
    {A : Type 0} (P : A → Type 0) (m : Option ℕ) (xs : List A) → All P xs → All P (first m xs)
All-first P none xs h = h
All-first P (some n) xs h = All-take P n xs h

clean_kept : (s : Str) → IsClean s → sanitize_output s ≡ s
clean_kept s (rs, (same, scalars, safe)) = rw same (sanitize_output_clean rs scalars safe)

source_kept : (o : Option Str) → OrNone IsClean o → sanitize_output_ptr o ≡ o
unfolding sanitize_output_ptr
source_kept none h = refl
source_kept (some s) h = ap some (clean_kept s h)

module _ (U : Url) where
  web_kept : (s : Str) → IsWeb U s → sanitize_url U s ≡ s
  unfolding sanitize_url
  web_kept s (u, (parsed, written, scheme)) = ground (
    arith,
    parsed,
    written,
    scheme,
    str_eq_iff s [],
    str_eq_iff (U.scheme u) (str "http"),
    str_eq_iff (U.scheme u) (str "https"),
  )

  image_kept : (o : Option Str) → OrNone (IsWeb U) o → sanitize_img_src U o ≡ o
  unfolding sanitize_img_src
  image_kept none h = refl
  image_kept (some s) (u, (parsed, written, scheme)) = ground (
    arith,
    parsed,
    scheme,
    str_eq_iff (U.scheme u) [],
    str_eq_iff (U.scheme u) (str "http"),
    str_eq_iff (U.scheme u) (str "https"),
    str_eq_iff (U.scheme u) (str "data"),
  )

module _ (U : Url) (T : Clock) where
  result_item-verbatim :
      (r : RawSearchResult)
      → IsCleanResult U r
      → result_item U T (result_to_domain r) ≡ verbatim T r
  unfolding result_item result_to_domain
  result_item-verbatim r (title, url, content, engine, category, image, source) = λ i. record {
    title = clean_kept r.title title i;
    url = web_kept U r.url url i;
    content = clean_kept r.content content i;
    engine = clean_kept r.engine engine i;
    category = clean_kept r.category category i;
    published_date = date_of r.published_date r.pub_date;
    formatted_date = format_date T (date_of r.published_date r.pub_date);
    img_src = image_kept U r.img_src image i;
    source = source_kept r.source source i;
  }

  all_verbatim :
      (rs : List RawSearchResult)
      → All (IsCleanResult U) rs
      → map (result_item U T) (map result_to_domain rs) ≡ map (verbatim T) rs
  all_verbatim [] h = refl
  all_verbatim (r ∷ rs) (clean, h) = ap₂ ◌∷◌ (result_item-verbatim r clean) (all_verbatim rs h)

  -- Where the results of SearXNG have clean texts and web links, the output of a search has the first of
  -- them, up to the maximum, in order, each with its fields as they came over the wire and with its date
  -- formatted.
  pub results_verbatim :
      (json : Json) (r : RawSearchResponse) (m : Option ℕ)
      → All (IsCleanResult U) r.results
      → (build_output U T (response_to_domain json r) m).results
        ≡ map (verbatim T) (first m r.results)
  unfolding build_output response_to_domain
  results_verbatim json r m clean =
      ap (map (result_item U T))
        (truncate-first m (map result_to_domain r.results) ∙ first-map result_to_domain m r.results)
      ∙ all_verbatim (first m r.results) (All-first (IsCleanResult U) m r.results clean)
