-- ===== src/Searxng/Query.antt =====
-- `buildSearchQuery` of infrastructure/searxng/client.go, over net/url's Values.
pub mod RoundTrip
use mcp_searxng.Prelude.{
  ◌≡◌, refl, Bool, true, false, not, List, [], ◌∷◌, ◌++◌, arith, if◌then◌else◌,
}
use mcp_searxng.Prelude.Int.{ℤ, pos, ltb_ℤ}
use mcp_searxng.Text.{Str, str, str_eq, str_eq_iff}
use mcp_searxng.Text.Decimal.{itoa}
use mcp_searxng.Domain.{SearchParams}

-- url.Values: the values of each key, in order.
abbrev pub Values : Type 0
Values = List (Str × List Str)

-- v[key]; a missing key has no values.
pub values_of : Str → Values → List Str
values_of key [] = []
values_of key ((k, vs) ∷ rest) = if str_eq k key then vs else values_of key rest

-- Values.Set
pub set : Str → Str → Values → Values
set key v [] = (key, v ∷ []) ∷ []
set key v ((k, vs) ∷ rest) = if str_eq k key then (k, v ∷ []) ∷ rest else (k, vs) ∷ set key v rest

-- Values.Add
pub add : Str → Str → Values → Values
add key v [] = (key, v ∷ []) ∷ []
add key v ((k, vs) ∷ rest) =
    if str_eq k key then (k, vs ++ v ∷ []) ∷ rest else (k, vs) ∷ add key v rest

-- `for _, v := range vs { query.Add(key, v) }`
pub add_each : Str → List Str → Values → Values
add_each key [] query = query
add_each key (v ∷ vs) query = add_each key vs (add key v query)

-- buildSearchQuery
unfoldable pub build_search_query : SearchParams → Values
unfolding set add add_each
build_search_query params =
    let query : Values = [] in
    let query = if str_eq params.query [] then query else set (str "q") params.query query in
    let query = add_each (str "categories") params.categories query in
    let query =
      if str_eq params.language [] then query else set (str "language") params.language query in
    let query =
      if ltb_ℤ (pos 0) params.page then set (str "pageno") (itoa params.page) query else query in
    let query =
      if str_eq params.time_range []
      then query
      else set (str "time_range") params.time_range query in
    let query =
      if ltb_ℤ (pos 0) params.safe_search
      then set (str "safesearch") (itoa params.safe_search) query
      else query in
    set (str "format") (str "json") query
