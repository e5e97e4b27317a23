-- ===== src/Handlers/Observability/Mux.antt =====
-- net/http's ServeMux on patterns of an optional method and a path without wildcards.
use mcp_searxng.Prelude.{
  Bool, true, false, ◌&&◌, ◌||◌, List, [], ◌∷◌, Option, none, some, ltb, ◌==◌, length,
  if◌then◌else◌,
}
use mcp_searxng.Text.{Str, str, str_eq, has_prefix}

-- Where a request of a method and a clean path ends up; `none` is the mux's own reply, 404 or 405.
abbrev pub Router {ℓ} : Type ℓ → Type ℓ
Router T = Str → Str → Option T

abbrev pub always {ℓ} : {T : Type ℓ} → T → Router T
always t method path = some t

-- A registered pattern and its handler, which may be a mux again.
pub record Route {ℓ} (T : Type ℓ) : Type ℓ where
  pub method : Option Str
  pub path : Str
  pub target : Router T

-- GET takes HEAD as well; no method takes all.
unfoldable pub takes_method : Option Str → Str → Bool
takes_method none m = true
takes_method (some k) m = str_eq k m || str_eq k (str "GET") && str_eq m (str "HEAD")

-- A pattern that ends in a slash takes the whole subtree.
unfoldable pub is_subtree : Str → Bool
is_subtree [] = false
is_subtree (c ∷ []) = c == b'/'
is_subtree (c ∷ d ∷ s) = is_subtree (d ∷ s)

unfoldable pub takes_path : Str → Str → Bool
unfolding is_subtree
takes_path pattern path =
    if is_subtree pattern then has_prefix pattern path else str_eq pattern path

module _ {ℓ} {T : Type ℓ} where
  unfoldable pub takes : Route T → Str → Str → Bool
  unfolding takes_method takes_path
  takes r method path = takes_method r.method method && takes_path r.path path

  -- Of two patterns that take a path the one with the longer path is the more specific, and of two
  -- with the same path the one with a method.
  unfoldable pub is_more_specific : Route T → Route T → Bool
  is_more_specific r s =
      ltb (length s.path) (length r.path)
      || length s.path == length r.path && (elim r.method [ none ↦ false | some m ↦ true ])

  -- The most specific of the patterns that take a request.
  unfoldable pub best_route : List (Route T) → Str → Str → Option (Route T)
  unfolding takes is_more_specific
  best_route [] method path = none
  best_route (r ∷ rs) method path =
      let best = best_route rs method path in
      if takes r method path
      then (elim best [ none ↦ some r | some s ↦ if is_more_specific r s then some r else some s ])
      else best

  -- ServeMux.ServeHTTP
  unfoldable pub serve_mux : List (Route T) → Router T
  unfolding best_route
  serve_mux rs method path = elim (best_route rs method path) [
    | none ↦ none
    | some r ↦ r.target method path
  ]
