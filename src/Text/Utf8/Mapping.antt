-- ===== src/Text/Utf8/Mapping.antt =====
-- strings.Map with a mapping that keeps or drops each rune: what is kept, and what a second
-- pass changes.
use mcp_searxng.Prelude.{
  ℕ, ◌≡◌, refl, ap, ◌∙◌, ◌⊎◌, inl, inr, List, [], ◌∷◌, Option, none, some, All,
}
use mcp_searxng.Text.Utf8.{runes, encode, map_runes, map_string}
use mcp_searxng.Text.Utf8.RoundTrip.{IsScalar, runes-IsScalar, runes-encode}

-- `ys` is `xs` without the members for which `P` fails, and with all the others, in order.
pub data Kept (P : ℕ → Type 0) : List ℕ → List ℕ → Type 0 where
  nil : Kept P [] []
  keep : {x : ℕ} {xs ys : List ℕ} → P x → Kept P xs ys → Kept P (x ∷ xs) (x ∷ ys)
  drop : {x : ℕ} {xs ys : List ℕ} → ¬ P x → Kept P xs ys → Kept P (x ∷ xs) ys

-- A mapping that keeps a rune exactly where `P` holds.
abbrev pub Selects : (ℕ → Option ℕ) → (ℕ → Type 0) → Type 0
Selects f P = (r : ℕ) → ((f r ≡ some r) × P r) ⊎ ((f r ≡ none) × (¬ P r))

pub Kept-All : {P : ℕ → Type 0} {xs ys : List ℕ} → Kept P xs ys → All P ys
Kept-All nil = tt
Kept-All (keep p k) = (p, Kept-All k)
Kept-All (drop n k) = Kept-All k

module _ {P : ℕ → Type 0} (f : ℕ → Option ℕ) (selects : Selects f P) where
  map_runes-Kept : (rs : List ℕ) → Kept P rs (map_runes f rs)
  unfolding map_runes
  map_runes-Kept [] = nil
  map_runes-Kept (r ∷ rs) = elim (selects r) [
    | inl (e, p) ↦ rw (e, map_runes) (keep p (map_runes-Kept rs))
    | inr (e, n) ↦ rw (e, map_runes) (drop n (map_runes-Kept rs))
  ]

  map_runes_of_All : (rs : List ℕ) → All P rs → map_runes f rs ≡ rs
  unfolding map_runes
  map_runes_of_All [] h = refl
  map_runes_of_All (r ∷ rs) (p, h) = elim (selects r) [
    | inl (e, _) ↦ rw (e, map_runes) (ap (◌∷◌ r) (map_runes_of_All rs h))
    | inr (_, n) ↦ absurd (n p)
  ]

  map_runes-IsScalar : (rs : List ℕ) → All IsScalar rs → All IsScalar (map_runes f rs)
  unfolding map_runes
  map_runes-IsScalar [] h = tt
  map_runes-IsScalar (r ∷ rs) (p, h) = elim (selects r) [
    | inl (e, _) ↦ rw (e, map_runes) (p, map_runes-IsScalar rs h)
    | inr (e, _) ↦ rw (e, map_runes) (map_runes-IsScalar rs h)
  ]

  pub runes-map_string : (s : List ℕ) → runes (map_string f s) ≡ map_runes f (runes s)
  unfolding map_string
  runes-map_string s =
      runes-encode (map_runes f (runes s)) (map_runes-IsScalar (runes s) (runes-IsScalar s))

  -- The runes of the result are those of the string for which `P` holds.
  pub map_string-Kept : (s : List ℕ) → Kept P (runes s) (runes (map_string f s))
  map_string-Kept s = rw (runes-map_string s) (map_runes-Kept (runes s))

  pub map_string_idem : (s : List ℕ) → map_string f (map_string f s) ≡ map_string f s
  map_string_idem s =
      let settled =
        map_runes_of_All (map_runes f (runes s)) (Kept-All (map_runes-Kept (runes s))) in
      unfold map_string in
      (ap (λ (rs : List ℕ). encode (map_runes f rs)) (runes-map_string s) ∙ ap encode settled)

  -- A well-formed string of such runes is left as it is.
  pub map_string_of_All :
      (rs : List ℕ) → All IsScalar rs → All P rs → map_string f (encode rs) ≡ encode rs
  unfolding map_string
  map_string_of_All rs h p =
      ap (λ (qs : List ℕ). encode (map_runes f qs)) (runes-encode rs h)
      ∙ ap encode (map_runes_of_All rs p)
