-- ===== src/Assoc.antt =====
-- Go's `map[string]V`: an association list in which each key stands once.
use mcp_searxng.Prelude.{◌≡◌, refl, Bool, List, [], ◌∷◌, Option, none, some, arith, if◌then◌else◌}
use mcp_searxng.Text.{Str, str_eq, str_eq_iff}

module _ {ℓ} {V : Type ℓ} where
  -- `v, ok := m[k]`
  unfoldable pub lookup : Str → List (Str × V) → Option V
  lookup k [] = none
  lookup k ((j, v) ∷ m) = if str_eq j k then some v else lookup k m

  -- `m[k] = v`
  unfoldable pub put : Str → V → List (Str × V) → List (Str × V)
  put k v [] = (k, v) ∷ []
  put k v ((j, w) ∷ m) = if str_eq j k then (k, v) ∷ m else (j, w) ∷ put k v m

  -- `for k, v := range m { if !p(k, v) { delete(m, k) } }`
  unfoldable pub retain : (Str → V → Bool) → List (Str × V) → List (Str × V)
  retain p [] = []
  retain p ((k, v) ∷ m) = let rest = retain p m in if p k v then (k, v) ∷ rest else rest

  -- Each key stands once.
  abbrev pub IsMap : List (Str × V) → Type ℓ
  IsMap [] = Unit
  IsMap ((k, v) ∷ m) = (lookup k m ≡ none) × IsMap m

  pub lookup-put :
      (k j : Str) (v : V) (m : List (Str × V))
      → lookup j (put k v m) ≡ (if str_eq k j then some v else lookup j m)
  unfolding lookup put
  lookup-put k j v [] = refl
  lookup-put k j v ((i, w) ∷ m) =
      ground (arith, str_eq_iff k j, str_eq_iff i k, str_eq_iff i j, lookup-put k j v m)

  pub put-IsMap : (k : Str) (v : V) (m : List (Str × V)) → IsMap m → IsMap (put k v m)
  unfolding put lookup
  put-IsMap k v [] h = (refl, tt)
  put-IsMap k v ((j, w) ∷ m) (fresh, h) =
      ground (arith, put-IsMap k v m h, lookup-put k j v m, str_eq_iff j k, str_eq_iff k j)

  abbrev pub kept : (V → Bool) → Option V → Option V
  kept p none = none
  kept p (some v) = if p v then some v else none

  retain-fresh :
      (p : Str → V → Bool) (k : Str) (m : List (Str × V))
      → lookup k m ≡ none
      → lookup k (retain p m) ≡ none
  unfolding lookup retain
  retain-fresh p k [] h = refl
  retain-fresh p k ((j, v) ∷ m) h = ground (arith, retain-fresh p k m)

  pub retain-IsMap : (p : Str → V → Bool) (m : List (Str × V)) → IsMap m → IsMap (retain p m)
  unfolding retain
  retain-IsMap p [] h = tt
  retain-IsMap p ((k, v) ∷ m) (fresh, h) =
      ground (arith, retain-IsMap p m h, retain-fresh p k m fresh)

  pub lookup-retain :
      (p : Str → V → Bool) (k : Str) (m : List (Str × V))
      → IsMap m
      → lookup k (retain p m) ≡ kept (p k) (lookup k m)
  unfolding lookup retain
  lookup-retain p k [] h = refl
  lookup-retain p k ((j, v) ∷ m) (fresh, h) =
      ground (arith, lookup-retain p k m h, str_eq_iff j k, retain-fresh p j m fresh)
