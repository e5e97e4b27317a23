-- ===== src/Text/Utf8/Ascii.antt =====
-- The ASCII bytes of a string, and its runes.
use mcp_searxng.Prelude.{ℕ, zero, suc, ◌-◌, ◌≤◌, ◌<◌, ◌≡◌, List, [], ◌∷◌, All, arith, subst}
use mcp_searxng.Text.Utf8.{decode_rune, runes_from, runes, two_bytes, three_bytes, four_bytes}

-- The bytes still to be passed are no ASCII.
abbrev Continues : ℕ → List ℕ → Type 0
Continues zero s = Unit
Continues (suc n) [] = Unit
Continues (suc n) (b ∷ s) = (0x80 ≤ b) × Continues n s

Continues-nil : (n : ℕ) → Continues n []
Continues-nil zero = tt
Continues-nil (suc n) = tt

decode_rune-Continues : (b : ℕ) (s : List ℕ) → Continues ((decode_rune b s).1 - 1) s
unfolding decode_rune two_bytes three_bytes four_bytes
decode_rune-Continues b [] = Continues-nil _
decode_rune-Continues b (b1 ∷ []) = ground arith
decode_rune-Continues b (b1 ∷ b2 ∷ []) = ground arith
decode_rune-Continues b (b1 ∷ b2 ∷ b3 ∷ s) = ground arith

decode_rune_ascii : (b : ℕ) (s : List ℕ) → b < 0x80 → (decode_rune b s).0 ≡ b
unfolding decode_rune
decode_rune_ascii b s h = ground arith

module _ (P : ℕ → Type 0) where
  All-runes_from :
      (n : ℕ) (s : List ℕ) → Continues n s → All P (runes_from n s) → All (λ b. b < 0x80 → P b) s
  unfolding runes_from
  All-runes_from n [] c h = tt
  All-runes_from zero (b ∷ s) c (first, rest) = (
    λ small. subst P (decode_rune_ascii b s small) first,
    All-runes_from ((decode_rune b s).1 - 1) s (decode_rune-Continues b s) rest,
  )
  All-runes_from (suc n) (b ∷ s) (large, c) h =
      (λ small. absurd (omega arith), All-runes_from n s c h)

  -- What holds of the runes of a string holds of its ASCII bytes.
  pub All-runes_ascii : (s : List ℕ) → All P (runes s) → All (λ b. b < 0x80 → P b) s
  unfolding runes
  All-runes_ascii s h = All-runes_from zero s tt h
