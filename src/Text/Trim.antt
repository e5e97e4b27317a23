-- ===== src/Text/Trim.antt =====
-- strings.TrimSpace and bytes.TrimLeftFunc(…, unicode.IsSpace).
pub mod Laws
use mcp_searxng.Prelude.{
  ℕ, zero, suc, ◌-◌, Bool, ◌||◌, ◌&&◌, List, [], ◌∷◌, ◌++◌, leb, ◌==◌, if◌then◌else◌, take, reverse,
}
use mcp_searxng.Text.{Str}
use mcp_searxng.Text.Utf8.{decode_rune}

-- unicode.IsSpace
pub is_space : ℕ → Bool
is_space r =
    leb 0x09 r && leb r 0x0D
    || r == 0x20
    || r == 0x85
    || r == 0xA0
    || r == 0x1680
    || leb 0x2000 r && leb r 0x200A
    || r == 0x2028
    || r == 0x2029
    || r == 0x202F
    || r == 0x205F
    || r == 0x3000

-- A string cut into its runes, each with its bytes.
pieces_from : ℕ → Str → List (ℕ × Str)
pieces_from skip [] = []
pieces_from zero (b ∷ s) =
    ((decode_rune b s).0, take (decode_rune b s).1 (b ∷ s))
    ∷ pieces_from ((decode_rune b s).1 - 1) s
pieces_from (suc skip) (b ∷ s) = pieces_from skip s

drop_space : List (ℕ × Str) → List (ℕ × Str)
drop_space [] = []
drop_space ((r, bytes) ∷ ps) = if is_space r then drop_space ps else (r, bytes) ∷ ps

joined : List (ℕ × Str) → Str
joined [] = []
joined ((r, bytes) ∷ ps) = bytes ++ joined ps

-- strings.TrimLeftFunc(s, unicode.IsSpace)
unfoldable pub trim_left_space : Str → Str
unfolding is_space pieces_from drop_space joined decode_rune
trim_left_space s = joined (drop_space (pieces_from zero s))

-- strings.TrimSpace
unfoldable pub trim_space : Str → Str
unfolding is_space pieces_from drop_space joined decode_rune
trim_space s = joined (reverse (drop_space (reverse (drop_space (pieces_from zero s)))))
