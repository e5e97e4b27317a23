-- ===== src/Text/Utf8.antt =====
-- unicode/utf8: the runes of a string, and strings.Map over them.
pub mod RoundTrip
pub mod Mapping
pub mod Ascii
use mcp_searxng.Prelude.{
  ℕ, zero, suc, ◌+◌, ◌-◌, ◌*◌, ◌/◌, ◌%◌, Bool, ◌&&◌, ◌||◌, List, [], ◌∷◌, ◌++◌, Option, none, some,
  ltb, leb, ◌==◌, if◌then◌else◌,
}

-- utf8.RuneError, U+FFFD
abbrev pub rune_error : ℕ
rune_error = 0xFFFD

-- A byte that is not the first of its rune.
abbrev pub is_continuation : ℕ → Bool
is_continuation b = leb 0x80 b && leb b 0xBF

abbrev between : ℕ → ℕ → ℕ → Bool
between lo hi b = leb lo b && leb b hi

-- A bad sequence is one byte wide, and stands for utf8.RuneError.
abbrev bad : ℕ × ℕ
bad = (rune_error, 1)

two_bytes : ℕ → List ℕ → ℕ × ℕ
two_bytes b0 (b1 ∷ s) = if is_continuation b1 then ((b0 - 0xC0) * 64 + (b1 - 0x80), 2) else bad
two_bytes b0 [] = bad

three_bytes : ℕ → List ℕ → ℕ × ℕ
three_bytes b0 (b1 ∷ b2 ∷ s) =
    if between (if b0 == 0xE0 then 0xA0 else 0x80) (if b0 == 0xED then 0x9F else 0xBF) b1
      && is_continuation b2
    then ((b0 - 0xE0) * 4096 + (b1 - 0x80) * 64 + (b2 - 0x80), 3)
    else bad
three_bytes b0 _ = bad

four_bytes : ℕ → List ℕ → ℕ × ℕ
four_bytes b0 (b1 ∷ b2 ∷ b3 ∷ s) =
    if between (if b0 == 0xF0 then 0x90 else 0x80) (if b0 == 0xF4 then 0x8F else 0xBF) b1
      && is_continuation b2
      && is_continuation b3
    then ((b0 - 0xF0) * 262144 + (b1 - 0x80) * 4096 + (b2 - 0x80) * 64 + (b3 - 0x80), 4)
    else bad
four_bytes b0 _ = bad

-- utf8.DecodeRuneInString: the first rune and its width.
unfoldable pub decode_rune : ℕ → List ℕ → ℕ × ℕ
unfolding two_bytes three_bytes four_bytes
decode_rune b s =
    if ltb b 0x80
    then (b, 1)
    else if ltb b 0xC2
    then bad
    else if ltb b 0xE0
    then two_bytes b s
    else if ltb b 0xF0
    then three_bytes b s
    else if ltb b 0xF5
    then four_bytes b s
    else bad

-- `for _, r := range s`; the first argument counts the bytes of the last rune still to be passed.
pub runes_from : ℕ → List ℕ → List ℕ
runes_from skip [] = []
runes_from zero (b ∷ s) = (decode_rune b s).0 ∷ runes_from ((decode_rune b s).1 - 1) s
runes_from (suc skip) (b ∷ s) = runes_from skip s

unfoldable pub runes : List ℕ → List ℕ
unfolding runes_from decode_rune
runes = runes_from zero

-- utf8.AppendRune: what is no rune is written as utf8.RuneError.
pub encode_rune : ℕ → List ℕ
encode_rune r =
    if ltb r 0x80
    then r ∷ []
    else if ltb r 0x800
    then (0xC0 + r / 64) ∷ (0x80 + r % 64) ∷ []
    else if between 0xD800 0xDFFF r || ltb 0x10FFFF r
    then 0xEF ∷ 0xBF ∷ 0xBD ∷ []
    else if ltb r 0x10000
    then (0xE0 + r / 4096) ∷ (0x80 + r / 64 % 64) ∷ (0x80 + r % 64) ∷ []
    else (0xF0 + r / 262144) ∷ (0x80 + r / 4096 % 64) ∷ (0x80 + r / 64 % 64) ∷ (0x80 + r % 64) ∷ []

unfoldable pub encode : List ℕ → List ℕ
unfolding encode_rune
encode [] = []
encode (r ∷ rs) = encode_rune r ++ encode rs

-- The runes that a mapping keeps, mapped; `none` is a negative result.
pub map_runes : (ℕ → Option ℕ) → List ℕ → List ℕ
map_runes f [] = []
map_runes f (r ∷ rs) = elim (f r) [ none ↦ map_runes f rs | some q ↦ q ∷ map_runes f rs ]

-- strings.Map
unfoldable pub map_string : (ℕ → Option ℕ) → List ℕ → List ℕ
unfolding runes encode map_runes
map_string f s = encode (map_runes f (runes s))
