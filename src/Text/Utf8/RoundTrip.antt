-- ===== src/Text/Utf8/RoundTrip.antt =====
-- Encoding and decoding UTF-8.
use mcp_searxng.Prelude.{
  ℕ, zero, suc, ◌+◌, ◌-◌, ◌/◌, ◌%◌, ◌≤◌, ◌<◌, ◌≡◌, refl, ap, ◌∙◌, ◌⊎◌, List, [], ◌∷◌, ◌++◌, arith,
  All,
}
use mcp_searxng.Text.Utf8.{
  decode_rune, two_bytes, three_bytes, four_bytes, runes_from, runes, encode_rune, encode,
}

-- A Unicode scalar value: no surrogate, and at most U+10FFFF.
abbrev pub IsScalar : ℕ → Type 0
IsScalar r = (r < 0xD800) ⊎ ((0xE000 ≤ r) × (r ≤ 0x10FFFF))

two_bytes-IsScalar : (b : ℕ) (s : List ℕ) → b < 0xE0 → IsScalar (two_bytes b s).0
unfolding two_bytes
two_bytes-IsScalar b [] h = ground arith
two_bytes-IsScalar b (c ∷ s) h = ground arith

three_bytes-IsScalar : (b : ℕ) (s : List ℕ) → b < 0xF0 → IsScalar (three_bytes b s).0
unfolding three_bytes
three_bytes-IsScalar b [] h = ground arith
three_bytes-IsScalar b (c ∷ []) h = ground arith
three_bytes-IsScalar b (c ∷ d ∷ s) h = ground arith

four_bytes-IsScalar : (b : ℕ) (s : List ℕ) → 0xF0 ≤ b → b < 0xF5 → IsScalar (four_bytes b s).0
unfolding four_bytes
four_bytes-IsScalar b [] h k = ground arith
four_bytes-IsScalar b (c ∷ []) h k = ground arith
four_bytes-IsScalar b (c ∷ d ∷ []) h k = ground arith
four_bytes-IsScalar b (c ∷ d ∷ e ∷ s) h k = ground arith

decode_rune-IsScalar : (b : ℕ) (s : List ℕ) → IsScalar (decode_rune b s).0
unfolding decode_rune
decode_rune-IsScalar b s =
    ground (arith, two_bytes-IsScalar b s, three_bytes-IsScalar b s, four_bytes-IsScalar b s)

runes_from-IsScalar : (skip : ℕ) (s : List ℕ) → All IsScalar (runes_from skip s)
unfolding runes_from
runes_from-IsScalar zero [] = tt
runes_from-IsScalar (suc skip) [] = tt
runes_from-IsScalar zero (b ∷ s) =
    (decode_rune-IsScalar b s, runes_from-IsScalar ((decode_rune b s).1 - 1) s)
runes_from-IsScalar (suc skip) (b ∷ s) = runes_from-IsScalar skip s

-- Whatever the bytes, the runes of a string are Unicode scalar values.
pub runes-IsScalar : (s : List ℕ) → All IsScalar (runes s)
unfolding runes
runes-IsScalar s = runes_from-IsScalar zero s

-- Each form of a rune is read back, with its width.
decode_two :
    (r : ℕ) (s : List ℕ)
    → 0x80 ≤ r
    → r < 0x800
    → decode_rune (0xC0 + r / 64) ((0x80 + r % 64) ∷ s) ≡ (r, 2)
unfolding decode_rune two_bytes
decode_two r s h k = ground arith

decode_three :
    (r : ℕ) (s : List ℕ)
    → IsScalar r
    → 0x800 ≤ r
    → r < 0x10000
    → decode_rune (0xE0 + r / 4096) ((0x80 + r / 64 % 64) ∷ (0x80 + r % 64) ∷ s) ≡ (r, 3)
unfolding decode_rune three_bytes
decode_three r s h k l = ground arith

decode_four :
    (r : ℕ) (s : List ℕ)
    → 0x10000 ≤ r
    → r ≤ 0x10FFFF
    → decode_rune
        (0xF0 + r / 262144)
        ((0x80 + r / 4096 % 64) ∷ (0x80 + r / 64 % 64) ∷ (0x80 + r % 64) ∷ s)
      ≡ (r, 4)
unfolding decode_rune four_bytes
decode_four r s h k = ground arith

decode_one : (r : ℕ) (s : List ℕ) → r < 0x80 → decode_rune r s ≡ (r, 1)
unfolding decode_rune
decode_one r s h = ground arith

-- The bytes of one rune are read back as that rune, whatever follows them.
runes-encode_rune :
    (r : ℕ) (s : List ℕ) → IsScalar r → runes_from zero (encode_rune r ++ s) ≡ r ∷ runes_from zero s
unfolding encode_rune runes_from
runes-encode_rune r s h =
    ground (arith, decode_one r s, decode_two r s, decode_three r s h, decode_four r s)

runes_from-encode : (rs : List ℕ) → All IsScalar rs → runes_from zero (encode rs) ≡ rs
unfolding encode runes_from
runes_from-encode [] h = refl
runes_from-encode (r ∷ rs) (h, hs) =
    runes-encode_rune r (encode rs) h ∙ ap (◌∷◌ r) (runes_from-encode rs hs)

-- Decoding an encoded sequence of scalar values gives it back.
pub runes-encode : (rs : List ℕ) → All IsScalar rs → runes (encode rs) ≡ rs
unfolding runes
runes-encode rs h = runes_from-encode rs h

-- An ASCII character is a rune of its own.
pub runes_ascii : (c : ℕ) (s : List ℕ) → c < 0x80 → runes (c ∷ s) ≡ c ∷ runes s
unfolding runes runes_from
runes_ascii c s h = ground (arith, decode_one c s h)
