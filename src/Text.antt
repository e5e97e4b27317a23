-- ===== src/Text.antt =====
-- Go strings and the functions of Go's `strings`, `strconv`, `unicode/utf8` and `net` packages that
-- the program calls on them. A string is the list of its bytes.
pub mod Utf8
pub mod Search
pub mod HostPort
pub mod Trim
pub mod Decimal
use Prim.Native.Char.{code}
use mcp_searxng.Prelude.{
  ℕ, suc, String, ◌≡◌, ◌↔◌, refl, Bool, true, false, ◌&&◌, List, [], ◌∷◌, ◌++◌, Option, none, some,
  arith, ◌==◌, if◌then◌else◌,
}
use mathlib.Core.Option

abbrev pub Str : Type 0
Str = List ℕ

-- A literal of the source, all of them ASCII: its code points are its bytes.
abbrev pub str : String → Str
str String.[] = []
str (String.◌∷◌ c s) = code c ∷ str s

-- `s == t`
unfoldable pub str_eq : Str → Str → Bool
str_eq [] [] = true
str_eq [] (c ∷ t) = false
str_eq (b ∷ s) [] = false
str_eq (b ∷ s) (c ∷ t) = b == c && str_eq s t

pub str_eq_iff : (s t : Str) → (str_eq s t ≡ true) ↔ (s ≡ t)
unfolding str_eq
str_eq_iff [] [] = ground arith
str_eq_iff [] (c ∷ t) = ground arith
str_eq_iff (b ∷ s) [] = ground arith
str_eq_iff (b ∷ s) (c ∷ t) = ground (arith, str_eq_iff s t)

pub str_eq_refl : (s : Str) → str_eq s s ≡ true
str_eq_refl s = (str_eq_iff s s).1 refl

-- strings.HasPrefix
unfoldable pub has_prefix : Str → Str → Bool
has_prefix [] s = true
has_prefix (c ∷ p) [] = false
has_prefix (c ∷ p) (d ∷ s) = c == d && has_prefix p s

-- strings.IndexByte; `none` is -1.
unfoldable pub index_byte : ℕ → Str → Option ℕ
index_byte c [] = none
index_byte c (b ∷ s) = if b == c then some 0 else Option.map suc (index_byte c s)

-- strings.LastIndexByte; `none` is -1.
unfoldable pub last_index_byte : ℕ → Str → Option ℕ
last_index_byte c [] = none
last_index_byte c (b ∷ s) = elim (last_index_byte c s) [
  | some i ↦ some (suc i)
  | none ↦ if b == c then some 0 else none
]

-- strings.Contains of one byte, and `s[0] == c`.
abbrev pub contains_byte : ℕ → Str → Bool
contains_byte c s = elim (index_byte c s) [ none ↦ false | some i ↦ true ]

abbrev pub begins_with : ℕ → Str → Bool
begins_with c [] = false
begins_with c (b ∷ s) = b == c

-- strings.Join of two or more parts with "."
unfoldable pub join_dot : List Str → Str
join_dot [] = []
join_dot (s ∷ []) = s
join_dot (s ∷ t ∷ ss) = s ++ b'.' ∷ join_dot (t ∷ ss)
