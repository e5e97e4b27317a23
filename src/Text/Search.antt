-- ===== src/Text/Search.antt =====
-- Finding a byte in a string.
use mcp_searxng.Prelude.{ℕ, ◌≡◌, ◌≢◌, refl, [], ◌∷◌, ◌++◌, none, some, arith, All, length, false}
use mcp_searxng.Text.{Str, index_byte, last_index_byte, contains_byte}

abbrev pub Lacks : ℕ → Str → Type 0
Lacks c = All (λ b. b ≢ c)

pub index_byte_of_Lacks : (c : ℕ) (s : Str) → Lacks c s → index_byte c s ≡ none
unfolding index_byte
index_byte_of_Lacks c [] h = refl
index_byte_of_Lacks c (b ∷ s) (h, hs) = ground (arith, index_byte_of_Lacks c s hs)

-- The first occurrence stands behind what lacks the byte.
pub index_byte-append :
    (c : ℕ) (s t : Str) → Lacks c s → index_byte c (s ++ c ∷ t) ≡ some (length s)
unfolding index_byte
index_byte-append c [] t h = ground arith
index_byte-append c (b ∷ s) t (h, hs) = ground (arith, index_byte-append c s t hs)

pub last_index_byte_of_Lacks : (c : ℕ) (s : Str) → Lacks c s → last_index_byte c s ≡ none
unfolding last_index_byte
last_index_byte_of_Lacks c [] h = refl
last_index_byte_of_Lacks c (b ∷ s) (h, hs) = ground (arith, last_index_byte_of_Lacks c s hs)

-- The last occurrence stands before what lacks the byte.
pub last_index_byte-append :
    (c : ℕ) (s t : Str) → Lacks c t → last_index_byte c (s ++ c ∷ t) ≡ some (length s)
unfolding last_index_byte
last_index_byte-append c [] t h = ground (arith, last_index_byte_of_Lacks c t h)
last_index_byte-append c (b ∷ s) t h = ground (arith, last_index_byte-append c s t h)

pub contains_byte_of_Lacks : (c : ℕ) (s : Str) → Lacks c s → contains_byte c s ≡ false
contains_byte_of_Lacks c s h = ground (arith, index_byte_of_Lacks c s h)
