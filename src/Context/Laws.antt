-- ===== src/Context/Laws.antt =====
-- Request ids and their random bytes, and the context values of the two packages.
use mcp_searxng.Prelude.{
  ℕ, zero, suc, ◌+◌, ◌-◌, ◌*◌, ◌/◌, ◌%◌, ◌≤◌, ◌<◌, ◌≡◌, ◌⊎◌, refl, ap, List, [], ◌∷◌, arith, All,
  length, ltb, if◌then◌else◌, ap₂,
}
use mcp_searxng.Text.{Str}
use mcp_searxng.Context.{
  Context, with_request_id, request_id_from, with_client_ip, client_ip_from, hex_digit, hex_encode,
  request_id_bytes, make_bytes, read_random, new_request_id,
}

-- A lower-case hexadecimal digit.
abbrev pub IsHex : ℕ → Type 0
IsHex c = ((b'0' ≤ c) × (c ≤ b'9')) ⊎ ((b'a' ≤ c) × (c ≤ b'f'))

abbrev pub IsByte : ℕ → Type 0
IsByte b = b < 256

-- The bytes that a hexadecimal text stands for.
unfoldable pub read_hex : ℕ → ℕ
read_hex c = if ltb c b'a' then c - b'0' else c - b'a' + 10

unfoldable pub read_bytes : Str → List ℕ
read_bytes [] = []
read_bytes (c ∷ []) = []
read_bytes (c ∷ d ∷ s) = (read_hex c * 16 + read_hex d) ∷ read_bytes s

read_hex_digit : (d : ℕ) → d < 16 → read_hex (hex_digit d) ≡ d
unfolding read_hex hex_digit
read_hex_digit d h = ground arith

hex_digit-IsHex : (d : ℕ) → d < 16 → IsHex (hex_digit d)
unfolding hex_digit
hex_digit-IsHex d h = ground arith

-- The text of some bytes has two lower-case hexadecimal digits for each, and nothing else.
pub hex_encode-IsHex :
    (bs : List ℕ)
    → All IsByte bs
    → All IsHex (hex_encode bs) × (length (hex_encode bs) ≡ length bs * 2)
unfolding hex_encode
hex_encode-IsHex [] h = (tt, refl)
hex_encode-IsHex (b ∷ bs) (h, hs) =
    let (hex, size) = hex_encode-IsHex bs hs in
    ((hex_digit-IsHex _ (omega arith), (hex_digit-IsHex _ (omega arith), hex)), omega (arith, size))

-- The bytes can be read back from their text, so the texts of different bytes are different.
pub read_bytes-hex_encode : (bs : List ℕ) → All IsByte bs → read_bytes (hex_encode bs) ≡ bs
unfolding hex_encode read_bytes
read_bytes-hex_encode [] h = refl
read_bytes-hex_encode (b ∷ bs) (h, hs) =
    ap₂ ◌∷◌
      (omega (arith, read_hex_digit (b / 16) (omega arith), read_hex_digit (b % 16) (omega arith)))
      (read_bytes-hex_encode bs hs)

make_bytes-IsByte : (n : ℕ) → All IsByte (make_bytes n) × (length (make_bytes n) ≡ n)
unfolding make_bytes
make_bytes-IsByte zero = (tt, refl)
make_bytes-IsByte (suc n) =
    let (bytes, size) = make_bytes-IsByte n in ((omega arith, bytes), omega (arith, size))

read_random-IsByte :
    (n : ℕ) (random : List ℕ)
    → All IsByte random
    → All IsByte (read_random (make_bytes n) random)
      × (length (read_random (make_bytes n) random) ≡ n)
unfolding read_random make_bytes
read_random-IsByte zero random h = (tt, refl)
read_random-IsByte (suc n) [] h = make_bytes-IsByte (suc n)
read_random-IsByte (suc n) (r ∷ random) (h, hs) =
    let (bytes, size) = read_random-IsByte n random hs in ((h, bytes), omega (arith, size))

-- A buffer is overwritten by as many bytes as it holds.
pub read_random_all : (n : ℕ) (bs : List ℕ) → length bs ≡ n → read_random (make_bytes n) bs ≡ bs
unfolding read_random make_bytes
read_random_all zero [] h = refl
read_random_all zero (b ∷ bs) h = absurd (omega (arith, h))
read_random_all (suc n) [] h = absurd (omega (arith, h))
read_random_all (suc n) (b ∷ bs) h = ap (◌∷◌ b) (read_random_all n bs (omega (arith, h)))

-- An id is a text of 32 lower-case hexadecimal digits.
pub new_request_id-IsHex :
    (random : List ℕ)
    → All IsByte random
    → All IsHex (new_request_id random) × (length (new_request_id random) ≡ 32)
unfolding new_request_id
new_request_id-IsHex random h =
    let (bytes, size) = read_random-IsByte request_id_bytes random h in
    let (hex, digits) = hex_encode-IsHex (read_random (make_bytes request_id_bytes) random) bytes in
    (hex, omega (arith, digits, size))

-- Each package reads what it stored last, whatever the other package stores afterwards.
pub context_values :
    (ctx : Context) (id ip : Str)
    → (request_id_from (with_client_ip (with_request_id ctx id) ip) ≡ id)
      × (client_ip_from (with_client_ip (with_request_id ctx id) ip) ≡ ip)
      × (client_ip_from (with_request_id ctx id) ≡ client_ip_from ctx)
      × (request_id_from (with_client_ip ctx ip) ≡ request_id_from ctx)
unfolding with_request_id request_id_from with_client_ip client_ip_from
context_values ctx id ip = (refl, refl, refl, refl)
