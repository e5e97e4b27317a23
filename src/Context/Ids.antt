-- ===== src/Context/Ids.antt =====
-- The ids of requestid/requestid.go, and the buffers of random bytes that they are made of.
use mathlib.Core.HLevel.{Σ_prop_path, ×_prop}
use mathlib.Core.Equiv.{IsEquiv, iso_to_equiv}
use native.Mathlib.Bridge.{le_prop}
use native.Mathlib.Nat.{ℕ_set}
use mcp_searxng.Prelude.{
  ℕ, zero, suc, ◌+◌, ◌*◌, ◌/◌, ◌%◌, ◌<◌, ◌≡◌, inl, inr, refl, List, [], ◌∷◌, arith, All, length, ap,
  ◌∙◌,
}
use mcp_searxng.Text.{Str}
use mcp_searxng.Context.{hex_digit, hex_encode, new_request_id}
use mcp_searxng.Context.Laws.{
  IsHex, IsByte, read_hex, read_bytes, new_request_id-IsHex, read_bytes-hex_encode, read_random_all,
}

module _ {A : Type 0} {P : A → Type 0} (h : (x : A) → IsProp (P x)) where
  All-prop : (xs : List A) → IsProp (All P xs)
  All-prop [] = λ u v. refl
  All-prop (x ∷ xs) = ×_prop (h x) (All-prop xs)

IsHex-prop : (c : ℕ) → IsProp (IsHex c)
IsHex-prop c (inl a) (inl b) = ap inl (×_prop le_prop le_prop a b)
IsHex-prop c (inl a) (inr b) = absurd (omega (arith, a, b))
IsHex-prop c (inr a) (inl b) = absurd (omega (arith, a, b))
IsHex-prop c (inr a) (inr b) = ap inr (×_prop le_prop le_prop a b)

-- A buffer of n bytes.
abbrev pub Buffer : ℕ → Type 0
Buffer n = (bs : List ℕ) × (All IsByte bs × (length bs ≡ n))

-- A text of n lower-case hexadecimal digits.
abbrev pub HexText : ℕ → Type 0
HexText n = (s : Str) × (All IsHex s × (length s ≡ n))

read_hex-IsByte : (c d : ℕ) → IsHex c → IsHex d → read_hex c * 16 + read_hex d < 256
unfolding read_hex
read_hex-IsByte c d hc hd = ground arith

read_bytes-length :
    (n : ℕ) (s : Str)
    → All IsHex s
    → length s ≡ n * 2
    → All IsByte (read_bytes s) × (length (read_bytes s) ≡ n)
unfolding read_bytes
read_bytes-length n [] h size = (tt, omega (arith, size))
read_bytes-length n (c ∷ []) h size = absurd (omega (arith, size))
read_bytes-length zero (c ∷ d ∷ s) h size = absurd (omega (arith, size))
read_bytes-length (suc n) (c ∷ d ∷ s) (hc, (hd, h)) size =
    let (bytes, count) = read_bytes-length n s h (omega (arith, size)) in
    ((read_hex-IsByte c d hc hd, bytes), omega (arith, count))

read_hex_lt : (c : ℕ) → IsHex c → read_hex c < 16
unfolding read_hex
read_hex_lt c h = ground arith

hex_digit-read_hex : (c : ℕ) → IsHex c → hex_digit (read_hex c) ≡ c
unfolding hex_digit read_hex
hex_digit-read_hex c h = ground arith

hex_encode-read_bytes :
    (n : ℕ) (s : Str) → All IsHex s → length s ≡ n * 2 → hex_encode (read_bytes s) ≡ s
unfolding hex_encode read_bytes
hex_encode-read_bytes n [] h size = refl
hex_encode-read_bytes n (c ∷ []) h size = absurd (omega (arith, size))
hex_encode-read_bytes zero (c ∷ d ∷ s) h size = absurd (omega (arith, size))
hex_encode-read_bytes (suc n) (c ∷ d ∷ s) (hc, (hd, h)) size =
    let high : (read_hex c * 16 + read_hex d) / 16 ≡ read_hex c = omega (arith, read_hex_lt d hd) in
    let low : (read_hex c * 16 + read_hex d) % 16 ≡ read_hex d = omega (arith, read_hex_lt d hd) in
    rw (high, low, hex_digit-read_hex c hc, hex_digit-read_hex d hd)
      (ap (λ t. c ∷ d ∷ t) (hex_encode-read_bytes n s h (omega (arith, size))))

-- The id that New makes where crypto/rand gives 16 bytes.
abbrev pub id_of : Buffer 16 → HexText 32
id_of (bs, (bytes, size)) = (new_request_id bs, new_request_id-IsHex bs bytes)

-- The buffer of an id.
abbrev buffer_of : HexText 32 → Buffer 16
buffer_of (s, (hex, size)) = (read_bytes s, read_bytes-length 16 s hex size)

-- With 16 bytes of crypto/rand, all of which it uses.
new_request_id_lem : (bs : List ℕ) → length bs ≡ 16 → new_request_id bs ≡ hex_encode bs
unfolding new_request_id
new_request_id_lem bs size = ap hex_encode (read_random_all 16 bs size)

-- New is an equivalence of the buffers of 16 random bytes and the texts of 32 lower-case hexadecimal
-- digits: each such text is the id of exactly one buffer, so no random bit is lost.
pub id_of-IsEquiv : IsEquiv id_of
id_of-IsEquiv =
    (iso_to_equiv record {
      fun = id_of;
      inv = buffer_of;
      rinv = λ (s, (hex, size)).
          Σ_prop_path (λ t. ×_prop (All-prop IsHex-prop t) (ℕ_set _ _))
            (new_request_id_lem (read_bytes s) (read_bytes-length 16 s hex size).1
              ∙ hex_encode-read_bytes 16 s hex size);
      linv = λ (bs, (bytes, size)).
          Σ_prop_path (λ t. ×_prop (All-prop (λ b. le_prop) t) (ℕ_set _ _))
            (ap read_bytes (new_request_id_lem bs size) ∙ read_bytes-hex_encode bs bytes);
    }).1
