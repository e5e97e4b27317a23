-- ===== src/Text/Decimal.antt =====
-- strconv.Itoa
use mcp_searxng.Prelude.{
  ℕ, zero, suc, ◌+◌, ◌-◌, ◌*◌, ◌/◌, ◌%◌, ◌≤◌, ◌<◌, ◌≡◌, ◌≢◌, refl, ap, ◌∙◌, [], ◌∷◌, arith, All,
  ltb, if◌then◌else◌, Bool-cases, inl, inr,
}
use mcp_searxng.Prelude.Int.{ℤ, pos, negsuc}
use mcp_searxng.Text.{Str, str}

-- The digits of a number, before `out`. More fuel than the number is enough: each round divides it.
emit : ℕ → ℕ → Str → Str
emit zero n out = out
emit (suc fuel) n out =
    let rest = emit fuel (n / 10) ((b'0' + n % 10) ∷ out) in
    if ltb n 10 then (b'0' + n) ∷ out else rest

unfoldable pub itoa : ℤ → Str
unfolding emit
itoa (pos n) = emit (suc n) n []
itoa (negsuc n) = b'-' ∷ emit (suc (suc n)) (suc n) []

-- The number that digits spell, behind those that are already read.
pub value : ℕ → Str → ℕ
value n [] = n
value n (c ∷ s) = value (n * 10 + (c - b'0')) s

abbrev pub IsDigit : ℕ → Type 0
IsDigit c = (b'0' ≤ c) × (c ≤ b'9')

value-emit : (fuel n : ℕ) (out : Str) → n < fuel → value 0 (emit fuel n out) ≡ value n out
unfolding value emit
value-emit zero n out h = absurd (omega arith)
value-emit (suc fuel) n out h = elim (Bool-cases (ltb n 10)) [
  | inl small ↦ rw small (ap (λ (k : ℕ). value k out) (omega arith))
  | inr large ↦ rw large (
      value-emit fuel (n / 10) ((b'0' + n % 10) ∷ out) (ground arith)
      ∙ ap (λ (k : ℕ). value k out) (omega arith))
]

emit-IsDigit : (fuel n : ℕ) (out : Str) → All IsDigit out → All IsDigit (emit fuel n out)
unfolding emit
emit-IsDigit zero n out h = h
emit-IsDigit (suc fuel) n out h = ground (arith, emit-IsDigit fuel (n / 10) ((b'0' + n % 10) ∷ out))

-- The digits of a number spell it.
pub value-itoa : (n : ℕ) → value 0 (itoa (pos n)) ≡ n
unfolding itoa value
value-itoa n = value-emit (suc n) n [] (omega arith)

-- The digits of a number are digits only, so nothing in them has to be escaped.
pub itoa-IsDigit : (n : ℕ) → All IsDigit (itoa (pos n))
unfolding itoa
itoa-IsDigit n = emit-IsDigit (suc n) n [] tt

emit-ne-nil : (fuel n : ℕ) (out : Str) → out ≢ [] → emit fuel n out ≢ []
unfolding emit
emit-ne-nil zero n out h = h
emit-ne-nil (suc fuel) n out h = elim (Bool-cases (ltb n 10)) [
  | inl small ↦ rw small (λ e. cc)
  | inr large ↦ rw large (emit-ne-nil fuel (n / 10) ((b'0' + n % 10) ∷ out) (λ e. cc))
]

pub itoa-ne-nil : (n : ℕ) → itoa (pos n) ≢ []
unfolding itoa
itoa-ne-nil n = elim (Bool-cases (ltb n 10)) [
  | inl small ↦ rw small (λ e. cc)
  | inr large ↦ rw large (emit-ne-nil n (n / 10) ((b'0' + n % 10) ∷ []) (λ e. cc))
]

itoa_tests :
    (itoa (pos 0) ≡ str "0") × (itoa (pos 1024) ≡ str "1024") × (itoa (negsuc 41) ≡ str "-42")
unfolding itoa
itoa_tests = (refl, refl, refl)
