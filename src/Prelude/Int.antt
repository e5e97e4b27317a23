-- ===== src/Prelude/Int.antt =====
-- Go's `int`: integers over the native numbers, under the library's names (its ℤ stands on the
-- unary ℕ), and the wrap-around of the 64-bit type.
use Prim.Native.Nat.{ℕ, suc, ◌+◌, ◌-◌, ◌*◌, ◌%◌, ◌^◌, ◌≤◌}
use mathlib.Core.Bool.{Bool}
use mcp_searxng.Prelude.Tests.{ltb, leb, if◌then◌else◌}

-- `negsuc n` is -(n + 1).
pub data ℤ : Type 0 where
  pos : ℕ → ℤ
  negsuc : ℕ → ℤ

abbrev pub pos_part : ℤ → ℕ
pos_part (pos n) = n
pos_part (negsuc n) = 0

abbrev pub neg_part : ℤ → ℕ
neg_part (pos n) = 0
neg_part (negsuc n) = suc n

infix 50 ◌≤ℤ◌
abbrev pub ◌≤ℤ◌ : ℤ → ℤ → Type 0
a ≤ℤ b = pos_part a + neg_part b ≤ pos_part b + neg_part a

unfoldable pub leb_ℤ : ℤ → ℤ → Bool
leb_ℤ a b = leb (pos_part a + neg_part b) (pos_part b + neg_part a)

unfoldable pub ltb_ℤ : ℤ → ℤ → Bool
ltb_ℤ a b = ltb (pos_part a + neg_part b) (pos_part b + neg_part a)

-- The 64-bit integer with the given bits: `b` stands for b, or for b - 2 ^ 64 from 2 ^ 63 on.
abbrev pub of_bits : ℕ → ℤ
of_bits b = if ltb b (2 ^ 63) then pos b else negsuc (2 ^ 64 - 1 - b)

-- `2 * a` in Go's `int`, with its wrap-around.
unfoldable pub double64 : ℤ → ℤ
double64 (pos n) = of_bits (n * 2 % 2 ^ 64)
double64 (negsuc n) = of_bits ((2 ^ 64 - (n + 1) * 2 % 2 ^ 64) % 2 ^ 64)
