-- ===== src/Common/Int.antt =====
-- Signed numbers over the native ones: the sign is a constructor, so that `ground` splits on it.
use Prim.Native.Nat.{ℕ, zero, suc, ◌+◌, ◌≤◌}
use mathlib.Core.Path.{◌≡◌, refl}
use mathlib.Core.Bool.{Bool}
use native.Mathlib.Omega.{arith}
use poolstatis.Common.Tests.{leb, ltb}

-- `negsuc n` is -(n + 1).
pub data ℤ : Type 0 where
  pos : ℕ → ℤ
  negsuc : ℕ → ℤ

abbrev pub pos_part : ℤ → ℕ
pos_part (pos n) = n
pos_part (negsuc n) = 0

abbrev pub neg_part : ℤ → ℕ
neg_part (pos n) = 0
neg_part (negsuc n) = suc n

infix 50 ◌≤ℤ◌
abbrev pub ◌≤ℤ◌ : ℤ → ℤ → Type 0
a ≤ℤ b = pos_part a + neg_part b ≤ pos_part b + neg_part a

abbrev pub leb_ℤ : ℤ → ℤ → Bool
leb_ℤ a b = leb (pos_part a + neg_part b) (pos_part b + neg_part a)

abbrev pub ltb_ℤ : ℤ → ℤ → Bool
ltb_ℤ a b = ltb (pos_part a + neg_part b) (pos_part b + neg_part a)

-- `-n` of a natural number, `-a` and `Math.abs(a)`.
unfoldable pub minus : ℕ → ℤ
minus zero = pos zero
minus (suc n) = negsuc n

unfoldable pub negate : ℤ → ℤ
unfolding minus
negate (pos n) = minus n
negate (negsuc n) = pos (suc n)

unfoldable pub abs : ℤ → ℤ
abs (pos n) = pos n
abs (negsuc n) = pos (suc n)

pub minus_parts : (n : ℕ) → (pos_part (minus n) ≡ 0) × (neg_part (minus n) ≡ n)
unfolding minus
minus_parts zero = (refl, refl)
minus_parts (suc n) = (refl, refl)

pub negate_parts : (a : ℤ) → (pos_part (negate a) ≡ neg_part a) × (neg_part (negate a) ≡ pos_part a)
unfolding negate
negate_parts (pos n) = minus_parts n
negate_parts (negsuc n) = (refl, refl)

pub abs_parts : (a : ℤ) → (pos_part (abs a) ≡ pos_part a + neg_part a) × (neg_part (abs a) ≡ 0)
unfolding abs
abs_parts (pos n) = ground arith
abs_parts (negsuc n) = ground arith
