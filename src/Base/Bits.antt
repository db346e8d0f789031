-- ===== src/Base/Bits.antt =====
-- Laws of `|` and `^` on words: the lowest digit, halving, and bounds.
use Prim.Native.Nat.{
  ℕ, zero, suc, ◌+◌, ◌*◌, ◌/◌, ◌%◌, ◌^◌, ◌≤◌, ◌<◌, max, digits, differ, bit_or, bit_xor,
  bit_or-bitwise, bit_xor-bitwise,
}
use mathlib.Core.Path.{◌≡◌, refl, ap}
use native.Mathlib.Nat.{pow-suc, le_refl}
use native.Mathlib.Omega.{arith}

-- both operations keep the second number once the first has no digit left
module _ (f : ℕ → ℕ → ℕ) where
  abbrev over : ℕ → ℕ → ℕ → ℕ
  over rounds a b = digits (λ y. y) f rounds a b

  -- more rounds than the first number has digits change nothing
  over_rounds : (r s a b : ℕ) → a ≤ r → a ≤ s → over r a b ≡ over s a b
  over_rounds zero zero a b h k = refl
  over_rounds zero (suc s) zero b h k = refl
  over_rounds zero (suc s) (suc a) b h k = absurd (omega arith)
  over_rounds (suc r) zero zero b h k = refl
  over_rounds (suc r) zero (suc a) b h k = absurd (omega arith)
  over_rounds (suc r) (suc s) zero b h k = refl
  over_rounds (suc r) (suc s) (suc a) b h k =
      ap (λ t. t * 2 + f (suc a % 2) (b % 2))
        (over_rounds r s (suc a / 2) (b / 2) (omega arith) (omega arith))

  -- the lowest digit split off
  over_low :
      (a b : ℕ)
      → f 0 (b % 2) ≡ b % 2
      → over a a b ≡ over (a / 2) (a / 2) (b / 2) * 2 + f (a % 2) (b % 2)
  over_low zero b keep = omega (arith, keep)
  over_low (suc a) b keep =
      ap (λ t. t * 2 + f (suc a % 2) (b % 2))
        (over_rounds a (suc a / 2) (suc a / 2) (b / 2) (omega arith) (le_refl _))

pub bit_or_low : (a b : ℕ) → bit_or a b ≡ bit_or (a / 2) (b / 2) * 2 + max (a % 2) (b % 2)
bit_or_low a b = simp bit_or-bitwise (over_low max a b (omega arith))

pub bit_xor_low : (a b : ℕ) → bit_xor a b ≡ bit_xor (a / 2) (b / 2) * 2 + differ (a % 2) (b % 2)
bit_xor_low a b = simp bit_xor-bitwise (over_low differ a b refl)

pub bit_or_half : (a b : ℕ) → bit_or a b / 2 ≡ bit_or (a / 2) (b / 2)
bit_or_half a b = omega (arith, bit_or_low a b)

pub bit_or_parity : (a b : ℕ) → bit_or a b % 2 ≡ max (a % 2) (b % 2)
bit_or_parity a b = omega (arith, bit_or_low a b)

differ-lt : (a b : ℕ) → a < 2 → b < 2 → differ a b < 2
differ-lt zero b h k = k
differ-lt (suc zero) zero h k = omega arith
differ-lt (suc zero) (suc zero) h k = omega arith
differ-lt (suc zero) (suc (suc b)) h k = absurd (omega arith)
differ-lt (suc (suc a)) b h k = absurd (omega arith)

-- `^` stays inside a width
pub bit_xor-lt : (k a b : ℕ) → a < 2 ^ k → b < 2 ^ k → bit_xor a b < 2 ^ k
bit_xor-lt zero a b h k =
    let z : a ≡ 0 = omega arith in let w : b ≡ 0 = omega arith in rw (z, w) (omega arith)
bit_xor-lt (suc k) a b h g = omega (
  arith,
  pow-suc 2 k,
  bit_xor_low a b,
  differ-lt (a % 2) (b % 2) (omega arith) (omega arith),
  bit_xor-lt k (a / 2) (b / 2) (omega (arith, pow-suc 2 k)) (omega (arith, pow-suc 2 k)),
)
