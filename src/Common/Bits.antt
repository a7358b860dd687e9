-- ===== src/Common/Bits.antt =====
-- `|` of a low field and a field above it, as a sum, at every width. The native operation stands
-- for a recursion on binary digits.
use Prim.Native.Nat.{
  ℕ, zero, suc, ◌+◌, ◌*◌, ◌/◌, ◌%◌, ◌^◌, ◌≤◌, ◌<◌, max, digits, bit_or, bit_or-bitwise,
}
use mathlib.Core.Path.{◌≡◌, refl, ap}
use native.Mathlib.Nat.{pow-suc, le_refl}
use native.Mathlib.Omega.{arith}

abbrev or_digits : ℕ → ℕ → ℕ → ℕ
or_digits = digits (λ y. y) max

-- Fuel beyond the first operand does not matter.
or_digits-enough : (m n a b : ℕ) → a ≤ m → a ≤ n → or_digits m a b ≡ or_digits n a b
or_digits-enough zero zero a b h k = refl
or_digits-enough (suc m) n zero b h k = at_zero n
  where
    at_zero : (j : ℕ) → b ≡ or_digits j 0 b
    at_zero zero = refl
    at_zero (suc j) = refl
or_digits-enough zero (suc n) zero b h k = refl
or_digits-enough zero (suc n) (suc a) b h k = absurd (omega arith)
or_digits-enough (suc m) zero (suc a) b h k = absurd (omega arith)
or_digits-enough (suc m) (suc n) (suc a) b h k =
    rw (or_digits-enough m n (suc a / 2) (b / 2) (omega arith) (omega arith))

-- The lowest digit of a disjunction.
pub bit_or_low : (a b : ℕ) → bit_or a b ≡ bit_or (a / 2) (b / 2) * 2 + max (a % 2) (b % 2)
bit_or_low zero b = rw (bit_or-bitwise 0 b, bit_or-bitwise (0 / 2) (b / 2)) (omega arith)
bit_or_low (suc a) b =
    rw (bit_or-bitwise (suc a) b, bit_or-bitwise (suc a / 2) (b / 2))
      (omega (arith, or_digits-enough a (suc a / 2) (suc a / 2) (b / 2) (omega arith) (le_refl _)))

pub zero-bit_or : (b : ℕ) → bit_or 0 b ≡ b
zero-bit_or b = bit_or-bitwise 0 b

double_pow : (q k : ℕ) → q * 2 ^ suc k ≡ q * 2 ^ k * 2
double_pow q k = omega (arith, ap (λ (t : ℕ). q * t) (pow-suc 2 k))

-- `low | (high << k)` is a sum when `low` fits `k` bits.
pub bit_or_above : (k low high : ℕ) → low < 2 ^ k → bit_or low (high * 2 ^ k) ≡ low + high * 2 ^ k
bit_or_above zero low high h = rw ((let e : low ≡ 0 = omega arith in e), zero-bit_or) (omega arith)
bit_or_above (suc k) low high h = ground (
  arith,
  bit_or_low low (high * 2 ^ suc k),
  double_pow high k,
  pow-suc 2 k,
  bit_or_above k (low / 2) high,
)
