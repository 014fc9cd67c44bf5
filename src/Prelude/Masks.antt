-- ===== src/Prelude/Masks.antt =====
-- `x & mask` on unsigned words, for a mask of ones: the remainder by a power of two.
use Prim.Native.Nat.{
  ℕ, zero, suc, ◌+◌, ◌-◌, ◌*◌, ◌/◌, ◌%◌, ◌^◌, ◌≤◌, ◌<◌, min, bit_and, digits, bit_and-bitwise,
}
use mathlib.Core.Path.{◌≡◌, refl, ap, ◌∙◌}
use native.Mathlib.Nat.{div-add-mod', add-mul-mod_self_right, mod-eq_of_lt, mod-lt}
use native.Mathlib.Omega.{arith}

abbrev conjoin : ℕ → ℕ → ℕ → ℕ
conjoin fuel a b = digits (λ b. zero) min fuel a b

-- More fuel than the first operand needs changes nothing.
conjoin_enough : (f g a b : ℕ) → a ≤ f → a ≤ g → conjoin f a b ≡ conjoin g a b
conjoin_enough zero zero zero b p q = refl
conjoin_enough zero (suc g) zero b p q = refl
conjoin_enough (suc f) zero zero b p q = refl
conjoin_enough (suc f) (suc g) zero b p q = refl
conjoin_enough (suc f) (suc g) (suc a) b p q =
    omega (arith, conjoin_enough f g (suc a / 2) (b / 2) (omega arith) (omega arith))
conjoin_enough zero g (suc a) b p q = absurd (omega arith)
conjoin_enough (suc f) zero (suc a) b p q = absurd (omega arith)

zero-bit_and : (b : ℕ) → bit_and 0 b ≡ 0
zero-bit_and b = bit_and-bitwise 0 b

bit_and-halves : (a b : ℕ) → bit_and a b ≡ bit_and (a / 2) (b / 2) * 2 + min (a % 2) (b % 2)
bit_and-halves zero b = omega (arith, zero-bit_and b, zero-bit_and (b / 2))
bit_and-halves (suc a) b = omega (
  arith,
  bit_and-bitwise (suc a) b,
  bit_and-bitwise (suc a / 2) (b / 2),
  conjoin_enough a (suc a / 2) (suc a / 2) (b / 2) (omega arith) (omega arith),
)

bit_and-zero_below : (f a : ℕ) → a ≤ f → bit_and a 0 ≡ 0
bit_and-zero_below f zero h = refl
bit_and-zero_below zero (suc a) h = absurd (omega arith)
bit_and-zero_below (suc f) (suc a) h =
    omega (arith, bit_and-halves (suc a) 0, bit_and-zero_below f (suc a / 2) (omega arith))

pub pow-pos : (k : ℕ) → 0 < 2 ^ k
pow-pos zero = omega arith
pow-pos (suc k) = omega (arith, pow-pos k)

twice_product : (q m : ℕ) → q * (2 * m) ≡ 2 * (q * m)
twice_product q m = grind arith

-- The halves of a remainder.
mod-double : (a m : ℕ) → 0 < m → a % (2 * m) ≡ a / 2 % m * 2 + a % 2
mod-double a m h =
    ap (λ t. t % (2 * m)) (omega (arith, div-add-mod' (a / 2) m, twice_product (a / 2 / m) m))
    ∙ (add-mul-mod_self_right (a / 2 % m * 2 + a % 2) (a / 2 / m) (2 * m)
        ∙ mod-eq_of_lt (omega (arith, mod-lt (a / 2) h)))

pow_double : (k : ℕ) → 2 ^ suc k ≡ 2 * 2 ^ k
pow_double k = omega arith

mask_half : (k : ℕ) → (2 ^ suc k - 1) / 2 ≡ 2 ^ k - 1
mask_half k = omega (arith, pow-pos k)

pub bit_and-mask : (k a : ℕ) → bit_and a (2 ^ k - 1) ≡ a % 2 ^ k
bit_and-mask zero a = omega (arith, bit_and-zero_below a a (omega arith))
bit_and-mask (suc k) a = omega (
  arith,
  pow-pos k,
  bit_and-halves a (2 ^ suc k - 1),
  mod-double a (2 ^ k) (pow-pos k),
  bit_and-mask k (a / 2),
  ap (bit_and (a / 2)) (mask_half k),
  ap (λ (t : ℕ). a % t) (pow_double k),
)
