-- ===== src/Prelude/Words.antt =====
-- uint64_t arithmetic as native numbers: the wrap is written out.
use Prim.Native.Nat.{ℕ, ◌+◌, ◌-◌, ◌%◌, ◌^◌, ◌≤◌, ◌<◌}
use mathlib.Core.Path.{◌≡◌}
use native.Mathlib.Omega.{arith}

abbrev pub u64_mod : ℕ
u64_mod = 2 ^ 64

-- a + b and a - b on uint64_t.
unfoldable pub add64 : ℕ → ℕ → ℕ
add64 a b = (a + b) % u64_mod

unfoldable pub sub64 : ℕ → ℕ → ℕ
sub64 a b = (a + u64_mod - b % u64_mod) % u64_mod

-- A counter that stands for a sum modulo 2 ^ 64 goes on standing for it.
pub add64-mod : (t s q : ℕ) → t ≡ s % u64_mod → add64 t q ≡ (s + q) % u64_mod
unfolding add64
add64-mod t s q h = omega arith

pub sub64-mod : (t s q : ℕ) → t ≡ (q + s) % u64_mod → sub64 t q ≡ s % u64_mod
unfolding sub64
sub64-mod t s q h = omega arith

pub sub64-eq-sub : (a b : ℕ) → b ≤ a → a < u64_mod → sub64 a b ≡ a - b
unfolding sub64
sub64-eq-sub a b h k = omega arith
