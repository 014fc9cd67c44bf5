-- ===== src/Ring/Slots.antt =====
-- src/SHMRingBuffer.cpp: where a message of n bytes that is reserved at a position lies, and that
-- two messages within one capacity of one another share no byte.
use electronic_exchange_simu.Prelude.{
  ℕ, ◌+◌, ◌-◌, ◌%◌, ◌≤◌, ◌<◌, ◌≡◌, ap, ◌⊎◌, inl, inr, Bool, ltb, if◌then◌else◌, arith,
}
use native.Mathlib.Decide.{dec_lt}
use native.Mathlib.Nat.{mod-lt, mod-add-mod, mod-eq_of_lt, mod-eq-sub-mod}

module _ (cap : ℕ) where
  -- Less room is left before the end than the header and the message take.
  abbrev pub wraps : ℕ → ℕ → Bool
  wraps p n = ltb (cap - p % cap) (4 + n)

  -- The offset of the message's header.
  abbrev pub base : ℕ → ℕ → ℕ
  base p n = if wraps p n then 0 else p % cap

  -- The position behind the message.
  abbrev pub after : ℕ → ℕ → ℕ
  after p n = if wraps p n then p + (cap - p % cap) + (4 + n) else p + (4 + n)

  -- The offsets that the message occupies: the marker at the end, if it wraps, and its own bytes.
  abbrev pub Touches : ℕ → ℕ → ℕ → Type 0
  Touches p n i =
      ((cap < p % cap + (4 + n)) × (p % cap ≤ i) × (i < p % cap + 4))
      ⊎ ((base p n ≤ i) × (i < base p n + (4 + n)))

mod_once : (cap t : ℕ) → 0 < cap → t < cap + cap → (t % cap ≡ t) ⊎ (t % cap + cap ≡ t)
mod_once cap t pos lt = elim (dec_lt t cap) [
  | yes h ↦ inl (mod-eq_of_lt h)
  | no h ↦ inr (
      omega (
        arith,
        mod-eq-sub-mod {n = t} {m = cap} (omega arith),
        mod-eq_of_lt {n = t - cap} {m = cap} (omega arith),
      ))
]

-- The offset a distance of at most one capacity ahead.
pub offset_ahead :
    (cap p d : ℕ)
    → 0 < cap
    → d ≤ cap
    → ((p + d) % cap ≡ p % cap + d) ⊎ ((p + d) % cap + cap ≡ p % cap + d)
offset_ahead cap p d pos le =
    ground
      (arith, mod-add-mod p cap d, mod_once cap (p % cap + d) pos (omega (arith, mod-lt p pos)))

reach_from : (p q : ℕ) → p ≤ q → p + (q - p) ≡ q
reach_from p q h = omega arith

pub Touches-apart :
    (cap p n q k i : ℕ)
    → 0 < cap
    → 4 + n ≤ cap
    → 4 + k ≤ cap
    → after cap p n ≤ q
    → after cap q k ≤ p + cap
    → Touches cap p n i
    → Touches cap q k i
    → ⊥
Touches-apart cap p n q k i pos fitn fitk before room tp tq = ground (
  arith,
  mod-lt p pos,
  mod-lt q pos,
  offset_ahead cap p (q - p) pos (ground arith),
  ap (λ (t : ℕ). t % cap) (reach_from p q (ground arith)),
)
