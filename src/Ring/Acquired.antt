-- ===== src/Ring/Acquired.antt =====
-- src/SHMRingBuffer.cpp: what acquire finds at the consumer's head.
use electronic_exchange_simu.Prelude.{
  ℕ, ◌+◌, ◌^◌, ◌≤◌, ◌<◌, ◌≡◌, some, none, arith, add64, sub64, Bool-cases, inl, inr,
}
use native.Mathlib.Nat.{mod-lt}
use electronic_exchange_simu.Ring.Shm.{ShmRing, AcquireToken, acquire}
use electronic_exchange_simu.Ring.Slots.{wraps, base, after}
use electronic_exchange_simu.Ring.Held.{HasHeader}
use electronic_exchange_simu.Ring.Claims.{IsLaid, IsLaid-pos, mask_offset}

module _ (cap : ℕ) where
  -- The slot of n bytes at p.
  abbrev pub acquired_at : ℕ → ℕ → AcquireToken
  acquired_at p n = record { payload = base cap p n + 4; size = n; new_cons_head = after cap p n }

  pub acquire_empty : (r : ShmRing) → r.cons_head ≡ r.prod_tail → acquire cap r ≡ (none, r)
  unfolding acquire
  acquire_empty r e = ground arith

  pub acquire_head :
      (r : ShmRing) (n : ℕ)
      → IsLaid cap r
      → HasHeader cap r.m_data r.cons_head n
      → after cap r.cons_head n ≤ r.prod_tail
      → r.prod_tail < 2 ^ 64
      → acquire cap r ≡ (some (acquired_at r.cons_head n), r)
  unfolding acquire add64 sub64
  acquire_head r n laid head le far =
      rw (mask_offset cap r r.cons_head laid) (elim (Bool-cases (wraps cap r.cons_head n)) [
        | inl w ↦ rw (head.marked w) (
            ground (
              arith,
              w,
              head.sized,
              head.fits,
              head.not_empty,
              laid.small,
              mod-lt r.cons_head (IsLaid-pos cap r laid),
            ))
        | inr w ↦ ground (
          arith,
          w,
          head.sized,
          head.fits,
          head.not_empty,
          laid.small,
          mod-lt r.cons_head (IsLaid-pos cap r laid),
        )
      ])
