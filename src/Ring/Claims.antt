-- ===== src/Ring/Claims.antt =====
-- src/SHMRingBuffer.cpp: what a reservation does, in terms of the slots.
use electronic_exchange_simu.Prelude.{
  ℕ, ◌+◌, ◌-◌, ◌*◌, ◌%◌, ◌^◌, ◌≤◌, ◌<◌, ◌≡◌, sym, ◌∙◌, inl, inr, ◌⊎◌, Bool, ◌&&◌, not, some, none,
  arith, leb, ◌==◌, if◌then◌else◌, Bool-cases, bit_and, bit_and-mask, pow-pos, add64, sub64,
}
use native.Mathlib.Nat.{mod-lt}
use electronic_exchange_simu.Ring.Memory.{
  Memory, store32, store32_frame, load32-store32, load32_agree,
}
use electronic_exchange_simu.Ring.Shm.{ShmRing, ReserveToken, wrap_marker, claim}
use electronic_exchange_simu.Ring.Slots.{wraps, base, after}
use electronic_exchange_simu.Ring.Held.{HasHeader, Writes}

-- A capacity that is a power of two of at most 4 GiB, and its mask.
pub record IsLaid (cap : ℕ) (r : ShmRing) : Type 0 where
  pub exponent : ℕ
  pub power : cap ≡ 2 ^ exponent
  pub small : cap ≤ 2 ^ 32
  pub masked : r.mask ≡ cap - 1

pub outside : (lo hi i : ℕ) → (lo ≤ i → i < hi → ⊥) → (i < lo) ⊎ (hi ≤ i)
outside lo hi i h = ground (arith, h)

module _ (cap : ℕ) where
  pub IsLaid-pos : (r : ShmRing) → IsLaid cap r → 0 < cap
  IsLaid-pos r laid = omega (arith, laid.power, pow-pos laid.exponent)

  pub mask_offset : (r : ShmRing) (p : ℕ) → IsLaid cap r → bit_and p r.mask ≡ p % cap
  mask_offset r p laid = rw (laid.masked, laid.power) (bit_and-mask laid.exponent p)

  -- The bytes after the reservation of n bytes at p.
  unfoldable pub put : Memory → ℕ → ℕ → Memory
  put m p n =
      store32 (if wraps cap p n then store32 m (p % cap) wrap_marker else m) (base cap p n) n

  abbrev pub token_at : ℕ → ℕ → ReserveToken
  token_at p n = record {
    payload = base cap p n + 4;
    size = n;
    old_prod_head = p;
    new_prod_head = after cap p n;
  }

  -- The message is not empty, the ring is large enough for it, and there is room for it now.
  abbrev pub accepts : ℕ → ℕ → ℕ → Bool
  accepts p seen n = not (n == 0) && (leb (4 + n) cap && leb (after cap p n) (seen + cap))

  pub claim_lem :
      (r : ShmRing) (seen n : ℕ)
      → IsLaid cap r
      → seen ≤ r.prod_head
      → n + 4 < 2 ^ 64
      → r.prod_head + 2 * cap < 2 ^ 64
      → claim cap r seen n ≡ (
          if accepts r.prod_head seen n
          then some (
            token_at r.prod_head n,
            record r { prod_head = after cap r.prod_head n; m_data = put r.m_data r.prod_head n },
          )
          else none)
  unfolding claim put add64 sub64
  claim_lem r seen n laid le small far =
      rw (mask_offset r r.prod_head laid)
        (ground (arith, mod-lt r.prod_head (IsLaid-pos r laid), laid.small))

  pub put-HasHeader :
      (m : Memory) (p n : ℕ)
      → 0 < cap
      → 0 < n
      → 4 + n ≤ cap
      → cap ≤ 2 ^ 32
      → after cap p n ≤ p + cap
      → HasHeader cap (put m p n) p n
  unfolding put
  put-HasHeader m p n pos nonempty fits small room = record {
    not_empty = nonempty;
    fits = fits;
    marked = λ w. rw w (
        load32_agree _ _ (p % cap)
          (λ i lo hi. store32_frame (store32 m (p % cap) wrap_marker) 0 n i (inr (ground arith)))
        ∙ load32-store32 m (p % cap) wrap_marker (omega arith));
    sized = load32-store32 _ (base cap p n) n (omega arith);
  }

  pub put-Writes : (m : Memory) (p n : ℕ) (pos : 0 < cap) → Writes cap pos m (put m p n) p n
  unfolding put
  put-Writes m p n pos i apart = sym (elim (Bool-cases (wraps cap p n)) [
    | inl w ↦ rw w (
        store32_frame (store32 m (p % cap) wrap_marker) 0 n i
          (outside 0 4 i (λ lo hi. apart (inr (ground arith))))
        ∙ store32_frame m (p % cap) wrap_marker i (
            outside (p % cap) (p % cap + 4) i
              (λ lo hi. apart (inl (ground (arith, mod-lt p pos), lo, hi)))))
    | inr w ↦ rw w (
        store32_frame m (p % cap) n i
          (outside (p % cap) (p % cap + 4) i (λ lo hi. apart (inr (ground arith)))))
  ])
