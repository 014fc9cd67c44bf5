-- ===== src/Ring/Room.antt =====
-- src/SHMRingBuffer.cpp: when a message finds room in the ring.
use electronic_exchange_simu.Prelude.{
  ℕ, ◌+◌, ◌-◌, ◌*◌, ◌%◌, ◌^◌, ◌≤◌, ◌<◌, ◌≡◌, ◌↔◌, ◌⊎◌, some, none, arith, if◌then◌else◌,
}
use native.Mathlib.Nat.{mod-lt}
use electronic_exchange_simu.Ring.Shm.{ShmRing, ReserveToken, reserve, acquire}
use electronic_exchange_simu.Ring.Slots.{after}
use electronic_exchange_simu.Ring.Claims.{IsLaid-pos, token_at, accepts, claim_lem, put}
use electronic_exchange_simu.Ring.Acquired.{acquire_empty}
use electronic_exchange_simu.Ring.System.{System, Reach}
use electronic_exchange_simu.Ring.Order.{Inv}
use electronic_exchange_simu.Ring.Order.Bounds.{cons-le-tail, tail-le-head}
use electronic_exchange_simu.Ring.Traces.{Reach-Inv}

module _ (cap k : ℕ) (power : cap ≡ 2 ^ k) (small : cap ≤ 2 ^ 32) (s : System)
    (r : Reach cap s) where
  -- The message is empty, longer than the ring, or longer than the room left in it.
  abbrev pub Refused : ℕ → Type 0
  Refused n = (n ≡ 0) ⊎ (cap < 4 + n) ⊎ (s.ring.cons_head + cap < after cap s.ring.prod_head n)

  inv : Inv cap s
  inv = Reach-Inv cap k power small s r

  order : (s.ring.cons_head ≤ s.ring.prod_tail) × (s.ring.prod_tail ≤ s.ring.prod_head)
  order = (cons-le-tail cap s inv, tail-le-head cap s inv)

  module _ (n : ℕ) (short : n + 4 < 2 ^ 64) (far : s.ring.prod_head + 2 * cap < 2 ^ 64) where
    abbrev reserved : ReserveToken × ShmRing
    reserved = (
      token_at cap s.ring.prod_head n,
      record s.ring {
        prod_head = after cap s.ring.prod_head n;
        m_data = put cap s.ring.m_data s.ring.prod_head n;
      },
    )

    reserve_lem :
        reserve cap s.ring n
        ≡ (if accepts cap s.ring.prod_head s.ring.cons_head n then some reserved else none)
    unfolding reserve
    reserve_lem = claim_lem cap s.ring s.ring.cons_head n inv.laid (omega (arith, order)) short far

    -- reserve refuses a message exactly where it is empty, longer than the ring with its header, or
    -- its slot, with the padding before it if it wraps, would end more than the capacity past the
    -- consumer's head. The capacity is a power of 2 and at most 2^32, and the state is reachable.
    -- The message with its header fits 64 bits, and the positions are at least two capacities below
    -- 2^64.
    pub reserve_refusals : (reserve cap s.ring n ≡ none) ↔ Refused n
    reserve_refusals = rw reserve_lem (ground arith)

    -- In a ring with nothing reserved or unread, reserve accepts every message that is not empty
    -- and that with its header is at most half the ring. The capacity is a power of 2 and at most
    -- 2^32, and the state is reachable. The message with its header fits 64 bits, and the positions
    -- are at least two capacities below 2^64.
    reserve-drained :
        s.ring.cons_head ≡ s.ring.prod_head
        → 0 < n
        → 2 * (4 + n) ≤ cap
        → (t : ReserveToken) × (r' : ShmRing) × (reserve cap s.ring n ≡ some (t, r'))
    reserve-drained empty pos half = (
      reserved.0,
      reserved.1,
      rw reserve_lem (ground (arith, mod-lt s.ring.prod_head (IsLaid-pos cap s.ring inv.laid))),
    )

    -- In a ring with nothing reserved or unread, a message that fits neither behind the head nor,
    -- with its header, in front of it is refused, and the consumer's acquire finds nothing and
    -- changes nothing. The capacity is a power of 2 and at most 2^32, and the state is reachable.
    -- The message with its header fits 64 bits, and the positions are at least two capacities below
    -- 2^64.
    pub reserve_starves :
        s.ring.cons_head ≡ s.ring.prod_head
        → cap - s.ring.prod_head % cap < 4 + n
        → s.ring.prod_head % cap < 4 + n
        → (reserve cap s.ring n ≡ none) × (acquire cap s.ring ≡ (none, s.ring))
    reserve_starves empty back front =
        (rw reserve_lem (ground arith), acquire_empty cap s.ring (omega (arith, order)))
