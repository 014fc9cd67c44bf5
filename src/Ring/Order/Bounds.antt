-- ===== src/Ring/Order/Bounds.antt =====
-- src/SHMRingBuffer.cpp: the order of the three positions of the ring.
use electronic_exchange_simu.Prelude.{ℕ, ◌≤◌, map}
use electronic_exchange_simu.Ring.Held.{written, Held-le}
use electronic_exchange_simu.Ring.System.{System}
use electronic_exchange_simu.Ring.Order.{slot, Inv}

module _ (cap : ℕ) (s : System) (inv : Inv cap s) where
  pub cons-le-tail : s.ring.cons_head ≤ s.ring.prod_tail
  cons-le-tail =
      Held-le cap s.ring.m_data s.ring.cons_head (map written inv.queue) s.ring.prod_tail
        inv.committed

  pub tail-le-head : s.ring.prod_tail ≤ s.ring.prod_head
  tail-le-head =
      Held-le cap s.ring.m_data s.ring.prod_tail (map slot s.flights) s.ring.prod_head inv.reserved
