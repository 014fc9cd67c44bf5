-- ===== src/Ring/Order.antt =====
-- src/SHMRingBuffer.cpp: the invariant of producers and a consumer over one ring.
pub mod Bounds
pub mod Flights
pub mod Reserving
pub mod Filling
pub mod Committing
pub mod Consuming
use electronic_exchange_simu.Prelude.{
  ℕ, ◌+◌, ◌^◌, ◌≤◌, ◌<◌, ◌≡◌, Option, some, none, List, [], ◌∷◌, ◌++◌, length, map,
}
use electronic_exchange_simu.Ring.Shm.{ShmRing, AcquireToken}
use electronic_exchange_simu.Ring.Slots.{after}
use electronic_exchange_simu.Ring.Held.{Bytes, Slot, written, blank, slot_size, Held}
use electronic_exchange_simu.Ring.Claims.{IsLaid, token_at}
use electronic_exchange_simu.Ring.Acquired.{acquired_at}
use electronic_exchange_simu.Ring.System.{Flight, System}

abbrev pub slot_of : ℕ → Option Bytes → Slot
slot_of n none = blank n
slot_of n (some bytes) = written bytes

abbrev pub slot : Flight → Slot
slot f = slot_of f.token.size f.content

abbrev pub HasSize : ℕ → Option Bytes → Type 0
HasSize n none = Unit
HasSize n (some bytes) = length bytes ≡ n

abbrev pub Numbered : ℕ → ℕ → List (ℕ × Bytes) → Type 0
Numbered k end [] = k ≡ end
Numbered k end ((i, _) ∷ rest) = (i ≡ k) × Numbered (k + 1) end rest

abbrev pub bytes_of : List (ℕ × Bytes) → List Bytes
bytes_of [] = []
bytes_of ((_, bytes) ∷ rest) = bytes ∷ bytes_of rest

module _ (cap : ℕ) where
  -- The tokens are those of consecutive slots from position p, numbered from k up to `end`.
  abbrev pub Consecutive : ℕ → ℕ → ℕ → List Flight → Type 0
  Consecutive p k end [] = k ≡ end
  Consecutive p k end (f ∷ fs) =
      (f.number ≡ k)
      × (f.token ≡ token_at cap p f.token.size)
      × HasSize f.token.size f.content
      × Consecutive (after cap p (slot_size (slot f))) (k + 1) end fs

  -- The consumer holds the slot at p, where the oldest message stands.
  abbrev pub Holds : ℕ → Option AcquireToken → List Bytes → Type 0
  Holds p none queue = Unit
  Holds p (some t) [] = ⊥
  Holds p (some t) (bytes ∷ queue) = t ≡ acquired_at cap p (length bytes)

  -- `queue` are the messages that are committed and not released.
  pub record Inv (s : System) : Type 0 where
    pub queue : List Bytes
    pub oldest : ℕ
    pub laid : IsLaid cap s.ring
    pub committed : Held cap s.ring.m_data s.ring.cons_head (map written queue) s.ring.prod_tail
    pub reserved : Held cap s.ring.m_data s.ring.prod_tail (map slot s.flights) s.ring.prod_head
    pub room : s.ring.prod_head ≤ s.ring.cons_head + cap
    pub far : s.ring.prod_head < 2 ^ 64
    pub tokens : Consecutive s.ring.prod_tail oldest s.claimed s.flights
    pub taken : Holds s.ring.cons_head s.held queue
    pub in_order : Numbered 0 oldest s.sent
    pub history : bytes_of s.sent ≡ s.received ++ queue
