-- ===== src/OrderBook/Taken.antt =====
-- The queue of a level that quantity was taken from, and which level is matched next.
use electronic_exchange_simu.Prelude.{
  ℕ, ◌<◌, ◌≤◌, ◌-◌, true, false, some, List, [], ◌∷◌, ◌≡◌, refl, ◌≢◌, ◌⊎◌, arith, ◌==◌, ltb, inl,
  All, length,
}
use electronic_exchange_simu.Wire.{Side, buy, sell, no_side, side_eq}
use electronic_exchange_simu.OrderBook.State.{Order, OrderBook, opposite}
use electronic_exchange_simu.OrderBook.Match.{crossed, next_level}
use electronic_exchange_simu.OrderBook.Valid.{has_orders}
use electronic_exchange_simu.OrderBook.Fifo.{IsLive, rem_sum, after_taking}

pub length-after_taking : (q : ℕ) (os : List Order) → length (after_taking q os) ≤ length os
length-after_taking q [] = omega arith
length-after_taking q (o ∷ os) = ground (arith, length-after_taking (q - o.qty_remaining) os)

pub after_taking-IsLive : (q : ℕ) (os : List Order) → All IsLive os → All IsLive (after_taking q os)
after_taking-IsLive q [] h = tt
after_taking-IsLive q (o ∷ os) h = ground (arith, after_taking-IsLive (q - o.qty_remaining) os h.1)

-- A level keeps an order only if the taker is used up.
pub after_taking-full : (q : ℕ) (os : List Order) → (after_taking q os ≡ []) ⊎ (q - rem_sum os ≡ 0)
after_taking-full q [] = inl refl
after_taking-full q (o ∷ os) = ground (arith, after_taking-full (q - o.qty_remaining) os)

pub has_orders-length : (os : List Order) → has_orders os ≡ ltb 0 (length os)
has_orders-length [] = refl
has_orders-length (o ∷ os) = ground arith

-- The level to match is the best one of the other side.
pub next_level_found :
    (s : Side) (px i : ℕ) (t : Order) (b : OrderBook)
    → next_level s px t b ≡ some i
    → (b.best_levels (opposite s) ≡ some i) × (0 < t.qty_remaining) × (crossed s px i ≡ true)
unfolding next_level
next_level_found buy px i t b h = ground arith
next_level_found sell px i t b h = ground arith
next_level_found no_side px i t b h = ground arith

pub opposite-opposite : (s : Side) → opposite (opposite s) ≡ s
opposite-opposite buy = refl
opposite-opposite sell = refl
opposite-opposite no_side = refl

pub side_eq_symm : (s t : Side) → side_eq s t ≡ side_eq t s
side_eq_symm s t = ground arith

pub eq_self : (i : ℕ) → (i == i) ≡ true
eq_self i = ground arith

pub ==_false : {i k : ℕ} → i ≢ k → (i == k) ≡ false
==_false n = ground arith
