-- ===== src/OrderBook/TakeOut.antt =====
-- Taking an order out of its level, as handleCancelOrder and handleModifyOrder do.
use electronic_exchange_simu.Prelude.{
  ℕ, suc, ◌<◌, ◌≤◌, ◌+◌, Bool, true, false, not, some, List, [], ◌∷◌, ◌≡◌, refl, ap, ◌∙◌, arith,
  ltb, ◌==◌, Bool-cases, if_elim, ==_iff, inl, inr, length, All, u64_mod, sub64, sub64-mod,
}
use electronic_exchange_simu.Wire.{Side, buy, sell, no_side, OrderRequest}
use electronic_exchange_simu.OrderBook.State.{Order, PriceLevel, OrderBook, opposite, set_level}
use electronic_exchange_simu.OrderBook.Levels.{unlink, remove_order_from_level}
use electronic_exchange_simu.OrderBook.Pointers.{remove-SameOrders}
use electronic_exchange_simu.OrderBook.Handlers.{find_order, take_out}
use electronic_exchange_simu.OrderBook.Linked.{IsLinked, keys_of}
use electronic_exchange_simu.OrderBook.Valid.{
  IsValid, IsTrading, HasRoom, IsLinked-frame, has_orders,
}
use electronic_exchange_simu.OrderBook.Emptied.{IsValidBut, kept-IsValid, removed-IsValid}
use electronic_exchange_simu.OrderBook.Fifo.{IsCounted, IsLive, rem_sum}
use electronic_exchange_simu.OrderBook.Taken.{eq_self, ==_false}
use electronic_exchange_simu.OrderBook.Stored.{count-has_orders}

-- The invariant is the same from both sides.
pub IsValid-flip : (b : OrderBook) (s : Side) → IsTrading s → IsValid b s → IsValid b (opposite s)
IsValid-flip b buy trading v = record {
  own = v.facing;
  facing = v.own;
  uncrossed = λ i j h k. v.uncrossed j i k h;
  counted = v.counted;
  live = v.live;
  occupied = λ k. ground (arith, v.occupied k);
  short = v.short;
}
IsValid-flip b sell trading v = record {
  own = v.facing;
  facing = v.own;
  uncrossed = λ i j h k. v.uncrossed j i k h;
  counted = v.counted;
  live = v.live;
  occupied = λ k. ground (arith, v.occupied k);
  short = v.short;
}
IsValid-flip b no_side trading v = cc

length-unlink :
    (id : ℕ) (os : List Order) (o : Order)
    → find_order id os ≡ some o
    → suc (length (unlink id os)) ≡ length os
unfolding find_order unlink
length-unlink id [] o h = cc
length-unlink id (x ∷ os) o h = ground (arith, length-unlink id os o)

rem_sum-unlink :
    (id : ℕ) (os : List Order) (o : Order)
    → find_order id os ≡ some o
    → rem_sum os ≡ o.qty_remaining + rem_sum (unlink id os)
unfolding find_order unlink
rem_sum-unlink id [] o h = cc
rem_sum-unlink id (x ∷ os) o h = ground (arith, rem_sum-unlink id os o)

unlink-IsLive : (id : ℕ) (os : List Order) → All IsLive os → All IsLive (unlink id os)
unfolding unlink
unlink-IsLive id [] h = tt
unlink-IsLive id (x ∷ os) h = ground (arith, unlink-IsLive id os h.1)

pub find_order-order_id :
    (id : ℕ) (os : List Order) (o : Order) → find_order id os ≡ some o → o.order_id ≡ id
unfolding find_order
find_order-order_id id [] o h = cc
find_order-order_id id (x ∷ os) o h = ground (arith, find_order-order_id id os o)

zero_of : (n : ℕ) (x : Bool) → ltb 0 n ≡ x → (n == 0) ≡ not x
zero_of n x h = ground arith

-- The level without the order.
abbrev pub without : PriceLevel → Order → PriceLevel
without pl o =
    let pl' = remove_order_from_level pl o.order_id in
    record pl' { total_qty = sub64 pl'.total_qty o.qty_remaining }

module _ (pl : PriceLevel) (o : Order) (h : find_order o.order_id pl.orders ≡ some o) where
  without-IsCounted : IsCounted pl → IsCounted (without pl o)
  unfolding remove_order_from_level
  without-IsCounted c = record {
    counted =
        sub64-mod pl.order_count _ 1
          (omega (arith, c.counted, length-unlink o.order_id pl.orders o h));
    totalled =
        sub64-mod pl.total_qty _ o.qty_remaining
          (omega (arith, c.totalled, rem_sum-unlink o.order_id pl.orders o h));
  }

module _ (b : OrderBook) (s : Side) (trading : IsTrading s) (v : IsValid b s) (i : ℕ) (o : Order)
    (there : keys_of b (opposite s) i ≡ true)
    (found : find_order o.order_id (b.price_array i).orders ≡ some o) where
  abbrev taken : OrderBook
  taken = set_level b i (without (b.price_array i) o)

  taken-IsLinked : (u : Side) → IsLinked b u → IsLinked taken u
  unfolding remove_order_from_level
  taken-IsLinked u l =
      IsLinked-frame b taken u l refl refl
        (λ k e. elim (Bool-cases (i == k)) [
          | inl q ↦ rw q (ap (λ j. (b.price_array j).better) ((==_iff i k).0 q))
          | inr q ↦ rw q
        ])
        (λ k e. elim (Bool-cases (i == k)) [
          | inl q ↦ rw q (ap (λ j. (b.price_array j).worse) ((==_iff i k).0 q))
          | inr q ↦ rw q
        ])

  taken-IsValidBut : IsValidBut taken s i
  unfolding remove_order_from_level
  taken-IsValidBut = record {
    own = taken-IsLinked s v.own;
    facing = taken-IsLinked (opposite s) v.facing;
    uncrossed = v.uncrossed;
    counted = λ k. elim (Bool-cases (i == k)) [
      | inl q ↦ rw q (without-IsCounted (b.price_array i) o found (v.counted i))
      | inr q ↦ rw q (v.counted k)
    ];
    live = λ k. elim (Bool-cases (i == k)) [
      | inl q ↦ rw q (unlink-IsLive o.order_id (b.price_array i).orders (v.live i))
      | inr q ↦ rw q (v.live k)
    ];
    there = there;
    occupied = λ k n. rw (==_false n) (v.occupied k);
    short = λ k. elim (Bool-cases (i == k)) [
      | inl q ↦
          rw q (omega (arith, length-unlink o.order_id (b.price_array i).orders o found, v.short i))
      | inr q ↦ rw q (v.short k)
    ];
  }

  left : PriceLevel
  left = without (b.price_array i) o

  left-has_orders : ltb 0 left.order_count ≡ has_orders left.orders
  unfolding left remove_order_from_level
  left-has_orders =
      count-has_orders (without (b.price_array i) o)
        (without-IsCounted (b.price_array i) o found (v.counted i))
        (omega (arith, length-unlink o.order_id (b.price_array i).orders o found, v.short i))

  -- Taking an order out of its level keeps the book's invariant, the removal of a level that it
  -- leaves empty included. The book is valid, its side and that of the request are Buy or Sell, and
  -- the level holds the order and is a key of the request's side.
  pub take_out-IsValid :
      (req : OrderRequest) → req.side ≡ opposite s → IsValid (take_out b i o req) s
  unfolding take_out left
  take_out-IsValid req side = elim (Bool-cases (has_orders left.orders)) [
    | inl h ↦
        rw (zero_of (left.order_count) true (left-has_orders ∙ h))
          (kept-IsValid taken s trading i taken-IsValidBut (rw (eq_self i) h))
    | inr h ↦
        rw (zero_of (left.order_count) false (left-has_orders ∙ h), side)
          (removed-IsValid taken s trading i taken-IsValidBut (rw (eq_self i) h))
  ]

-- No queue gets longer.
length-unlink-le : (id : ℕ) (os : List Order) → length (unlink id os) ≤ length os
unfolding unlink
length-unlink-le id [] = omega arith
length-unlink-le id (x ∷ os) = ground (arith, length-unlink-le id os)

module _ (b : OrderBook) (i : ℕ) (o : Order) (room : HasRoom b) where
  shorter : HasRoom (set_level b i (without (b.price_array i) o))
  unfolding remove_order_from_level
  shorter k =
      if_elim (λ (pl : PriceLevel). suc (length pl.orders) < u64_mod) (i == k)
        (λ e. omega (arith, length-unlink-le o.order_id (b.price_array i).orders, room i))
        (λ e. room k)

  pub take_out-HasRoom : (req : OrderRequest) → HasRoom (take_out b i o req)
  unfolding take_out
  take_out-HasRoom req k =
      let b1 = set_level b i (without (b.price_array i) o) in
      if_elim (λ (c : OrderBook). suc (length (c.price_array k).orders) < u64_mod)
        ((without (b.price_array i) o).order_count == 0)
        (λ e. rw ((remove-SameOrders b1 i req.side k).orders) (shorter k)) (λ e. shorter k)
