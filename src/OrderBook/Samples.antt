-- ===== src/OrderBook/Samples.antt =====
-- A small order book, and orders and requests to it, for the tests.
use electronic_exchange_simu.Prelude.{
  ℕ, true, false, none, some, [], ◌∷◌, refl, arith, ◌+◌, ◌*◌, ◌^◌, update, if_elim, ◌==◌,
}
use electronic_exchange_simu.Prelude.Int.{pos}
use electronic_exchange_simu.Wire.{Side, buy, sell, no_side, limit, new, cancel, OrderRequest}
use electronic_exchange_simu.OrderBook.State.{OrderBook, Order, empty_level, PriceLevel, set_side}
use electronic_exchange_simu.OrderBook.Linked.{IsLinked, keys_of}
use electronic_exchange_simu.OrderBook.Nearest.{IsNearest}
use electronic_exchange_simu.OrderBook.Valid.{IsValid, HasRoom}

abbrev pub gen : ℕ → ℕ
gen n = n

-- A book of 1024 levels from price 10000 on, as in tests/OrderBookTest.cpp, with one order to sell
-- 100 at 10600.
abbrev pub resting_ask : Order
resting_ask = record {
  order_id = 2 * 2 ^ 32 + 7;
  qty_original = 100;
  qty_remaining = 100;
  type = limit;
  timestamp = 0;
  symbol_id = 1;
}

abbrev pub ask_level : PriceLevel
ask_level = record empty_level { total_qty = 100; order_count = 1; orders = resting_ask ∷ [] }

abbrev pub one_ask : OrderBook
one_ask = record {
  symbol_id = 1;
  min_step = 1;
  price_index_offset = pos 10000;
  max_price_levels = 1024;
  response_ring = true;
  recover_mode = false;
  price_array = update (λ i. empty_level) 600 ask_level;
  active_orders = update (λ id. none) (2 * 2 ^ 32 + 7) (some 600);
  best_levels = set_side (λ s. none) sell (some 600);
  active_levels = set_side (λ s. []) sell (600 ∷ []);
  journal = [];
  gen = gen;
}

pub one_ask-IsLinked : (s : Side) → IsLinked one_ask s
one_ask-IsLinked buy = record {
  ascending = tt;
  best = λ j. refl;
  better = λ k h. cc;
  worse = λ k h. cc;
}
one_ask-IsLinked sell = record {
  ascending = (tt, tt);
  best = (refl, λ j h. ground arith);
  better = λ k h.
      if_elim (λ (pl : PriceLevel). IsNearest true (keys_of one_ask sell) k pl.better) (600 == k)
        (λ e j hj. ground arith) (λ e j hj. ground arith);
  worse = λ k h.
      if_elim (λ (pl : PriceLevel). IsNearest false (keys_of one_ask sell) k pl.worse) (600 == k)
        (λ e j hj. ground arith) (λ e j hj. ground arith);
}
one_ask-IsLinked no_side = record {
  ascending = tt;
  best = λ j. refl;
  better = λ k h. cc;
  worse = λ k h. cc;
}

pub one_ask-IsValid : IsValid one_ask buy
one_ask-IsValid = record {
  own = one_ask-IsLinked buy;
  facing = one_ask-IsLinked sell;
  uncrossed = λ i j h k. cc;
  counted = λ i. ground arith;
  live = λ i. ground arith;
  occupied = λ i. ground arith;
  short = λ i. ground arith;
}

pub one_ask-HasRoom : HasRoom one_ask
one_ask-HasRoom i = ground arith

-- A buy of 40 at 10650, which matches the order above.
abbrev pub crossing_buy : OrderRequest
crossing_buy = record {
  action = new;
  exec_id = 1;
  order_id = 9;
  client_id = 3;
  symbol_id = 1;
  side = buy;
  type = limit;
  p = pos 10650;
  q = 40;
  timestamp = 5;
}

-- The other side of the market, for the cancellations below.
abbrev pub crossing_sell : OrderRequest
crossing_sell = record crossing_buy { side = sell; action = cancel; order_id = 7; client_id = 2 }
