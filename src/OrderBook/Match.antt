-- ===== src/OrderBook/Match.antt =====
-- OrderBook::match. The order that is matched, the taker, is in no level while it is matched.
use electronic_exchange_simu.Prelude.{
  ℕ, zero, suc, ◌-◌, min, Bool, ◌&&◌, Option, none, some, List, [], ◌∷◌, ltb, leb, ◌==◌,
  if◌then◌else◌, length, sub64,
}
use electronic_exchange_simu.Prelude.Int.{ℤ}
use electronic_exchange_simu.Wire.{
  Side, buy, sell, no_side, ExecType, fill, partial_fill, no_reject,
}
use electronic_exchange_simu.OrderBook.State.{
  Order, PriceLevel, OrderBook, opposite, set_level, set_active,
}
use electronic_exchange_simu.OrderBook.Price.{pl_to_price}
use electronic_exchange_simu.OrderBook.Response.{send_response}
use electronic_exchange_simu.OrderBook.Levels.{
  insert_order_to_level, remove_price_level, get_or_create_price_level,
}

abbrev pub fill_type : ℕ → ExecType
fill_type q_rem = if q_rem == 0 then fill else partial_fill

-- Both reports of one fill, the taker's first, under one execution id.
unfoldable pub report_fill : OrderBook → Order → Order → Side → ℤ → ℕ → OrderBook
unfolding send_response
report_fill b taker maker side p qty_fill =
    let exec_id = b.gen 0 in
    let b1 = record b { gen = λ n. b.gen (suc n) } in
    let b2 =
      send_response b1 (fill_type taker.qty_remaining) taker.order_id exec_id side p qty_fill
        taker.qty_remaining no_reject in
    send_response b2 (fill_type maker.qty_remaining) maker.order_id exec_id (opposite side) p
      qty_fill maker.qty_remaining no_reject

abbrev pub take_qty : Order → ℕ → Order
take_qty o q = record o { qty_remaining = o.qty_remaining - q }

-- What the inner loop works on: the taker, the level, and the rest of the book.
pub record Matching : Type 0 where
  pub taker : Order
  pub level : PriceLevel
  pub book : OrderBook

-- One round of the inner loop: fill against the first order, which stands before `rest`.
unfoldable pub fill_one : Side → ℤ → Order → List Order → Matching → Matching
unfolding report_fill
fill_one side p maker rest m =
    let qty_fill = min maker.qty_remaining m.taker.qty_remaining in
    let maker' = take_qty maker qty_fill in
    let taker' = take_qty m.taker qty_fill in
    record {
      taker = taker';
      level = record m.level {
        orders = maker' ∷ rest;
        total_qty = sub64 m.level.total_qty qty_fill;
      };
      book = report_fill m.book taker' maker' side p qty_fill;
    }

-- The filled maker leaves `active_orders_` and the level.
unfoldable pub drop_maker : Order → List Order → Matching → Matching
drop_maker maker rest m = record m {
  level = record m.level { orders = rest; order_count = sub64 m.level.order_count 1 };
  book = set_active m.book maker.order_id none;
}

-- The inner loop, over the orders from `maker` to the tail. `if (maker->qty_remaining) continue`
-- comes back to the test with the taker at 0, since the smaller quantity was taken from both.
unfoldable pub match_level : Side → ℤ → List Order → Matching → Matching
unfolding fill_one drop_maker
match_level side p [] m = m
match_level side p (maker ∷ rest) m =
    let filled = fill_one side p maker rest m in
    let next = match_level side p rest (drop_maker maker rest filled) in
    if m.taker.qty_remaining == 0
    then m
    else if ltb 0 (maker.qty_remaining - min maker.qty_remaining m.taker.qty_remaining)
    then filled
    else next

-- A buy reaches the ask levels up to its index, a sell the bid levels down to it.
abbrev pub crossed : Side → ℕ → ℕ → Bool
crossed buy price_idx oppo_idx = leb oppo_idx price_idx
crossed sell price_idx oppo_idx = leb price_idx oppo_idx
crossed no_side price_idx oppo_idx = leb price_idx oppo_idx

-- The level of the next round of the outer loop; none when the loop ends.
unfoldable pub next_level : Side → ℕ → Order → OrderBook → Option ℕ
next_level side price_idx taker b = elim (b.best_levels (opposite side)) [
  | none ↦ none
  | some oppo ↦ if ltb 0 taker.qty_remaining && crossed side price_idx oppo then some oppo else none
]

-- One round of the outer loop at the level `oppo`.
unfoldable pub match_step : Side → ℕ → Order → OrderBook → Order × OrderBook
unfolding match_level
match_step side oppo taker b =
    let pl = b.price_array oppo in
    let m =
      match_level side (pl_to_price b oppo) pl.orders
        (record { taker = taker; level = pl; book = b }) in
    let b1 = set_level m.book oppo m.level in
    (m.taker, if m.level.order_count == 0 then remove_price_level b1 oppo (opposite side) else b1)

unfoldable pub match_loop : ℕ → Side → ℕ → Order → OrderBook → Order × OrderBook
unfolding next_level match_step
match_loop zero side price_idx taker b = (taker, b)
match_loop (suc fuel) side price_idx taker b = elim (next_level side price_idx taker b) [
  | none ↦ (taker, b)
  | some oppo ↦
      let (taker', b') = match_step side oppo taker b in match_loop fuel side price_idx taker' b'
]

-- What is left of the taker rests in the book.
unfoldable pub rest_order : Side → ℕ → Order → OrderBook → OrderBook
rest_order side price_idx taker b =
    let b1 = get_or_create_price_level b price_idx side in
    let b2 = set_level b1 price_idx (insert_order_to_level (b1.price_array price_idx) taker) in
    set_active b2 taker.order_id (some price_idx)

unfoldable pub finish_match : Side → ℕ → Order → OrderBook → OrderBook
unfolding rest_order
finish_match side price_idx taker b =
    if taker.qty_remaining == 0
    then set_active b taker.order_id none
    else rest_order side price_idx taker b

-- Each round but the last empties a level, so one more than the levels there are is enough fuel.
unfoldable pub match_order : Order → Side → ℕ → OrderBook → OrderBook
unfolding match_loop finish_match
match_order taker side price_idx b =
    let (taker', b') =
      match_loop (suc (length (b.active_levels (opposite side)))) side price_idx taker b in
    finish_match side price_idx taker' b'
