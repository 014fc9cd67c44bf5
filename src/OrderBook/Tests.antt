-- ===== src/OrderBook/Tests.antt =====
-- Tests of the order book on small inputs, and the theorems at such inputs.
use electronic_exchange_simu.Prelude.{
  true, false, none, some, [], ◌∷◌, ◌≡◌, refl, arith, ◌+◌, ◌-◌, ◌*◌, ◌^◌, ◌<◌, ◌≤◌,
}
use electronic_exchange_simu.Prelude.Int.{pos, ◌+ℤ◌, tdiv}
use electronic_exchange_simu.Wire.{buy, sell, limit}
use electronic_exchange_simu.OrderBook.State.{OrderBook, Order, init, empty_level}
use electronic_exchange_simu.OrderBook.Price.{
  price_to_index, pl_to_price, price_invalid, price_code,
}
use electronic_exchange_simu.OrderBook.Match.{match_level, match_loop, match_order, next_level}
use electronic_exchange_simu.OrderBook.Handlers.{process_request, find_order}
use electronic_exchange_simu.OrderBook.Valid.{IsValid, HasRoom}
use electronic_exchange_simu.OrderBook.Fifo.{
  IsCounted, after_taking, rem_sum, filled_ids, forget_ids,
}
use electronic_exchange_simu.OrderBook.FirstCome.{match_level-after_taking}
use electronic_exchange_simu.OrderBook.Conserve.{side_qty, match_loop-conserves}
use electronic_exchange_simu.OrderBook.Trades.{Extends, IsTrade, match_order-IsTrade}
use electronic_exchange_simu.OrderBook.MatchLoop.{match_loop-stops}
use electronic_exchange_simu.OrderBook.Requests.{process_request-IsValid}
use electronic_exchange_simu.OrderBook.Fresh.{init-IsValid}
use electronic_exchange_simu.OrderBook.Quiet.{quiet}
use electronic_exchange_simu.OrderBook.Recovery.{process_request-quiet}
use electronic_exchange_simu.OrderBook.Indices.{
  price_to_index-pl_to_price, price_to_index-accepted, price_invalid-past_the_end,
}
use electronic_exchange_simu.OrderBook.Samples.{
  gen, resting_ask, ask_level, one_ask, crossing_buy, one_ask-IsValid, one_ask-HasRoom,
}

process_request-IsValid_example : IsValid (process_request one_ask crossing_buy) buy
process_request-IsValid_example =
    process_request-IsValid one_ask crossing_buy refl one_ask-IsValid one_ask-HasRoom
      (λ n. absurd (n refl)) (omega arith)

-- The same request in a book in recovery.
process_request-quiet_example :
    quiet (process_request one_ask crossing_buy) ≡ process_request (quiet one_ask) crossing_buy
process_request-quiet_example = process_request-quiet one_ask crossing_buy

-- The taker of the matching tests: 140 to buy, at an index above the level 600.
abbrev taker : Order
taker = record {
  order_id = 3 * 2 ^ 32 + 9;
  qty_original = 140;
  qty_remaining = 140;
  type = limit;
  timestamp = 5;
  symbol_id = 1;
}

match_order-IsTrade_example :
    Extends (IsTrade one_ask buy 650) one_ask.journal (match_order taker buy 650 one_ask).journal
match_order-IsTrade_example = match_order-IsTrade buy 650 taker one_ask refl one_ask-IsValid

match_level-after_taking_example :
    let r =
      match_level buy
        (pos 10600)
        (resting_ask ∷ [])
        (record { taker = taker; level = ask_level; book = one_ask }) in
    (r.level.orders ≡ after_taking 140 (resting_ask ∷ []))
    × (r.taker.qty_remaining ≡ 140 - rem_sum (resting_ask ∷ []))
    × (r.book.active_orders ≡ forget_ids (filled_ids 140 (resting_ask ∷ [])) one_ask.active_orders)
    × IsCounted r.level
match_level-after_taking_example =
    match_level-after_taking buy (pos 10600) taker ask_level one_ask
      ((omega arith, (omega arith, omega arith)), tt)
      (record { counted = omega arith; totalled = omega arith })

match_loop-stops_example :
    let (t', b') = match_loop 2 buy 650 taker one_ask in next_level buy 650 t' b' ≡ none
match_loop-stops_example =
    match_loop-stops buy refl 650 2 taker one_ask one_ask-IsValid (omega arith)

match_loop-conserves_example :
    let (t', b') = match_loop 2 buy 650 taker one_ask in
    side_qty b' sell + 140 ≡ side_qty one_ask sell + t'.qty_remaining
match_loop-conserves_example = match_loop-conserves buy refl 650 2 taker one_ask one_ask-IsValid

out_of_reach : next_level buy 599 taker one_ask ≡ none
unfolding next_level
out_of_reach = refl

resting : find_order resting_ask.order_id (one_ask.price_array 600).orders ≡ some resting_ask
unfolding find_order
resting = ground arith

-- The book of the tests as it is made.
abbrev empty_book : OrderBook
empty_book = record {
  symbol_id = 1;
  min_step = 1;
  price_index_offset = pos 10000;
  max_price_levels = 1024;
  response_ring = true;
  recover_mode = false;
  price_array = λ i. empty_level;
  active_orders = λ id. none;
  best_levels = λ s. none;
  active_levels = λ s. [];
  journal = [];
  gen = gen;
}

init_book : init 1 (pos 1) (pos 10000) 1024 true gen ≡ some empty_book
unfolding init
init_book = refl

price_to_index-pl_to_price_example : price_to_index one_ask (pl_to_price one_ask 600) ≡ 600
price_to_index-pl_to_price_example =
    price_to_index-pl_to_price one_ask 600 (omega arith) (omega arith)

in_range : price_invalid one_ask (pos 10600) ≡ false
unfolding price_invalid price_code tdiv ◌+ℤ◌
in_range = refl

price_to_index-accepted_example : price_to_index one_ask (pos 10600) ≤ 1024
price_to_index-accepted_example = price_to_index-accepted one_ask (pos 10600) (omega arith) in_range

price_invalid-past_the_end_example :
    let p = pl_to_price one_ask 1024 in
    (price_invalid one_ask p ≡ false) × (price_to_index one_ask p ≡ 1024)
price_invalid-past_the_end_example = price_invalid-past_the_end one_ask (omega arith) (omega arith)

init-IsValid_example :
    IsValid empty_book buy
    × HasRoom empty_book
    × (0 < empty_book.min_step)
    × (0 < empty_book.max_price_levels)
init-IsValid_example = init-IsValid 1 (pos 1) (pos 10000) 1024 true gen empty_book buy init_book
