-- ===== src/OrderBook/FirstCome.antt =====
-- What a level promises the orders in it: first come, first served.
use electronic_exchange_simu.Prelude.{◌-◌, ◌≡◌, refl, All}
use electronic_exchange_simu.Prelude.Int.{ℤ}
use electronic_exchange_simu.Wire.{Side}
use electronic_exchange_simu.OrderBook.State.{Order, PriceLevel, OrderBook}
use electronic_exchange_simu.OrderBook.Match.{Matching, match_level}
use electronic_exchange_simu.OrderBook.Fifo.{
  IsLive, IsCounted, after_taking, filled_ids, forget_ids, rem_sum, match_level-LevelMatched,
}

-- The inner loop at a level of live orders whose counters agree takes the taker's quantity from the
-- orders first come, first served, leaves the taker what the level could not fill, forgets exactly
-- the ids of the orders that it filled, and keeps the counters in agreement.
pub match_level-after_taking :
    (s : Side) (p : ℤ) (taker : Order) (pl : PriceLevel) (b : OrderBook)
    → All IsLive pl.orders
    → IsCounted pl
    → let q = taker.qty_remaining in
      let r = match_level s p pl.orders (record { taker = taker; level = pl; book = b }) in
      (r.level.orders ≡ after_taking q pl.orders)
      × (r.taker.qty_remaining ≡ q - rem_sum pl.orders)
      × (r.book.active_orders ≡ forget_ids (filled_ids q pl.orders) b.active_orders)
      × IsCounted r.level
match_level-after_taking s p taker pl b live counted =
    let m : Matching = record { taker = taker; level = pl; book = b } in
    let h = match_level-LevelMatched s p pl.orders m live in
    (h.queue refl, h.left, h.active, h.counts refl counted)
