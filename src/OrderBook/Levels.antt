-- ===== src/OrderBook/Levels.antt =====
-- The price levels: insertOrderToLevel, removeOrderFromLevel, removePriceLevel and
-- GetOrCreatePriceLevel, over the chain `better`/`worse` and the maps `active_levels_`.
use electronic_exchange_simu.Prelude.{
  ℕ, Option, none, some, List, [], ◌∷◌, ◌++◌, ltb, leb, ◌==◌, if◌then◌else◌, add64, sub64,
}
use electronic_exchange_simu.Wire.{Side, buy, sell, no_side}
use electronic_exchange_simu.OrderBook.State.{
  Order, PriceLevel, OrderBook, set_level, set_best, set_keys,
}

-- std::map<size_t, …> by its ascending keys: `active[key] = …`, `erase`, and the neighbours that
-- the iterator of `lower_bound(key)` and its predecessor point at.
unfoldable pub insert_key : ℕ → List ℕ → List ℕ
insert_key k [] = k ∷ []
insert_key k (j ∷ js) =
    if ltb k j then k ∷ j ∷ js else if k == j then j ∷ js else j ∷ insert_key k js

unfoldable pub erase_key : ℕ → List ℕ → List ℕ
erase_key k [] = []
erase_key k (j ∷ js) = if k == j then js else j ∷ erase_key k js

unfoldable pub lower_bound : ℕ → List ℕ → Option ℕ
lower_bound k [] = none
lower_bound k (j ∷ js) = if leb k j then some j else lower_bound k js

-- `before` is the key before the list.
unfoldable pub before_lower_bound : Option ℕ → ℕ → List ℕ → Option ℕ
before_lower_bound before k [] = before
before_lower_bound before k (j ∷ js) = if leb k j then before else before_lower_bound (some j) k js

-- The order goes to the tail of the level.
unfoldable pub insert_order_to_level : PriceLevel → Order → PriceLevel
insert_order_to_level pl order = record pl {
  orders = pl.orders ++ order ∷ [];
  order_count = add64 pl.order_count 1;
  total_qty = add64 pl.total_qty order.qty_remaining;
}

-- Unlinking the order with an id from a list.
unfoldable pub unlink : ℕ → List Order → List Order
unlink id [] = []
unlink id (o ∷ os) = if o.order_id == id then os else o ∷ unlink id os

unfoldable pub remove_order_from_level : PriceLevel → ℕ → PriceLevel
unfolding unlink
remove_order_from_level pl id = record pl {
  orders = unlink id pl.orders;
  order_count = sub64 pl.order_count 1;
}

-- `pl->worse = …` and `pl->better = …` where the pointer to the level may be null.
abbrev pub link_worse : OrderBook → Option ℕ → Option ℕ → OrderBook
link_worse b none worse = b
link_worse b (some i) worse = set_level b i (record (b.price_array i) { worse = worse })

abbrev pub link_better : OrderBook → Option ℕ → Option ℕ → OrderBook
link_better b none better = b
link_better b (some i) better = set_level b i (record (b.price_array i) { better = better })

-- `if (pl->better) pl->better->worse = worse; else best_levels_[s] = worse;`
unfoldable pub link_best : OrderBook → Side → Option ℕ → Option ℕ → OrderBook
link_best b s none worse = set_best b s worse
link_best b s (some i) worse = link_worse b (some i) worse

unfoldable pub remove_price_level : OrderBook → ℕ → Side → OrderBook
unfolding link_best erase_key
remove_price_level b i s =
    let pl = b.price_array i in
    let b1 = link_best b s pl.better pl.worse in
    let b2 = link_better b1 (b1.price_array i).worse (b1.price_array i).better in
    set_keys b2 s (erase_key i (b2.active_levels s))

-- The neighbours of a new level: for bids the key above is the better one, for asks the key below.
unfoldable pub neighbours : Side → ℕ → List ℕ → Option ℕ × Option ℕ
unfolding lower_bound before_lower_bound
neighbours buy i keys = (lower_bound i keys, before_lower_bound none i keys)
neighbours sell i keys = (before_lower_bound none i keys, lower_bound i keys)
neighbours no_side i keys = (before_lower_bound none i keys, lower_bound i keys)

-- The level at the index, linked into the chain and the map of its side unless it holds orders.
unfoldable pub get_or_create_price_level : OrderBook → ℕ → Side → OrderBook
unfolding link_best insert_key neighbours
get_or_create_price_level b i s =
    if ltb 0 (b.price_array i).order_count
    then b
    else let (better, worse) = neighbours s i (b.active_levels s) in
      let b1 = set_level b i (record (b.price_array i) { better = better; worse = worse }) in
      let b2 = link_best b1 s better (some i) in
      let b3 = link_better b2 worse (some i) in set_keys b3 s (insert_key i (b3.active_levels s))
