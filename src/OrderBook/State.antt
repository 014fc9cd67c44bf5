-- ===== src/OrderBook/State.antt =====
-- The data of an order book: struct Order, struct PriceLevel and the members of class OrderBook.
--
-- An Order lives in the intrusive list of one price level, so a level holds its orders by value,
-- first to last between `dummy_head` and `dummy_tail`, and an `Order*` kept elsewhere is the index
-- of that level with the order's id: `active_orders` maps an id to `order->price_level`. A
-- `PriceLevel*` is an index into `price_array`.
use electronic_exchange_simu.Prelude.{
  ℕ, ◌+◌, ◌*◌, ◌/◌, ◌%◌, ◌^◌, Bool, false, ◌||◌, Option, none, some, List, [], leb, ◌==◌,
  if◌then◌else◌, update,
}
use electronic_exchange_simu.Prelude.Int.{ℤ, pos_part}
use electronic_exchange_simu.Wire.{
  Side, buy, sell, no_side, OrderType, OrderRequest, OrderResponse, side_eq,
}

pub record Order : Type 0 where
  pub order_id : ℕ
  pub qty_original : ℕ
  pub qty_remaining : ℕ
  pub type : OrderType
  pub timestamp : ℕ
  pub symbol_id : ℕ

pub record PriceLevel : Type 0 where
  pub total_qty : ℕ
  pub order_count : ℕ
  pub orders : List Order
  pub better : Option ℕ
  pub worse : Option ℕ

abbrev pub empty_level : PriceLevel
empty_level = record { total_qty = 0; order_count = 0; orders = []; better = none; worse = none }

-- `gen` is what the generator of execution ids returns from now on. `journal` is what has been
-- committed to the response ring, newest first. A `std::map` is the list of its keys, ascending:
-- its values are the levels at those indices.
pub record OrderBook : Type 0 where
  pub symbol_id : ℕ
  pub min_step : ℕ
  pub price_index_offset : ℤ
  pub max_price_levels : ℕ
  pub response_ring : Bool
  pub recover_mode : Bool
  pub price_array : ℕ → PriceLevel
  pub active_orders : ℕ → Option ℕ
  pub best_levels : Side → Option ℕ
  pub active_levels : Side → List ℕ
  pub journal : List OrderResponse
  pub gen : ℕ → ℕ

-- The constructor; `none` is the exception that it throws.
unfoldable pub init : ℕ → ℤ → ℤ → ℕ → Bool → (ℕ → ℕ) → Option OrderBook
init symbol_id min_step price_index_offset max_price_levels response_ring gen =
    if leb (pos_part min_step) 0 || max_price_levels == 0
    then none
    else some (record {
      symbol_id = symbol_id % 2 ^ 32;
      min_step = pos_part min_step;
      price_index_offset = price_index_offset;
      max_price_levels = max_price_levels;
      response_ring = response_ring;
      recover_mode = false;
      price_array = λ i. empty_level;
      active_orders = λ id. none;
      best_levels = λ s. none;
      active_levels = λ s. [];
      journal = [];
      gen = gen;
    })

-- `1 ^ side_int`. For `no_side` the source would index the two-element arrays by 2 and 3, which is
-- undefined: the model gives that side cells of its own, and no theorem is about them.
abbrev pub opposite : Side → Side
opposite buy = sell
opposite sell = buy
opposite no_side = no_side

abbrev pub set_side {ℓ} : {A : Type ℓ} → (Side → A) → Side → A → Side → A
set_side f s v t = if side_eq s t then v else f t

-- `(client_id << 32) | order_id` of two uint32_t, and its halves.
unfoldable pub combined_order_id : ℕ → ℕ → ℕ
combined_order_id client_id order_id = client_id % 2 ^ 32 * 2 ^ 32 + order_id % 2 ^ 32

abbrev pub order_half : ℕ → ℕ
order_half id = id % 2 ^ 32

abbrev pub client_half : ℕ → ℕ
client_half id = id / 2 ^ 32 % 2 ^ 32

unfoldable pub request_id : OrderRequest → ℕ
request_id req = combined_order_id req.client_id req.order_id

unfoldable pub create_order : OrderRequest → Order
create_order req = record {
  order_id = request_id req;
  qty_original = req.q;
  qty_remaining = req.q;
  type = req.type;
  timestamp = req.timestamp;
  symbol_id = req.symbol_id;
}

-- Writes through the members' pointers.
abbrev pub set_level : OrderBook → ℕ → PriceLevel → OrderBook
set_level b i pl = record b { price_array = update b.price_array i pl }

abbrev pub set_active : OrderBook → ℕ → Option ℕ → OrderBook
set_active b id l = record b { active_orders = update b.active_orders id l }

abbrev pub set_best : OrderBook → Side → Option ℕ → OrderBook
set_best b s l = record b { best_levels = set_side b.best_levels s l }

abbrev pub set_keys : OrderBook → Side → List ℕ → OrderBook
set_keys b s keys = record b { active_levels = set_side b.active_levels s keys }
