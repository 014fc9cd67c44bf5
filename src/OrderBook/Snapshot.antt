-- ===== src/OrderBook/Snapshot.antt =====
-- OrderBook::take_snapshot, load_snapshot and restore_from_response. A snapshot file is the list of
-- its records.
use electronic_exchange_simu.Prelude.{
  ℕ, ◌-◌, Bool, true, false, Option, none, some, List, [], ◌∷◌, ◌++◌, map, ◌==◌, if◌then◌else◌,
}
use electronic_exchange_simu.Prelude.Int.{ℤ, pos, negsuc}
use electronic_exchange_simu.Wire.{
  Side, buy, sell, OrderType, limit, market, OrderAction, new, cancel, modify, ExecType, exec_new,
  cancelled, replaced, OrderRequest, OrderResponse, is_market,
}
use electronic_exchange_simu.OrderBook.State.{Order, OrderBook, set_level, set_active}
use electronic_exchange_simu.OrderBook.Price.{price_to_index, pl_to_price}
use electronic_exchange_simu.OrderBook.Levels.{insert_order_to_level, get_or_create_price_level}
use electronic_exchange_simu.OrderBook.Handlers.{process_request}

pub record OrderSnapshot : Type 0 where
  pub combined_order_id : ℕ
  pub qty_original : ℕ
  pub qty_remaining : ℕ
  pub type : OrderType
  pub side : Side
  pub timestamp : ℕ
  pub symbol_id : ℕ
  pub p : ℤ

unfoldable pub snapshot_order : Side → ℤ → Order → OrderSnapshot
snapshot_order side price o = record {
  combined_order_id = o.order_id;
  qty_original = o.qty_original;
  qty_remaining = o.qty_remaining;
  type = o.type;
  side = side;
  timestamp = o.timestamp;
  symbol_id = o.symbol_id;
  p = price;
}

-- The levels of one side, by ascending index, each from its head to its tail.
unfoldable pub snapshot_levels : OrderBook → Side → List ℕ → List OrderSnapshot
unfolding snapshot_order
snapshot_levels b side [] = []
snapshot_levels b side (i ∷ is) =
    map (snapshot_order side (pl_to_price b i)) (b.price_array i).orders
    ++ snapshot_levels b side is

unfoldable pub take_snapshot : OrderBook → List OrderSnapshot
unfolding snapshot_levels
take_snapshot b =
    snapshot_levels b buy (b.active_levels buy) ++ snapshot_levels b sell (b.active_levels sell)

unfoldable pub snapshot_index : OrderBook → OrderSnapshot → ℕ
snapshot_index b rec =
    if is_market rec.type
    then elim rec.side [ buy ↦ b.max_price_levels - 1 | _ ↦ 0 ]
    else price_to_index b rec.p

unfoldable pub restored_order : OrderSnapshot → Order
restored_order rec = record {
  order_id = rec.combined_order_id;
  qty_original = rec.qty_original;
  qty_remaining = rec.qty_remaining;
  type = rec.type;
  timestamp = rec.timestamp;
  symbol_id = rec.symbol_id;
}

unfoldable pub load_record : OrderBook → OrderSnapshot → OrderBook
unfolding snapshot_index restored_order
load_record b rec =
    let i = snapshot_index b rec in
    let b1 = get_or_create_price_level b i rec.side in
    let b2 = set_level b1 i (insert_order_to_level (b1.price_array i) (restored_order rec)) in
    set_active b2 rec.combined_order_id (some i)

unfoldable pub load_snapshot : OrderBook → List OrderSnapshot → OrderBook
unfolding load_record
load_snapshot b [] = b
load_snapshot b (rec ∷ recs) = load_snapshot (load_record b rec) recs

-- `resp->p == 0`
abbrev pub is_zero : ℤ → Bool
is_zero (pos n) = n == 0
is_zero (negsuc n) = false

-- The request that a journal record stands for; none for the kinds that are ignored. The fields
-- `type` of a cancellation or modification are not set by the source, and are not read.
unfoldable pub replay_action : ExecType → Option OrderAction
replay_action exec_new = some new
replay_action cancelled = some cancel
replay_action replaced = some modify
replay_action _ = none

unfoldable pub replay_request : OrderResponse → OrderAction → OrderRequest
replay_request resp action = record {
  action = action;
  exec_id = resp.exec_id;
  order_id = resp.order_id;
  client_id = resp.client_id;
  symbol_id = resp.symbol_id;
  side = resp.side;
  type = if is_zero resp.p then market else limit;
  p = resp.p;
  q = resp.q;
  timestamp = 0;
}

unfoldable pub restore_from_response : OrderBook → OrderResponse → OrderBook
unfolding replay_action replay_request
restore_from_response b resp = elim (replay_action resp.exec_type) [
  | none ↦ b
  | some action ↦
      let b1 = process_request (record b { recover_mode = true }) (replay_request resp action) in
      record b1 { recover_mode = false }
]
