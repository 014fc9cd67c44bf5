-- ===== src/OrderBook/Handlers.antt =====
-- OrderBook::handleNewOrder, handleCancelOrder, handleModifyOrder and processRequest.
use electronic_exchange_simu.Prelude.{
  ℕ, suc, ◌-◌, Bool, true, ◌&&◌, ◌||◌, not, Option, none, some, List, [], ◌∷◌, ltb, leb, ◌==◌,
  if◌then◌else◌, add64, sub64,
}
use electronic_exchange_simu.Prelude.Int.{ℤ, pos, negsuc, sub_ℕ, ltb_ℤ}
use electronic_exchange_simu.Wire.{
  buy, OrderAction, new, cancel, modify, other_action, RejectCode, no_reject,
  price_invalid as reject_price, invalid_quantity, order_not_found, invalid_action, invalid_modify,
  duplicate_order_id, exec_new, fill, rejected, cancelled, replaced, OrderRequest, is_market,
  is_limit,
}
use electronic_exchange_simu.OrderBook.State.{
  Order, OrderBook, request_id, create_order, set_level, set_active,
}
use electronic_exchange_simu.OrderBook.Price.{price_to_index, pl_to_price, price_invalid}
use electronic_exchange_simu.OrderBook.Response.{send_response}
use electronic_exchange_simu.OrderBook.Levels.{remove_order_from_level, remove_price_level}
use electronic_exchange_simu.OrderBook.Match.{match_order}

abbrev pub global_max_qty : ℕ
global_max_qty = 1_000_000_000

-- The response to a request that is refused; it echoes the request's price and quantity.
unfoldable pub reject : OrderBook → OrderRequest → ℕ → RejectCode → OrderBook
reject b req q_rem code =
    send_response b rejected (request_id req) req.exec_id req.side req.p req.q q_rem code

abbrev pub is_some {ℓ} : {A : Type ℓ} → Option A → Bool
is_some none = Bool.false
is_some (some a) = true

-- The level at which an order enters the match: a market order's is the last one it can reach.
unfoldable pub entry_index : OrderBook → OrderRequest → ℕ
entry_index b req =
    if is_market req.type
    then elim req.side [ buy ↦ b.max_price_levels - 1 | _ ↦ 0 ]
    else price_to_index b req.p

unfoldable pub handle_new_order : OrderBook → OrderRequest → Bool → OrderBook
unfolding reject create_order
handle_new_order b req report_ack =
    let id = request_id req in
    if is_some (b.active_orders id)
    then reject b req 0 duplicate_order_id
    else if not (ltb_ℤ (pos 0) req.p) && is_limit req.type
    then reject b req 0 reject_price
    else if leb req.q 0 || ltb global_max_qty req.q
    then reject b req 0 invalid_quantity
    else let b1 =
        if report_ack
        then send_response b exec_new id req.exec_id req.side req.p req.q req.q no_reject
        else b in
      match_order (create_order req) req.side (entry_index b req) b1

-- The order with an id in a level's list.
unfoldable pub find_order : ℕ → List Order → Option Order
find_order id [] = none
find_order id (o ∷ os) = if o.order_id == id then some o else find_order id os

-- `active_orders_.find(id)` and `it->second`: the order's level and the order.
unfoldable pub lookup_order : OrderBook → ℕ → Option (ℕ × Order)
unfolding find_order
lookup_order b id = elim (b.active_orders id) [
  | none ↦ none
  | some i ↦ elim (find_order id (b.price_array i).orders) [ none ↦ none | some o ↦ some (i, o) ]
]

-- `removeOrderFromLevel(o); pl->total_qty -= o->qty_remaining;` and `removePriceLevel(pl, req->side)`
-- once the level is empty.
unfoldable pub take_out : OrderBook → ℕ → Order → OrderRequest → OrderBook
unfolding remove_order_from_level
take_out b i o req =
    let pl = remove_order_from_level (b.price_array i) o.order_id in
    let b1 = set_level b i (record pl { total_qty = sub64 pl.total_qty o.qty_remaining }) in
    if pl.order_count == 0 then remove_price_level b1 i req.side else b1

unfoldable pub cancel_found : OrderBook → OrderRequest → Bool → ℕ → Order → OrderBook
unfolding take_out
cancel_found b req report_cancelled i o =
    let b1 = take_out (set_active b o.order_id none) i o req in
    if report_cancelled
    then send_response b1 cancelled o.order_id req.exec_id req.side (pl_to_price b i) o.qty_original
        0 no_reject
    else b1

unfoldable pub handle_cancel_order : OrderBook → OrderRequest → Bool → OrderBook
unfolding lookup_order reject cancel_found
handle_cancel_order b req report_cancelled = elim (lookup_order b (request_id req)) [
  | none ↦ reject b req 0 order_not_found
  | some (i, o) ↦ cancel_found b req report_cancelled i o
]

-- `total_qty += qty_diff` of an int64_t to a uint64_t.
abbrev pub add_diff : ℕ → ℤ → ℕ
add_diff t (pos d) = add64 t d
add_diff t (negsuc d) = sub64 t (suc d)

-- Writing the quantities of the order where it stands.
unfoldable pub set_order : Order → List Order → List Order
set_order o [] = []
set_order o (x ∷ xs) = if x.order_id == o.order_id then o ∷ xs else x ∷ set_order o xs

-- The new price, quantity, executed quantity and remaining quantity of a modification.
abbrev pub is_nonzero : ℤ → Bool
is_nonzero (pos n) = ltb 0 n
is_nonzero (negsuc n) = true

unfoldable pub modify_target : OrderBook → OrderRequest → ℕ → ℕ
modify_target b req i = if is_nonzero req.p then price_to_index b req.p else i

unfoldable pub modify_qty : OrderRequest → Order → ℕ
modify_qty req o = if ltb 0 req.q then req.q else o.qty_original

unfoldable pub executed_qty : Order → ℕ
executed_qty o = sub64 o.qty_original o.qty_remaining

-- The order with its new quantities.
abbrev pub resized : Order → ℕ → ℕ → Order
resized o qty rem = record o { qty_original = qty; qty_remaining = rem }

-- An order that moves or grows is taken out and matched again at the target.
unfoldable pub modify_requeue : OrderBook → OrderRequest → ℕ → Order → ℕ → ℕ → ℕ → OrderBook
unfolding take_out
modify_requeue b req i o target qty rem =
    let b1 = take_out b i o req in
    if rem == 0
    then set_active
        (send_response b1 fill (request_id req) req.exec_id req.side (pl_to_price b1 target) 0 0
          no_reject)
        o.order_id none
    else match_order (resized o qty rem) req.side target b1

-- An order that only shrinks keeps its place.
unfoldable pub modify_in_place : OrderBook → ℕ → Order → ℕ → ℕ → OrderBook
unfolding set_order
modify_in_place b i o qty rem =
    let pl = b.price_array i in
    set_level b i (record pl {
      orders = set_order (resized o qty rem) pl.orders;
      total_qty = add_diff pl.total_qty (sub_ℕ qty o.qty_original);
    })

-- What follows the `Replaced` response.
unfoldable pub modify_apply : OrderBook → OrderRequest → ℕ → Order → ℕ → ℕ → ℕ → OrderBook
unfolding modify_requeue modify_in_place
modify_apply b req i o target qty rem =
    if i == target && qty == o.qty_original
    then b
    else if rem == 0 || (not (i == target) || ltb o.qty_original qty)
    then modify_requeue b req i o target qty rem
    else modify_in_place b i o qty rem

-- From the comparison with the executed quantity on. Both branches of the source, with and without
-- a change, send the same response first.
unfoldable pub modify_found : OrderBook → OrderRequest → ℕ → Order → OrderBook
unfolding reject modify_target modify_qty executed_qty modify_apply
modify_found b req i o =
    let target = modify_target b req i in
    let qty = modify_qty req o in
    let rem = qty - executed_qty o in
    if ltb qty (executed_qty o)
    then reject b req o.qty_remaining invalid_modify
    else modify_apply
        (send_response b replaced (request_id req) req.exec_id req.side (pl_to_price b target) qty
          rem no_reject)
        req i o target qty rem

unfoldable pub handle_modify_order : OrderBook → OrderRequest → OrderBook
unfolding lookup_order reject modify_found
handle_modify_order b req = elim (lookup_order b (request_id req)) [
  | none ↦ reject b req 0 order_not_found
  | some (i, o) ↦
      if ltb global_max_qty req.q
      then reject b req o.qty_remaining invalid_quantity
      else if is_nonzero req.p && price_invalid b req.p
      then reject b req o.qty_remaining reject_price
      else modify_found b req i o
]

-- `switch (req->action)`.
unfoldable pub process_action : OrderBook → OrderRequest → OrderAction → OrderBook
unfolding handle_cancel_order handle_modify_order handle_new_order reject
process_action b req cancel = handle_cancel_order b req true
process_action b req modify = handle_modify_order b req
process_action b req new =
    if not (is_market req.type) && price_invalid b req.p
    then reject b req 0 reject_price
    else handle_new_order b req true
process_action b req (other_action n) = reject b req 0 invalid_action

unfoldable pub process_request : OrderBook → OrderRequest → OrderBook
unfolding process_action
process_request b req = process_action b req req.action
