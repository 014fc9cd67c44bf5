-- ===== src/OrderBook/Requests.antt =====
-- Every request keeps the book valid, where a cancellation or modification names the side that its
-- order is on.
use electronic_exchange_simu.Prelude.{
  ℕ, ◌<◌, true, not, ◌&&◌, some, ◌≡◌, sym, subst, ◌≢◌, arith, ltb, if_elim, Option-cases, inl, inr,
  u64_mod,
}
use electronic_exchange_simu.Wire.{
  price_invalid as reject_price, invalid_quantity, order_not_found, invalid_action, OrderRequest,
  OrderAction, new, cancel, modify, other_action, is_market,
}
use electronic_exchange_simu.OrderBook.State.{Order, OrderBook, request_id}
use electronic_exchange_simu.OrderBook.Price.{price_invalid}
use electronic_exchange_simu.OrderBook.Handlers.{
  find_order, lookup_order, handle_cancel_order, handle_modify_order, process_action,
  process_request, global_max_qty, is_nonzero,
}
use electronic_exchange_simu.OrderBook.Linked.{keys_of}
use electronic_exchange_simu.OrderBook.Valid.{IsValid, IsTrading, HasRoom}
use electronic_exchange_simu.OrderBook.TakeOut.{find_order-order_id}
use electronic_exchange_simu.OrderBook.NewOrders.{reject-IsValid, handle_new_order-IsValid}
use electronic_exchange_simu.OrderBook.Changes.{cancel_found-IsValid, modify_found-IsValid}

-- What is looked up stands in its level.
lookup_order-found :
    (b : OrderBook) (id i : ℕ) (o : Order)
    → lookup_order b id ≡ some (i, o)
    → (b.active_orders id ≡ some i) × (find_order id (b.price_array i).orders ≡ some o)
unfolding lookup_order
lookup_order-found b id i o h = ground arith

-- The order that a request names, if there is one, rests on the side that the request says.
abbrev pub IsOnSide : OrderBook → OrderRequest → Type 0
IsOnSide b req = (i : ℕ) → b.active_orders (request_id req) ≡ some i → keys_of b req.side i ≡ true

-- What is looked up is where a request on its side says.
module _ (b : OrderBook) (req : OrderRequest) (i : ℕ) (o : Order)
    (e : lookup_order b (request_id req) ≡ some (i, o)) where
  looked_up : find_order o.order_id (b.price_array i).orders ≡ some o
  looked_up =
      let (active, found) = lookup_order-found b (request_id req) i o e in
      subst (λ x. find_order x (b.price_array i).orders ≡ some o)
        (sym (find_order-order_id (request_id req) (b.price_array i).orders o found)) found

  on_side : IsOnSide b req → keys_of b req.side i ≡ true
  on_side h = h i ((lookup_order-found b (request_id req) i o e).0)

module _ (b : OrderBook) (req : OrderRequest) (trading : IsTrading req.side)
    (v : IsValid b req.side) (room : HasRoom b) where
  handle_cancel_order-IsValid : IsOnSide b req → IsValid (handle_cancel_order b req true) req.side
  unfolding handle_cancel_order
  handle_cancel_order-IsValid h = elim (Option-cases (lookup_order b (request_id req))) [
    | inl e ↦ rw (e, handle_cancel_order) (reject-IsValid b req 0 order_not_found req.side v)
    | inr ((i, o), e) ↦
        rw (e, handle_cancel_order)
          (cancel_found-IsValid b req trading v i o (on_side b req i o e h) (looked_up b req i o e))
  ]

  handle_modify_order-IsValid :
      IsOnSide b req → req.q < u64_mod → IsValid (handle_modify_order b req) req.side
  unfolding handle_modify_order
  handle_modify_order-IsValid h small = elim (Option-cases (lookup_order b (request_id req))) [
    | inl e ↦ rw (e, handle_modify_order) (reject-IsValid b req 0 order_not_found req.side v)
    | inr ((i, o), e) ↦
        rw (e, handle_modify_order)
          (if_elim (λ (c : OrderBook). IsValid c req.side) (ltb global_max_qty req.q)
            (λ _. reject-IsValid b req o.qty_remaining invalid_quantity req.side v)
            λ _.
              if_elim (λ (c : OrderBook). IsValid c req.side)
                (is_nonzero req.p && price_invalid b req.p)
                (λ _. reject-IsValid b req o.qty_remaining reject_price req.side v)
                λ _.
                  modify_found-IsValid b req trading v i o (on_side b req i o e h)
                    (looked_up b req i o e) room small)
  ]

  process_action-IsValid :
      (a : OrderAction)
      → (a ≢ new → IsOnSide b req)
      → req.q < u64_mod
      → IsValid (process_action b req a) req.side
  unfolding process_action
  process_action-IsValid new h small =
      if_elim (λ (c : OrderBook). IsValid c req.side)
        (not (is_market req.type) && price_invalid b req.p)
        (λ _. reject-IsValid b req 0 reject_price req.side v)
        (λ _. handle_new_order-IsValid b req trading v room)
  process_action-IsValid cancel h small = handle_cancel_order-IsValid (h (λ e. cc))
  process_action-IsValid modify h small = handle_modify_order-IsValid (h (λ e. cc)) small
  process_action-IsValid (other_action n) h small = reject-IsValid b req 0 invalid_action req.side v

-- Processing a request keeps the book's invariant: the chains of both sides lead through their keys
-- in price order, the counters agree with the queues, no resting order is used up and no bid
-- reaches an ask. The request's side is Buy or Sell, the book is valid, its quantity fits 64 bits,
-- no level is so long that one more order overflows its count, and for an action other than New the
-- order that it names, if any, rests on the side that it says.
pub process_request-IsValid :
    (b : OrderBook) (req : OrderRequest)
    → IsTrading req.side
    → IsValid b req.side
    → HasRoom b
    → (req.action ≢ new → IsOnSide b req)
    → req.q < u64_mod
    → IsValid (process_request b req) req.side
unfolding process_request
process_request-IsValid b req trading v room h small =
    process_action-IsValid b req trading v room req.action h small
