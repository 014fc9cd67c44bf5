-- ===== src/OrderBook/Recovery.antt =====
-- What recover_mode_ leaves out of a request: the responses, and nothing of the book.
use electronic_exchange_simu.Prelude.{
  ℕ, true, none, ◌≡◌, ap, ◌∙◌, arith, ltb, Bool-cases, Option-cases, inl, inr, sub64, ◌-◌,
}
use electronic_exchange_simu.Prelude.Int.{ℤ}
use electronic_exchange_simu.Wire.{
  Side, RejectCode, no_reject, price_invalid as reject_price, invalid_quantity, order_not_found,
  invalid_modify, invalid_action, ExecType, exec_new, replaced, OrderRequest, OrderAction, new,
  cancel, modify, other_action,
}
use electronic_exchange_simu.OrderBook.State.{
  Order, OrderBook, set_level, set_active, create_order, request_id,
}
use electronic_exchange_simu.OrderBook.Price.{pl_to_price, price_to_index, price_invalid}
use electronic_exchange_simu.OrderBook.Response.{send_response}
use electronic_exchange_simu.OrderBook.Quiet.{quiet, remove_price_level-quiet, match_order-quiet}
use electronic_exchange_simu.OrderBook.Levels.{remove_order_from_level}
use electronic_exchange_simu.OrderBook.Handlers.{
  process_request, process_action, entry_index, lookup_order, handle_new_order, handle_cancel_order,
  handle_modify_order, reject, take_out, cancel_found, modify_requeue, modify_in_place,
  modify_apply, modify_found, modify_target, modify_qty, executed_qty, resized,
}

reject-quiet :
    (b : OrderBook) (req : OrderRequest) (r : ℕ) (c : RejectCode)
    → quiet (reject b req r c) ≡ reject (quiet b) req r c
unfolding reject send_response
reject-quiet b req r c = ground arith

take_out-quiet :
    (b : OrderBook) (i : ℕ) (o : Order) (req : OrderRequest)
    → quiet (take_out b i o req) ≡ take_out (quiet b) i o req
unfolding take_out
take_out-quiet b i o req = ground (
  arith,
  remove_price_level-quiet
      (set_level b i (record (remove_order_from_level (b.price_array i) o.order_id) {
        total_qty =
            sub64 (remove_order_from_level (b.price_array i) o.order_id).total_qty o.qty_remaining;
      }))
      i req.side,
)

handle_new_order-quiet :
    (b : OrderBook) (req : OrderRequest)
    → quiet (handle_new_order b req true) ≡ handle_new_order (quiet b) req true
unfolding handle_new_order entry_index price_to_index send_response
handle_new_order-quiet b req = ground (
  arith,
  match_order-quiet (create_order req) req.side (entry_index b req)
      (send_response b exec_new (request_id req) req.exec_id req.side req.p req.q req.q no_reject),
)

cancel_found-quiet :
    (b : OrderBook) (req : OrderRequest) (i : ℕ) (o : Order)
    → quiet (cancel_found b req true i o) ≡ cancel_found (quiet b) req true i o
unfolding cancel_found send_response pl_to_price
cancel_found-quiet b req i o = ground (arith, take_out-quiet (set_active b o.order_id none) i o req)

handle_cancel_order-quiet :
    (b : OrderBook) (req : OrderRequest)
    → quiet (handle_cancel_order b req true) ≡ handle_cancel_order (quiet b) req true
unfolding handle_cancel_order lookup_order
handle_cancel_order-quiet b req = elim (Option-cases (lookup_order b (request_id req))) [
  | inl e ↦ rw (e, handle_cancel_order) (reject-quiet b req 0 order_not_found)
  | inr ((i, o), e) ↦ rw (e, handle_cancel_order) (cancel_found-quiet b req i o)
]

modify_requeue-quiet :
    (b : OrderBook) (req : OrderRequest) (i : ℕ) (o : Order) (target qty rem : ℕ)
    → quiet (modify_requeue b req i o target qty rem)
      ≡ modify_requeue (quiet b) req i o target qty rem
unfolding modify_requeue send_response pl_to_price
modify_requeue-quiet b req i o target qty rem = ground (
  arith,
  take_out-quiet b i o req,
  match_order-quiet (resized o qty rem) req.side target (take_out b i o req),
)

modify_apply-quiet :
    (b : OrderBook) (req : OrderRequest) (i : ℕ) (o : Order) (target qty rem : ℕ)
    → quiet (modify_apply b req i o target qty rem) ≡ modify_apply (quiet b) req i o target qty rem
unfolding modify_apply modify_in_place
modify_apply-quiet b req i o target qty rem =
    ground (arith, modify_requeue-quiet b req i o target qty rem)

-- In recover mode nothing is sent.
send_response-eq-quiet :
    (b : OrderBook) (e : ExecType) (id x : ℕ) (s : Side) (p : ℤ) (q r : ℕ) (c : RejectCode)
    → quiet (send_response b e id x s p q r c) ≡ send_response (quiet b) e id x s p q r c
unfolding send_response
send_response-eq-quiet b e id x s p q r c = ground arith

modify_found-quiet :
    (b : OrderBook) (req : OrderRequest) (i : ℕ) (o : Order)
    → quiet (modify_found b req i o) ≡ modify_found (quiet b) req i o
unfolding modify_found modify_target pl_to_price price_to_index
modify_found-quiet b req i o =
    let target = modify_target b req i in
    let qty = modify_qty req o in
    let rem = qty - executed_qty o in
    let id = request_id req in
    let p = pl_to_price b target in
    let sent = send_response b replaced id req.exec_id req.side p qty rem no_reject in
    elim (Bool-cases (ltb qty (executed_qty o))) [
      | inl e ↦ rw e (reject-quiet b req o.qty_remaining invalid_modify)
      | inr e ↦ rw e (
          modify_apply-quiet sent req i o target qty rem
          ∙ ap (λ b1. modify_apply b1 req i o target qty rem)
              (send_response-eq-quiet b replaced id req.exec_id req.side p qty rem no_reject))
    ]

handle_modify_order-quiet :
    (b : OrderBook) (req : OrderRequest)
    → quiet (handle_modify_order b req) ≡ handle_modify_order (quiet b) req
unfolding handle_modify_order lookup_order price_invalid
handle_modify_order-quiet b req = elim (Option-cases (lookup_order b (request_id req))) [
  | inl e ↦ rw (e, handle_modify_order) (reject-quiet b req 0 order_not_found)
  | inr ((i, o), e) ↦
      rw (e, handle_modify_order)
        (ground (
          arith,
          reject-quiet b req o.qty_remaining invalid_quantity,
          reject-quiet b req o.qty_remaining reject_price,
          modify_found-quiet b req i o,
        ))
]

process_action-quiet :
    (b : OrderBook) (req : OrderRequest) (a : OrderAction)
    → quiet (process_action b req a) ≡ process_action (quiet b) req a
unfolding process_action price_invalid
process_action-quiet b req new =
    ground (arith, reject-quiet b req 0 reject_price, handle_new_order-quiet b req)
process_action-quiet b req cancel = handle_cancel_order-quiet b req
process_action-quiet b req modify = handle_modify_order-quiet b req
process_action-quiet b req (other_action n) = reject-quiet b req 0 invalid_action

-- Replaying a request in recover mode has the effect on the book that the request had live: a book
-- that has processed it, with the responses forgotten and recover mode set, is what processing it
-- makes of the book in recover mode. The draws of execution ids are the same too.
pub process_request-quiet :
    (b : OrderBook) (req : OrderRequest)
    → quiet (process_request b req) ≡ process_request (quiet b) req
unfolding process_request
process_request-quiet b req = process_action-quiet b req req.action
