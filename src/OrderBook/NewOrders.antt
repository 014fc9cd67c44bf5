-- ===== src/OrderBook/NewOrders.antt =====
-- A new order, accepted or refused, keeps the book valid.
use electronic_exchange_simu.Prelude.{ℕ, true, not, ◌||◌, ◌&&◌, ◌≡◌, refl, arith, ltb, leb, if_elim}
use electronic_exchange_simu.Prelude.Int.{ℤ, pos, ltb_ℤ}
use electronic_exchange_simu.Wire.{
  Side, buy, sell, no_side, RejectCode, no_reject, price_invalid as reject_price,
  duplicate_order_id, invalid_quantity, ExecType, exec_new, is_limit, OrderRequest,
}
use electronic_exchange_simu.OrderBook.State.{OrderBook, opposite, request_id, create_order}
use electronic_exchange_simu.OrderBook.Response.{send_response}
use electronic_exchange_simu.OrderBook.Handlers.{
  reject, entry_index, handle_new_order, is_some, global_max_qty,
}
use electronic_exchange_simu.OrderBook.Valid.{IsValid, IsTrading, HasRoom, IsValid-same}
use electronic_exchange_simu.OrderBook.Resting.{match_order-IsValid}

pub opposite-opposite : (s : Side) → opposite (opposite s) ≡ s
opposite-opposite buy = refl
opposite-opposite sell = refl
opposite-opposite no_side = refl

pub opposite-IsTrading : (s : Side) → IsTrading s → IsTrading (opposite s)
opposite-IsTrading buy h = h
opposite-IsTrading sell h = h
opposite-IsTrading no_side h = h

-- A response leaves the book valid.
pub send_response-IsValid :
    (b : OrderBook) (e : ExecType) (id x : ℕ) (s : Side) (p : ℤ) (q r : ℕ) (c : RejectCode)
    (u : Side)
    → IsValid b u
    → IsValid (send_response b e id x s p q r c) u
unfolding send_response
send_response-IsValid b e id x s p q r c u v =
    IsValid-same b _ u v (ground arith) (ground arith) (ground arith)

pub send_response-same :
    (b : OrderBook) (e : ExecType) (id x : ℕ) (s : Side) (p : ℤ) (q r : ℕ) (c : RejectCode)
    → ((send_response b e id x s p q r c).price_array ≡ b.price_array)
      × ((send_response b e id x s p q r c).active_levels ≡ b.active_levels)
unfolding send_response
send_response-same b e id x s p q r c = ground arith

pub reject-IsValid :
    (b : OrderBook) (req : OrderRequest) (r : ℕ) (c : RejectCode) (u : Side)
    → IsValid b u
    → IsValid (reject b req r c) u
unfolding reject
reject-IsValid b req r c u v = send_response-IsValid b _ _ _ _ _ _ _ _ u v

module _ (b : OrderBook) (req : OrderRequest) (trading : IsTrading req.side)
    (v : IsValid b req.side) (room : HasRoom b) where
  pub handle_new_order-IsValid : IsValid (handle_new_order b req true) req.side
  unfolding handle_new_order create_order
  handle_new_order-IsValid =
      if_elim P (is_some (b.active_orders id)) (λ _. refused duplicate_order_id)
        λ _.
          if_elim P (not (ltb_ℤ (pos 0) req.p) && is_limit req.type) (λ _. refused reject_price)
            λ _.
              if_elim P (leb req.q 0 || ltb global_max_qty req.q) (λ _. refused invalid_quantity)
                λ e.
                  match_order-IsValid b1 req.side (entry_index b req) (create_order req) trading
                    (send_response-IsValid b exec_new id req.exec_id req.side req.p req.q req.q
                      no_reject req.side v)
                    (omega arith, ground arith)
                    (rw
                      ((send_response-same b exec_new id req.exec_id req.side req.p req.q req.q
                        no_reject).0)
                      room)
    where
      id : ℕ
      id = request_id req

      P : OrderBook → Type 0
      P c = IsValid c req.side

      refused : (c : RejectCode) → P (reject b req 0 c)
      refused c = reject-IsValid b req 0 c req.side v

      b1 : OrderBook
      b1 = send_response b exec_new id req.exec_id req.side req.p req.q req.q no_reject
