-- ===== src/Accounts/OpenOrders.antt =====
-- Which orders a client's account holds open.
use electronic_exchange_simu.Prelude.{
  ℕ, ◌==◌, ◌||◌, Bool, true, false, List, [], ◌∷◌, ◌≡◌, refl, arith, if◌then◌else◌, Bool-cases, inl,
  inr,
}
use electronic_exchange_simu.Wire.{
  ExecType, exec_new, partial_fill, fill, rejected, cancelled, replaced, order_status, complete,
  OrderResponse, Side, buy, sell, no_side,
}
use electronic_exchange_simu.Prelude.Int.{ℤ}
use electronic_exchange_simu.Accounts.ClientAccount.{
  ClientAccount, put_order, erase_order, handle_exec, handle_order_response, is_order_not_found,
  update_position_and_cash, put_open, erase_open,
}

abbrev pub is_open : List OrderResponse → ℕ → Bool
is_open [] id = false
is_open (o ∷ os) id = o.order_id == id || is_open os id

-- No two open orders have the same id.
abbrev pub IsDistinct : List OrderResponse → Type 0
IsDistinct [] = Unit
IsDistinct (o ∷ os) = (is_open os o.order_id ≡ false) × IsDistinct os

is_open-put_order :
    (r : OrderResponse) (os : List OrderResponse) (id : ℕ)
    → is_open (put_order r os) id ≡ (r.order_id == id || is_open os id)
unfolding put_order
is_open-put_order r [] id = refl
is_open-put_order r (o ∷ os) id = ground (arith, is_open-put_order r os id)

put_order-IsDistinct :
    (r : OrderResponse) (os : List OrderResponse) → IsDistinct os → IsDistinct (put_order r os)
unfolding put_order
put_order-IsDistinct r [] h = (refl, tt)
put_order-IsDistinct r (o ∷ os) h =
    ground (arith, put_order-IsDistinct r os h.1, is_open-put_order r os o.order_id, h.0)

is_open-erase_order :
    (i : ℕ) (os : List OrderResponse) (id : ℕ)
    → IsDistinct os
    → is_open (erase_order i os) id ≡ (if i == id then false else is_open os id)
unfolding erase_order
is_open-erase_order i [] id h = ground arith
is_open-erase_order i (o ∷ os) id h = ground (arith, is_open-erase_order i os id h.1, h.0)

erase_order-IsDistinct :
    (i : ℕ) (os : List OrderResponse) → IsDistinct os → IsDistinct (erase_order i os)
unfolding erase_order
erase_order-IsDistinct i [] h = h
erase_order-IsDistinct i (o ∷ os) h =
    ground (arith, erase_order-IsDistinct i os h.1, is_open-erase_order i os o.order_id h.1, h.0)

-- Whether the order of a response is open afterwards, by the kind of the execution.
abbrev pub open_after : OrderResponse → ExecType → Bool → Bool
open_after r exec_new before = true
open_after r replaced before = true
open_after r order_status before = true
open_after r fill before = false
open_after r cancelled before = false
open_after r rejected before = if is_order_not_found r.reject_code then false else before
open_after r partial_fill before = before
open_after r complete before = before

same_open :
    (a : ClientAccount) (symbol_id : ℕ) (side : Side) (q : ℕ) (p : ℤ)
    → (update_position_and_cash a symbol_id side q p).open_orders ≡ a.open_orders
unfolding update_position_and_cash
same_open a symbol_id buy q p = refl
same_open a symbol_id sell q p = refl
same_open a symbol_id no_side q p = refl

abbrev pub IsHandled : ClientAccount → OrderResponse → ExecType → ℕ → ClientAccount → Type 0
IsHandled a r e id c =
    (is_open c.open_orders id ≡ (
      if r.order_id == id
      then open_after r e (is_open a.open_orders id)
      else is_open a.open_orders id))
    × IsDistinct c.open_orders

module _ (a : ClientAccount) (r : OrderResponse) (id : ℕ) (h : IsDistinct a.open_orders) where
  opened : IsHandled a r exec_new id (put_open a r)
  opened =
      (ground (arith, is_open-put_order r a.open_orders id), put_order-IsDistinct r a.open_orders h)

  closed : IsHandled a r cancelled id (erase_open a r)
  closed = (
    is_open-erase_order r.order_id a.open_orders id h,
    erase_order-IsDistinct r.order_id a.open_orders h,
  )

  kept : IsHandled a r complete id a
  kept = (ground arith, h)

  handle_exec-IsHandled : (e : ExecType) → IsHandled a r e id (handle_exec a r e)
  unfolding handle_exec
  handle_exec-IsHandled exec_new = opened
  handle_exec-IsHandled replaced = opened
  handle_exec-IsHandled order_status = opened
  handle_exec-IsHandled cancelled = closed
  handle_exec-IsHandled fill = rw (same_open a r.symbol_id r.side r.q r.p) closed
  handle_exec-IsHandled partial_fill = rw (same_open a r.symbol_id r.side r.q r.p) kept
  handle_exec-IsHandled rejected = elim (Bool-cases (is_order_not_found r.reject_code)) [
    | inl e ↦ rw e closed
    | inr e ↦ rw e kept
  ]
  handle_exec-IsHandled complete = kept

-- After a response the order that it names is open if it is new, replaced or a status, not open if
-- it is filled, cancelled or not found, and as before otherwise; every other order is as before;
-- and no two open orders have the same id. Before, no two have.
pub handle_order_response-open_after :
    (a : ClientAccount) (r : OrderResponse) (id : ℕ)
    → IsDistinct a.open_orders
    → let c = handle_order_response a r in
      let before = is_open a.open_orders id in
      (is_open c.open_orders id
        ≡ (if r.order_id == id then open_after r r.exec_type before else before))
      × IsDistinct c.open_orders
unfolding handle_order_response
handle_order_response-open_after a r id h = handle_exec-IsHandled a r id h r.exec_type
