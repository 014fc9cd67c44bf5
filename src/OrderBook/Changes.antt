-- ===== src/OrderBook/Changes.antt =====
-- A cancellation or a modification of an order that was found keeps the book valid, where the
-- request names the side that the order is on.
use electronic_exchange_simu.Prelude.{
  ℕ, ◌<◌, ◌≤◌, ◌+◌, ◌-◌, true, not, ◌||◌, ◌&&◌, none, some, List, [], ◌∷◌, ◌≡◌, refl, sym, subst,
  arith, ltb, ◌==◌, if_elim, All, u64_mod, sub64-eq-sub,
}
use electronic_exchange_simu.Wire.{
  no_reject, invalid_modify, cancelled, replaced, fill, OrderRequest,
}
use electronic_exchange_simu.OrderBook.State.{Order, OrderBook, opposite, request_id, set_active}
use electronic_exchange_simu.OrderBook.Price.{pl_to_price}
use electronic_exchange_simu.OrderBook.Response.{send_response}
use electronic_exchange_simu.OrderBook.Handlers.{
  find_order, take_out, cancel_found, modify_target, modify_qty, executed_qty, resized,
  modify_requeue, modify_apply, modify_found,
}
use electronic_exchange_simu.OrderBook.Linked.{keys_of}
use electronic_exchange_simu.OrderBook.Valid.{IsValid, IsTrading, HasRoom, IsValid-same}
use electronic_exchange_simu.OrderBook.Fifo.{IsLive}
use electronic_exchange_simu.OrderBook.Resting.{match_order-IsValid}
use electronic_exchange_simu.OrderBook.TakeOut.{IsValid-flip, take_out-IsValid, take_out-HasRoom}
use electronic_exchange_simu.OrderBook.Amend.{modify_in_place-IsValid}
use electronic_exchange_simu.OrderBook.NewOrders.{
  send_response-IsValid, send_response-same, reject-IsValid, opposite-opposite, opposite-IsTrading,
}

module _ (b : OrderBook) (req : OrderRequest) (trading : IsTrading req.side)
    (v : IsValid b req.side) (i : ℕ) (o : Order) (there : keys_of b req.side i ≡ true)
    (found : find_order o.order_id (b.price_array i).orders ≡ some o) where
  -- `take_out` seen from the side of the request.
  out-IsValid : IsValid (take_out b i o req) req.side
  out-IsValid = subst (IsValid (take_out b i o req)) (opposite-opposite req.side) (
      IsValid-flip (take_out b i o req) (opposite req.side) (opposite-IsTrading req.side trading) (
        take_out-IsValid b (opposite req.side) (opposite-IsTrading req.side trading)
          (IsValid-flip b req.side trading v) i o (rw opposite-opposite there) found req
          (sym (opposite-opposite req.side))))

  modify_requeue-IsValid :
      (target qty rem : ℕ)
      → HasRoom b
      → rem ≤ qty
      → qty < u64_mod
      → IsValid (modify_requeue b req i o target qty rem) req.side
  unfolding modify_requeue
  modify_requeue-IsValid target qty rem room le small =
      let b1 = take_out b i o req in
      let b2 =
        send_response b1 fill (request_id req) req.exec_id req.side (pl_to_price b1 target) 0 0
          no_reject in
      if_elim (λ (c : OrderBook). IsValid c req.side) (rem == 0)
        (λ e.
          IsValid-same b2 (set_active b2 o.order_id none) req.side
            (send_response-IsValid b1 fill (request_id req) req.exec_id req.side
              (pl_to_price b1 target) 0 0 no_reject req.side out-IsValid)
            refl refl refl)
        (λ e.
          match_order-IsValid b1 req.side target (resized o qty rem) trading out-IsValid (le, small)
            (take_out-HasRoom b i o room req))

  modify_apply-IsValid :
      (target qty rem : ℕ)
      → HasRoom b
      → IsLive o
      → o.qty_original ≤ qty + o.qty_remaining
      → rem + o.qty_original ≡ qty + o.qty_remaining
      → qty < u64_mod
      → IsValid (modify_apply b req i o target qty rem) req.side
  unfolding modify_apply
  modify_apply-IsValid target qty rem room alive done left small =
      if_elim (λ (c : OrderBook). IsValid c req.side) (i == target && qty == o.qty_original)
        (λ e. v)
        λ e.
          if_elim (λ (c : OrderBook). IsValid c req.side)
            (rem == 0 || (not (i == target) || ltb o.qty_original qty))
            (λ f. modify_requeue-IsValid target qty rem room (omega arith) small)
            λ f.
              modify_in_place-IsValid b req.side v i o qty rem found (ground arith) (ground arith)
                (ground arith)

executed : (o : Order) → IsLive o → executed_qty o + o.qty_remaining ≡ o.qty_original
unfolding executed_qty
executed o h = omega (arith, sub64-eq-sub o.qty_original o.qty_remaining h.1.0 h.1.1)

modify_qty-lt :
    (req : OrderRequest) (o : Order)
    → req.q < u64_mod
    → o.qty_original < u64_mod
    → modify_qty req o < u64_mod
unfolding modify_qty
modify_qty-lt req o h k = ground arith

find_order-IsLive :
    (id : ℕ) (os : List Order) (o : Order) → All IsLive os → find_order id os ≡ some o → IsLive o
unfolding find_order
find_order-IsLive id [] o a h = cc
find_order-IsLive id (x ∷ os) o a h = ground (arith, find_order-IsLive id os o a.1)

module _ (b : OrderBook) (req : OrderRequest) (trading : IsTrading req.side)
    (v : IsValid b req.side) (i : ℕ) (o : Order) (there : keys_of b req.side i ≡ true)
    (found : find_order o.order_id (b.price_array i).orders ≡ some o) where
  pub cancel_found-IsValid : IsValid (cancel_found b req true i o) req.side
  unfolding cancel_found
  cancel_found-IsValid =
      let b1 = set_active b o.order_id none in
      send_response-IsValid (take_out b1 i o req) cancelled o.order_id req.exec_id req.side
        (pl_to_price b i) o.qty_original 0 no_reject req.side
        (out-IsValid b1 req trading (IsValid-same b b1 req.side v refl refl refl) i o there found)

  pub modify_found-IsValid : HasRoom b → req.q < u64_mod → IsValid (modify_found b req i o) req.side
  unfolding modify_found
  modify_found-IsValid room small =
      let target = modify_target b req i in
      let qty = modify_qty req o in
      let rem = qty - executed_qty o in
      let id = request_id req in
      let p = pl_to_price b target in
      let b1 = send_response b replaced id req.exec_id req.side p qty rem no_reject in
      let same = send_response-same b replaced id req.exec_id req.side p qty rem no_reject in
      let alive = find_order-IsLive o.order_id (b.price_array i).orders o (v.live i) found in
      if_elim (λ (c : OrderBook). IsValid c req.side) (ltb qty (executed_qty o))
        (λ e. reject-IsValid b req o.qty_remaining invalid_modify req.side v)
        λ e.
          modify_apply-IsValid b1 req trading
            (send_response-IsValid b replaced id req.exec_id req.side p qty rem no_reject req.side
              v)
            i o (rw (same.1) there) (rw (same.0) found) target qty rem (rw (same.0) room) alive
            (ground (arith, executed o alive)) (ground (arith, executed o alive))
            (modify_qty-lt req o small alive.1.1)
