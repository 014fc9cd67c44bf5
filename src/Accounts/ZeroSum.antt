-- ===== src/Accounts/ZeroSum.antt =====
-- src/OrderBook.cpp with include/client/ClientAccount.hpp: what all clients together book of a match.
use electronic_exchange_simu.Prelude.{
  ℕ, zero, suc, ◌==◌, ◌||◌, not, true, false, none, List, [], ◌∷◌, ◌≡◌, refl, sym, ap, ap₂, ◌∙◌,
  arith, if_elim, Bool-cases, Option-cases, inl, inr, length, min,
}
use electronic_exchange_simu.Prelude.Int.{ℤ, pos, ◌+ℤ◌, +ℤ_assoc, +ℤ_comm, +ℤ_zero}
use electronic_exchange_simu.Wire.{
  Side, ExecType, RejectCode, side_eq, no_side, no_reject, OrderResponse,
}
use electronic_exchange_simu.OrderBook.State.{Order, OrderBook, opposite, set_level}
use electronic_exchange_simu.OrderBook.Price.{pl_to_price}
use electronic_exchange_simu.OrderBook.Response.{response, send_response}
use electronic_exchange_simu.OrderBook.Levels.{remove_price_level, get_or_create_price_level}
use electronic_exchange_simu.OrderBook.Match.{
  Matching, fill_type, take_qty, report_fill, fill_one, drop_maker, match_level, match_step,
  match_loop, next_level, finish_match, rest_order, match_order,
}
use electronic_exchange_simu.OrderBook.Rounds.{match_level_rule, next_round}
use electronic_exchange_simu.Accounts.ClientAccount.{
  ClientAccount, handle_order_response, get_position,
}
use electronic_exchange_simu.Accounts.Positions.{delta, handle_exec-delta}
use electronic_exchange_simu.Accounts.Balance.{response-balance}

abbrev pub new_account : ClientAccount
new_account = record { positions = λ id. none; open_orders = [] }

-- What the accounts that the responses of a journal are for book of them, taken together.
abbrev pub booked : List OrderResponse → ℕ → ℤ
booked [] s = pos 0
booked (r ∷ rs) s = get_position (handle_order_response new_account r) s +ℤ booked rs s

handle_order_response-delta :
    (r : OrderResponse) (s : ℕ) → get_position (handle_order_response new_account r) s ≡ delta r s
unfolding handle_order_response get_position
handle_order_response-delta r s =
    handle_exec-delta new_account r r.exec_type s
    ∙ +ℤ_comm (pos 0) (delta r s)
    ∙ +ℤ_zero (delta r s)

+ℤ_opposite : (x y z : ℤ) → x +ℤ y ≡ pos 0 → y +ℤ (x +ℤ z) ≡ z
+ℤ_opposite x y z h =
    sym (+ℤ_assoc y x z) ∙ ap (λ w. w +ℤ z) (+ℤ_comm y x ∙ h) ∙ +ℤ_comm (pos 0) z ∙ +ℤ_zero z

send_response-quiet :
    (b : OrderBook) (e : ExecType) (id x : ℕ) (t : Side) (p : ℤ) (q r : ℕ) (c : RejectCode)
    → (b.recover_mode || not b.response_ring) ≡ true
    → send_response b e id x t p q r c ≡ b
unfolding send_response
send_response-quiet b e id x t p q r c h = rw h refl

send_response-told :
    (b : OrderBook) (e : ExecType) (id x : ℕ) (t : Side) (p : ℤ) (q r : ℕ) (c : RejectCode)
    → (b.recover_mode || not b.response_ring) ≡ false
    → send_response b e id x t p q r c
      ≡ record b { journal = response b e id x t p q r c ∷ b.journal }
unfolding send_response
send_response-told b e id x t p q r c h = rw h refl

module _ (side : Side) (trading : side_eq side no_side ≡ false) (s : ℕ) where
  report_fill-booked :
      (b : OrderBook) (taker maker : Order) (p : ℤ) (q : ℕ)
      → booked (report_fill b taker maker side p q).journal s ≡ booked b.journal s
  unfolding report_fill
  report_fill-booked b taker maker p q =
      let x = b.gen 0 in
      let b1 = record b { gen = λ n. b.gen (suc n) } in
      let t =
        response b1 (fill_type taker.qty_remaining) taker.order_id x side p q taker.qty_remaining
          no_reject in
      let b2 = record b1 { journal = t ∷ b.journal } in
      let m =
        response b1 (fill_type maker.qty_remaining) maker.order_id x (opposite side) p q
          maker.qty_remaining no_reject in
      elim (Bool-cases (b.recover_mode || not b.response_ring)) [
        | inl e ↦
            rw
              (
                send_response-quiet b1 (fill_type taker.qty_remaining) taker.order_id x side p q
                    taker.qty_remaining no_reject e,
                send_response-quiet b1 (fill_type maker.qty_remaining) maker.order_id x
                    (opposite side) p q maker.qty_remaining no_reject e,
              )
              refl
        | inr e ↦
            rw
              (
                send_response-told b1 (fill_type taker.qty_remaining) taker.order_id x side p q
                    taker.qty_remaining no_reject e,
                send_response-told b2 (fill_type maker.qty_remaining) maker.order_id x
                    (opposite side) p q maker.qty_remaining no_reject e,
              )
              (ap₂ (λ y z. z +ℤ (y +ℤ booked b.journal s)) (handle_order_response-delta t s)
                  (handle_order_response-delta
                    (response b2 (fill_type maker.qty_remaining) maker.order_id x (opposite side) p
                      q maker.qty_remaining no_reject)
                    s)
                ∙ +ℤ_opposite (delta t s) (delta m s) (booked b.journal s) (
                    response-balance b1 side taker.order_id maker.order_id x q taker.qty_remaining
                      maker.qty_remaining s p trading))
      ]

  fill_one-booked :
      (p : ℤ) (o : Order) (os : List Order) (m : Matching)
      → booked (fill_one side p o os m).book.journal s ≡ booked m.book.journal s
  unfolding fill_one
  fill_one-booked p o os m =
      let q = min o.qty_remaining m.taker.qty_remaining in
      report_fill-booked m.book (take_qty m.taker q) (take_qty o q) p q

  next_round-booked :
      (p : ℤ) (o : Order) (os : List Order) (m : Matching)
      → booked (next_round side p o os m).book.journal s ≡ booked m.book.journal s
  unfolding drop_maker
  next_round-booked p o os m = fill_one-booked p o os m

  match_level-booked :
      (p : ℤ) (os : List Order) (m : Matching)
      → booked (match_level side p os m).book.journal s ≡ booked m.book.journal s
  match_level-booked p =
      match_level_rule side p (λ os m r. booked r.book.journal s ≡ booked m.book.journal s)
        (λ m. refl) (λ o os m z. refl) (λ o os m z h. fill_one-booked p o os m)
        (λ o os m r z h ih. ih ∙ next_round-booked p o os m)

  remove_price_level-journal :
      (b : OrderBook) (i : ℕ) (t : Side) → (remove_price_level b i t).journal ≡ b.journal
  unfolding remove_price_level
  remove_price_level-journal b i t = ground arith

  match_step-booked :
      (i : ℕ) (t : Order) (b : OrderBook)
      → booked (match_step side i t b).1.journal s ≡ booked b.journal s
  unfolding match_step
  match_step-booked i t b =
      if_elim (λ (c : OrderBook). booked c.journal s ≡ booked b.journal s)
        (m.level.order_count == 0)
        (λ _.
          ap (λ j. booked j s)
            (remove_price_level-journal (set_level m.book i m.level) i (opposite side))
          ∙ told)
        (λ _. told)
    where
      start : Matching
      start = record { taker = t; level = b.price_array i; book = b }

      m : Matching
      m = match_level side (pl_to_price b i) (b.price_array i).orders start

      told : booked m.book.journal s ≡ booked b.journal s
      told = match_level-booked (pl_to_price b i) (b.price_array i).orders start

  match_loop-booked :
      (fuel price_idx : ℕ) (t : Order) (b : OrderBook)
      → booked (match_loop fuel side price_idx t b).1.journal s ≡ booked b.journal s
  unfolding match_loop
  match_loop-booked zero price_idx t b = refl
  match_loop-booked (suc fuel) price_idx t b = elim (Option-cases (next_level side price_idx t b)) [
    | inl e ↦ rw (e, match_loop) refl
    | inr (i, e) ↦
        let (t', b') = match_step side i t b in
        rw (e, match_loop) (match_loop-booked fuel price_idx t' b' ∙ match_step-booked i t b)
  ]

  finish_match-journal :
      (price_idx : ℕ) (t : Order) (b : OrderBook)
      → (finish_match side price_idx t b).journal ≡ b.journal
  unfolding finish_match rest_order get_or_create_price_level
  finish_match-journal price_idx t b = ground arith

  -- Matching an order moves positions and cash between clients and makes none: what the responses
  -- that match sends for it change of a symbol's positions, or of cash, in the accounts of the
  -- clients that they are for, as handle_order_response books them, adds up to 0, so the sum over
  -- the journal is what it was. The side of the order is Buy or Sell.
  pub match_order-booked :
      (taker : Order) (price_idx : ℕ) (b : OrderBook)
      → booked (match_order taker side price_idx b).journal s ≡ booked b.journal s
  unfolding match_order
  match_order-booked taker price_idx b =
      let fuel = suc (length (b.active_levels (opposite side))) in
      let (t', b') = match_loop fuel side price_idx taker b in
      ap (λ j. booked j s) (finish_match-journal price_idx t' b')
      ∙ match_loop-booked fuel price_idx taker b
