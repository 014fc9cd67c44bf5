-- ===== src/Accounts/Agreement.antt =====
-- The server's positions and the client's move alike, and the two sides of a fill balance.
use electronic_exchange_simu.Prelude.{
  ℕ, ◌==◌, false, Option, some, ◌≡◌, refl, sym, ap, ap₂, ◌∙◌, arith, if◌then◌else◌, Bool-cases, inl,
  inr, ==_iff,
}
use electronic_exchange_simu.Prelude.Int.{
  ℤ, pos, ◌+ℤ◌, ◌-ℤ◌, ◌*ℤ◌, +ℤ_assoc, +ℤ_zero, -ℤ_neg, *ℤ_comm,
}
use electronic_exchange_simu.Wire.{
  Side, buy, sell, no_side, side_eq, ExecType, exec_new, partial_fill, fill, rejected, cancelled,
  replaced, order_status, complete, OrderResponse,
}
use electronic_exchange_simu.OrderBook.Taken.{eq_self}
use electronic_exchange_simu.Accounts.ClientAccount.{
  ClientAccount, int_or_0, to_int64, handle_order_response, get_position,
}
use electronic_exchange_simu.Accounts.ClientDatabase.{
  ClientDatabase, positions_or_new, add_to, asset_delta, cash_delta, book_trade, book_order,
  get_position_db, get_or_create_client_positions, is_trade, update_on_execution,
  increment_and_get_client_o_seq_num,
}
use electronic_exchange_simu.Accounts.Positions.{
  signed, at_symbol, fill_delta, exec_delta, delta, handle_exec-delta,
}

int_or_0-add_to :
    (f : ℕ → Option ℤ) (i : ℕ) (z : ℤ) (s : ℕ)
    → int_or_0 (add_to f i z s) ≡ int_or_0 (f s) +ℤ at_symbol i s z
int_or_0-add_to f i z s = elim (Bool-cases (i == s)) [
  | inl e ↦ rw e (ap (λ j. int_or_0 (f j) +ℤ z) ((==_iff i s).0 e))
  | inr e ↦ rw e (sym (+ℤ_zero (int_or_0 (f s))))
]

-- The deltas of the database are those of the client.
deltas :
    (side : Side) (q : ℕ) (p : ℤ)
    → side_eq side no_side ≡ false
    → (asset_delta side q ≡ signed side (to_int64 q))
      × (cash_delta side (p *ℤ to_int64 q) ≡ pos 0 -ℤ signed side (to_int64 q *ℤ p))
deltas buy q p h = (refl, ap (λ z. pos 0 -ℤ z) (*ℤ_comm p (to_int64 q)))
deltas sell q p h = (refl, *ℤ_comm p (to_int64 q) ∙ sym (-ℤ_neg (to_int64 q *ℤ p)))
deltas no_side q p h = cc

-- What an entry of the positions reads as.
positions-found :
    (d : ClientDatabase) (c : ℕ) (f : ℕ → Option ℤ) (s : ℕ)
    → d.positions c ≡ some f
    → get_position_db d c s ≡ int_or_0 (f s)
unfolding get_position_db get_or_create_client_positions
positions-found d c f s e = ap (λ o. int_or_0 (positions_or_new o s)) e

positions-same :
    (d d' : ClientDatabase) (c s : ℕ)
    → d'.positions c ≡ d.positions c
    → get_position_db d' c s ≡ get_position_db d c s
unfolding get_position_db get_or_create_client_positions
positions-same d d' c s e = ap (λ o. int_or_0 (positions_or_new o s)) e

book_trade-delta :
    (d : ClientDatabase) (r : OrderResponse) (s : ℕ)
    → side_eq r.side no_side ≡ false
    → get_position_db (book_trade d r) r.client_id s
      ≡ get_position_db d r.client_id s +ℤ fill_delta r.side r.symbol_id (to_int64 r.q) r.p s
unfolding get_position_db book_trade
book_trade-delta d r s h =
    let f = get_or_create_client_positions d r.client_id in
    let g = add_to f r.symbol_id (asset_delta r.side r.q) in
    positions-found (book_trade d r) r.client_id
      (add_to g 0 (cash_delta r.side (r.p *ℤ to_int64 r.q))) s (rw (eq_self r.client_id))
    ∙ int_or_0-add_to g 0 (cash_delta r.side (r.p *ℤ to_int64 r.q)) s
    ∙ ap (λ z. z +ℤ at_symbol 0 s (cash_delta r.side (r.p *ℤ to_int64 r.q)))
        (int_or_0-add_to f r.symbol_id (asset_delta r.side r.q) s)
    ∙ +ℤ_assoc (int_or_0 (f s)) (at_symbol r.symbol_id s (asset_delta r.side r.q))
        (at_symbol 0 s (cash_delta r.side (r.p *ℤ to_int64 r.q)))
    ∙ ap₂ (λ x y. int_or_0 (f s) +ℤ (at_symbol r.symbol_id s x +ℤ at_symbol 0 s y))
        ((deltas r.side r.q r.p h).0) ((deltas r.side r.q r.p h).1)

-- Another client's positions stay.
book_trade-other :
    (d : ClientDatabase) (r : OrderResponse) (c : ℕ)
    → (r.client_id == c) ≡ false
    → (book_trade d r).positions c ≡ d.positions c
unfolding book_trade
book_trade-other d r c n = rw n

book_order-positions :
    (d : ClientDatabase) (r : OrderResponse) (e : ExecType)
    → (book_order d r e).positions ≡ d.positions
unfolding book_order
book_order-positions d r exec_new = refl
book_order-positions d r partial_fill = ground arith
book_order-positions d r fill = refl
book_order-positions d r rejected = refl
book_order-positions d r cancelled = refl
book_order-positions d r replaced = refl
book_order-positions d r order_status = refl
book_order-positions d r complete = refl

-- The database after the sequence number and the trade.
traded : ClientDatabase → OrderResponse → ExecType → ClientDatabase
unfolding increment_and_get_client_o_seq_num
traded d r e =
    let d1 = (increment_and_get_client_o_seq_num d r.client_id).1 in
    if is_trade e then book_trade d1 r else d1

update_on_execution-positions :
    (d : ClientDatabase) (r : OrderResponse) (log_offset : ℕ)
    → (update_on_execution d r log_offset).positions ≡ (traded d r r.exec_type).positions
unfolding update_on_execution traded
update_on_execution-positions d r log_offset =
    book_order-positions (traded d r r.exec_type) r r.exec_type

module _ (d : ClientDatabase) (r : OrderResponse) where
  -- The database with the next sequence number.
  numbered : ClientDatabase
  unfolding increment_and_get_client_o_seq_num
  numbered = (increment_and_get_client_o_seq_num d r.client_id).1

  numbered-position : (c s : ℕ) → get_position_db numbered c s ≡ get_position_db d c s
  unfolding numbered increment_and_get_client_o_seq_num
  numbered-position c s = positions-same d numbered c s refl

  untraded :
      (s : ℕ) → get_position_db numbered r.client_id s ≡ get_position_db d r.client_id s +ℤ pos 0
  untraded s = numbered-position r.client_id s ∙ sym (+ℤ_zero (get_position_db d r.client_id s))

  booked :
      (s : ℕ)
      → side_eq r.side no_side ≡ false
      → get_position_db (book_trade numbered r) r.client_id s
        ≡ get_position_db d r.client_id s +ℤ fill_delta r.side r.symbol_id (to_int64 r.q) r.p s
  booked s h =
      book_trade-delta numbered r s h
      ∙ ap (λ z. z +ℤ fill_delta r.side r.symbol_id (to_int64 r.q) r.p s)
          (numbered-position r.client_id s)

  traded-delta :
      (e : ExecType) (s : ℕ)
      → side_eq r.side no_side ≡ false
      → get_position_db (traded d r e) r.client_id s
        ≡ get_position_db d r.client_id s +ℤ exec_delta r (to_int64 r.q) e s
  unfolding traded numbered
  traded-delta exec_new s h = untraded s
  traded-delta partial_fill s h = booked s h
  traded-delta fill s h = booked s h
  traded-delta rejected s h = untraded s
  traded-delta cancelled s h = untraded s
  traded-delta replaced s h = untraded s
  traded-delta order_status s h = untraded s
  traded-delta complete s h = untraded s

-- The server's record of a client's positions and cash and the client's own agree after an
-- execution that both process, for every symbol, where they agreed before. The execution's side is
-- Buy or Sell.
pub update_on_execution-agrees :
    (d : ClientDatabase) (a : ClientAccount) (r : OrderResponse) (log_offset : ℕ)
    → side_eq r.side no_side ≡ false
    → ((s : ℕ) → get_position_db d r.client_id s ≡ get_position a s)
    → (s : ℕ)
    → get_position_db (update_on_execution d r log_offset) r.client_id s
      ≡ get_position (handle_order_response a r) s
unfolding handle_order_response
update_on_execution-agrees d a r log_offset h same s =
    positions-same (traded d r r.exec_type) (update_on_execution d r log_offset) r.client_id s
      (ap (λ f. f r.client_id) (update_on_execution-positions d r log_offset))
    ∙ traded-delta d r r.exec_type s h
    ∙ ap (λ z. z +ℤ delta r s) (same s)
    ∙ sym (handle_exec-delta a r r.exec_type s)
