-- ===== src/Accounts/Balance.antt =====
-- The two reports of a fill, as OrderBook::match sends them, balance.
use electronic_exchange_simu.Prelude.{
  ℕ, ◌==◌, false, ◌≡◌, refl, ap, ap₂, ◌∙◌, arith, Bool-cases, inl, inr, if_elim,
}
use electronic_exchange_simu.Prelude.Int.{
  ℤ, pos, ◌+ℤ◌, ◌-ℤ◌, ◌*ℤ◌, +ℤ_parts, +ℤ_cancel, +ℤ_comm, +ℤ_zero, eq_of_parts, -ℤ_neg,
}
use electronic_exchange_simu.Wire.{Side, buy, sell, no_side, side_eq, no_reject, OrderResponse}
use electronic_exchange_simu.OrderBook.State.{OrderBook, opposite}
use electronic_exchange_simu.OrderBook.Response.{response}
use electronic_exchange_simu.OrderBook.Match.{fill_type}
use electronic_exchange_simu.Accounts.ClientAccount.{to_int64}
use electronic_exchange_simu.Accounts.Positions.{signed, at_symbol, fill_delta, exec_delta, delta}

+ℤ_middle : (a b c d : ℤ) → (a +ℤ b) +ℤ (c +ℤ d) ≡ (a +ℤ c) +ℤ (b +ℤ d)
+ℤ_middle a b c d = eq_of_parts _ _ (
    omega (
      arith,
      +ℤ_parts a b,
      +ℤ_parts c d,
      +ℤ_parts a c,
      +ℤ_parts b d,
      +ℤ_parts (a +ℤ b) (c +ℤ d),
      +ℤ_parts (a +ℤ c) (b +ℤ d),
    ))

at_symbol-cancel : (i s : ℕ) (x y : ℤ) → x +ℤ y ≡ pos 0 → at_symbol i s x +ℤ at_symbol i s y ≡ pos 0
at_symbol-cancel i s x y h = elim (Bool-cases (i == s)) [
  | inl e ↦ rw e h
  | inr e ↦ rw e (+ℤ_zero (pos 0))
]

signed-opposite :
    (side : Side) (z : ℤ)
    → side_eq side no_side ≡ false
    → (signed side z +ℤ signed (opposite side) z ≡ pos 0)
      × ((pos 0 -ℤ signed side z) +ℤ (pos 0 -ℤ signed (opposite side) z) ≡ pos 0)
signed-opposite buy z h =
    (+ℤ_cancel z, ap (λ y. (pos 0 -ℤ z) +ℤ y) (-ℤ_neg z) ∙ +ℤ_comm (pos 0 -ℤ z) z ∙ +ℤ_cancel z)
signed-opposite sell z h =
    (+ℤ_comm (pos 0 -ℤ z) z ∙ +ℤ_cancel z, ap (λ y. y +ℤ (pos 0 -ℤ z)) (-ℤ_neg z) ∙ +ℤ_cancel z)
signed-opposite no_side z h = cc

exec_delta-fill_type :
    (r : OrderResponse) (q_rem s : ℕ)
    → exec_delta r (to_int64 r.q) (fill_type q_rem) s
      ≡ fill_delta r.side r.symbol_id (to_int64 r.q) r.p s
exec_delta-fill_type r q_rem s =
    if_elim
      (λ e. exec_delta r (to_int64 r.q) e s ≡ fill_delta r.side r.symbol_id (to_int64 r.q) r.p s)
      (q_rem == 0) (λ _. refl) (λ _. refl)

-- The two responses that report one fill balance: what they change of the positions and the cash of
-- the taker and of the maker adds up to 0, for every symbol. The taker's side is Buy or Sell.
pub response-balance :
    (b : OrderBook) (side : Side) (taker maker exec_id q taker_rem maker_rem s : ℕ) (p : ℤ)
    → side_eq side no_side ≡ false
    → let t = response b (fill_type taker_rem) taker exec_id side p q taker_rem no_reject in
      let m =
        response b (fill_type maker_rem) maker exec_id (opposite side) p q maker_rem no_reject in
      delta t s +ℤ delta m s ≡ pos 0
unfolding response
response-balance b side taker maker exec_id q taker_rem maker_rem s p h =
    let t = response b (fill_type taker_rem) taker exec_id side p q taker_rem no_reject in
    let m =
      response b (fill_type maker_rem) maker exec_id (opposite side) p q maker_rem no_reject in
    ap₂ ◌+ℤ◌ (exec_delta-fill_type t taker_rem s) (exec_delta-fill_type m maker_rem s)
    ∙ +ℤ_middle _ _ _ _
    ∙ ap₂ ◌+ℤ◌ (at_symbol-cancel b.symbol_id s _ _ (signed-opposite side (to_int64 q) h).0)
        (at_symbol-cancel 0 s _ _ (signed-opposite side (to_int64 q *ℤ p) h).1)
    ∙ +ℤ_zero (pos 0)
