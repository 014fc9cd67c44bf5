-- ===== src/Accounts/Positions.antt =====
-- Positions are the sum of the fills, and the two reports of a fill balance.
use electronic_exchange_simu.Prelude.{
  ℕ, ◌==◌, ◌^◌, ◌<◌, List, [], ◌∷◌, ◌≡◌, sym, ap, ap₂, ◌∙◌, arith, if◌then◌else◌, Bool-cases, inl,
  inr, ==_iff, if_elim,
}
use electronic_exchange_simu.Prelude.Int.{
  ℤ, pos, ◌+ℤ◌, ◌-ℤ◌, ◌*ℤ◌, +ℤ_assoc, +ℤ_zero, -ℤ_plus, -ℤ_neg,
}
use electronic_exchange_simu.Wire.{
  Side, buy, sell, no_side, ExecType, exec_new, partial_fill, fill, rejected, cancelled, replaced,
  order_status, complete, OrderResponse,
}
use electronic_exchange_simu.Accounts.ClientAccount.{
  ClientAccount, int_or_0, to_int64, update_position_and_cash, handle_exec, handle_order_response,
  get_position, add_position, sub_position, is_order_not_found,
}

-- What a fill changes: the asset by the quantity, cash by the value, with opposite signs.
abbrev pub signed : Side → ℤ → ℤ
signed buy z = z
signed sell z = pos 0 -ℤ z
signed no_side z = pos 0

abbrev pub at_symbol : ℕ → ℕ → ℤ → ℤ
at_symbol symbol_id s z = if symbol_id == s then z else pos 0

abbrev pub fill_delta : Side → ℕ → ℤ → ℤ → ℕ → ℤ
fill_delta side symbol_id q p s =
    at_symbol symbol_id s (signed side q) +ℤ at_symbol 0 s (pos 0 -ℤ signed side (q *ℤ p))

abbrev pub exec_delta : OrderResponse → ℤ → ExecType → ℕ → ℤ
exec_delta r q partial_fill s = fill_delta r.side r.symbol_id q r.p s
exec_delta r q fill s = fill_delta r.side r.symbol_id q r.p s
exec_delta r q _ s = pos 0

abbrev pub delta : OrderResponse → ℕ → ℤ
delta r s = exec_delta r (to_int64 r.q) r.exec_type s

get_position-add :
    (a : ClientAccount) (symbol_id : ℕ) (z : ℤ) (s : ℕ)
    → get_position (add_position a symbol_id z) s ≡ get_position a s +ℤ at_symbol symbol_id s z
unfolding get_position
get_position-add a symbol_id z s = elim (Bool-cases (symbol_id == s)) [
  | inl e ↦ rw e (ap (λ j. int_or_0 (a.positions j) +ℤ z) ((==_iff symbol_id s).0 e))
  | inr e ↦ rw e (sym (+ℤ_zero (int_or_0 (a.positions s))))
]

get_position-sub :
    (a : ClientAccount) (symbol_id : ℕ) (z : ℤ) (s : ℕ)
    → get_position (sub_position a symbol_id z) s
      ≡ get_position a s +ℤ at_symbol symbol_id s (pos 0 -ℤ z)
unfolding get_position
get_position-sub a symbol_id z s = elim (Bool-cases (symbol_id == s)) [
  | inl e ↦ rw e (
      ap (λ j. int_or_0 (a.positions j) -ℤ z) ((==_iff symbol_id s).0 e)
      ∙ -ℤ_plus (int_or_0 (a.positions s)) z)
  | inr e ↦ rw e (sym (+ℤ_zero (int_or_0 (a.positions s))))
]

at_symbol_zero : (i s : ℕ) → at_symbol i s (pos 0) ≡ pos 0
at_symbol_zero i s = ground arith

fill-delta :
    (a : ClientAccount) (symbol_id : ℕ) (side : Side) (q : ℕ) (p : ℤ) (s : ℕ)
    → get_position (update_position_and_cash a symbol_id side q p) s
      ≡ get_position a s +ℤ fill_delta side symbol_id (to_int64 q) p s
unfolding update_position_and_cash ◌-ℤ◌
fill-delta a symbol_id buy q p s =
    get_position-sub (add_position a symbol_id (to_int64 q)) 0 (to_int64 q *ℤ p) s
    ∙ ap (λ z. z +ℤ at_symbol 0 s (pos 0 -ℤ (to_int64 q *ℤ p)))
        (get_position-add a symbol_id (to_int64 q) s)
    ∙ +ℤ_assoc (get_position a s) (at_symbol symbol_id s (to_int64 q)) _
fill-delta a symbol_id sell q p s =
    get_position-add (sub_position a symbol_id (to_int64 q)) 0 (to_int64 q *ℤ p) s
    ∙ ap₂ ◌+ℤ◌ (get_position-sub a symbol_id (to_int64 q) s)
        (ap (at_symbol 0 s) (sym (-ℤ_neg (to_int64 q *ℤ p))))
    ∙ +ℤ_assoc (get_position a s) (at_symbol symbol_id s (pos 0 -ℤ to_int64 q)) _
fill-delta a symbol_id no_side q p s =
    sym (+ℤ_zero (get_position a s))
    ∙ ap (λ z. get_position a s +ℤ z)
        (sym (+ℤ_zero (pos 0))
          ∙ ap₂ ◌+ℤ◌ (sym (at_symbol_zero symbol_id s)) (sym (at_symbol_zero 0 s)))

position-same : (a : ClientAccount) (s : ℕ) → get_position a s ≡ get_position a s +ℤ pos 0
position-same a s = sym (+ℤ_zero (get_position a s))

pub handle_exec-delta :
    (a : ClientAccount) (r : OrderResponse) (e : ExecType) (s : ℕ)
    → get_position (handle_exec a r e) s ≡ get_position a s +ℤ exec_delta r (to_int64 r.q) e s
unfolding handle_exec get_position
handle_exec-delta a r exec_new s = position-same a s
handle_exec-delta a r partial_fill s = fill-delta a r.symbol_id r.side r.q r.p s
handle_exec-delta a r fill s = fill-delta a r.symbol_id r.side r.q r.p s
handle_exec-delta a r rejected s =
    if_elim (λ (b : ClientAccount). get_position b s ≡ get_position a s +ℤ pos 0)
      (is_order_not_found r.reject_code) (λ _. position-same a s) (λ _. position-same a s)
handle_exec-delta a r cancelled s = position-same a s
handle_exec-delta a r replaced s = position-same a s
handle_exec-delta a r order_status s = position-same a s
handle_exec-delta a r complete s = position-same a s

-- A client's responses, first to last, and what they change together.
abbrev pub handle_all : ClientAccount → List OrderResponse → ClientAccount
handle_all a [] = a
handle_all a (r ∷ rs) = handle_all (handle_order_response a r) rs

-- The sum of the fills, with their quantities as they are.
abbrev pub total_delta : List OrderResponse → ℕ → ℤ
total_delta [] s = pos 0
total_delta (r ∷ rs) s = exec_delta r (pos r.q) r.exec_type s +ℤ total_delta rs s

-- Every quantity fits int64_t.
abbrev pub Fits : List OrderResponse → Type 0
Fits [] = Unit
Fits (r ∷ rs) = (r.q < 2 ^ 63) × Fits rs

to_int64-small : (q : ℕ) → q < 2 ^ 63 → to_int64 q ≡ pos q
to_int64-small q h = ground arith

-- A client's position in a symbol, or its cash, after any sequence of responses is what it was
-- before with the fills among them added, bought quantities and the value of sales positive, sold
-- quantities and the value of purchases negative. Each response's quantity is below 2^63.
pub handle_all-total_delta :
    (a : ClientAccount) (rs : List OrderResponse) (s : ℕ)
    → Fits rs
    → get_position (handle_all a rs) s ≡ get_position a s +ℤ total_delta rs s
unfolding handle_order_response
handle_all-total_delta a [] s h = position-same a s
handle_all-total_delta a (r ∷ rs) s h =
    handle_all-total_delta (handle_order_response a r) rs s h.1
    ∙ ap (λ z. z +ℤ total_delta rs s)
        (handle_exec-delta a r r.exec_type s
          ∙ ap (λ q. get_position a s +ℤ exec_delta r q r.exec_type s) (to_int64-small r.q h.0))
    ∙ +ℤ_assoc (get_position a s) (exec_delta r (pos r.q) r.exec_type s) (total_delta rs s)
