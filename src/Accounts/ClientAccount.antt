-- ===== src/Accounts/ClientAccount.antt =====
-- include/client/ClientAccount.hpp.
use electronic_exchange_simu.Prelude.{
  ℕ, ◌==◌, ltb, ◌^◌, Bool, true, false, Option, none, some, List, [], ◌∷◌, if◌then◌else◌, update,
}
use electronic_exchange_simu.Prelude.Int.{ℤ, pos, ◌+ℤ◌, ◌-ℤ◌, ◌*ℤ◌}
use electronic_exchange_simu.Wire.{
  Side, buy, sell, no_side, ExecType, exec_new, partial_fill, fill, rejected, cancelled, replaced,
  order_status, complete, RejectCode, order_not_found, OrderResponse,
}

-- std::map<uint32_t, int64_t>: what is not there reads as 0.
abbrev pub int_or_0 : Option ℤ → ℤ
int_or_0 none = pos 0
int_or_0 (some z) = z

-- `static_cast<int64_t>` of a uint64_t.
abbrev pub to_int64 : ℕ → ℤ
to_int64 q = if ltb q (2 ^ 63) then pos q else pos q -ℤ pos (2 ^ 64)

pub record ClientAccount : Type 0 where
  pub positions : ℕ → Option ℤ
  pub open_orders : List OrderResponse

-- `positions_[symbol_id] += delta`
abbrev pub add_position : ClientAccount → ℕ → ℤ → ClientAccount
add_position a symbol_id delta = record a {
  positions = update a.positions symbol_id (some (int_or_0 (a.positions symbol_id) +ℤ delta));
}

abbrev pub sub_position : ClientAccount → ℕ → ℤ → ClientAccount
sub_position a symbol_id delta = record a {
  positions = update a.positions symbol_id (some (int_or_0 (a.positions symbol_id) -ℤ delta));
}

-- Symbol 0 is cash.
unfoldable pub update_position_and_cash : ClientAccount → ℕ → Side → ℕ → ℤ → ClientAccount
update_position_and_cash a symbol_id buy qty price =
    sub_position (add_position a symbol_id (to_int64 qty)) 0 (to_int64 qty *ℤ price)
update_position_and_cash a symbol_id sell qty price =
    add_position (sub_position a symbol_id (to_int64 qty)) 0 (to_int64 qty *ℤ price)
update_position_and_cash a symbol_id no_side qty price = a

-- The first order with the id is overwritten; without one the response is appended.
unfoldable pub put_order : OrderResponse → List OrderResponse → List OrderResponse
put_order r [] = r ∷ []
put_order r (o ∷ os) = if o.order_id == r.order_id then r ∷ os else o ∷ put_order r os

unfoldable pub erase_order : ℕ → List OrderResponse → List OrderResponse
erase_order id [] = []
erase_order id (o ∷ os) = if o.order_id == id then os else o ∷ erase_order id os

abbrev pub is_order_not_found : RejectCode → Bool
is_order_not_found order_not_found = true
is_order_not_found _ = false

abbrev pub put_open : ClientAccount → OrderResponse → ClientAccount
put_open a r = record a { open_orders = put_order r a.open_orders }

abbrev pub erase_open : ClientAccount → OrderResponse → ClientAccount
erase_open a r = record a { open_orders = erase_order r.order_id a.open_orders }

-- `switch (exec_type)`
unfoldable pub handle_exec : ClientAccount → OrderResponse → ExecType → ClientAccount
unfolding update_position_and_cash put_order erase_order
handle_exec a r order_status = put_open a r
handle_exec a r exec_new = put_open a r
handle_exec a r replaced = put_open a r
handle_exec a r partial_fill = update_position_and_cash a r.symbol_id r.side r.q r.p
handle_exec a r fill = erase_open (update_position_and_cash a r.symbol_id r.side r.q r.p) r
handle_exec a r cancelled = erase_open a r
handle_exec a r rejected = if is_order_not_found r.reject_code then erase_open a r else a
handle_exec a r complete = a

unfoldable pub handle_order_response : ClientAccount → OrderResponse → ClientAccount
unfolding handle_exec
handle_order_response a r = handle_exec a r r.exec_type

unfoldable pub handle_position_response : ClientAccount → ℕ → ℤ → ClientAccount
handle_position_response a symbol_id position = record a {
  positions = update a.positions symbol_id (some position);
}

unfoldable pub get_position : ClientAccount → ℕ → ℤ
get_position a symbol_id = int_or_0 (a.positions symbol_id)

unfoldable pub get_cash : ClientAccount → ℤ
unfolding get_position
get_cash a = get_position a 0

unfoldable pub clear_account : ClientAccount → ClientAccount
clear_account a = record { positions = λ id. none; open_orders = [] }
