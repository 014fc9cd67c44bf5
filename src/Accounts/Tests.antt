-- ===== src/Accounts/Tests.antt =====
-- The theorems on accounts at small inputs.
use electronic_exchange_simu.Prelude.{
  ℕ, ◌+◌, ◌*◌, ◌<◌, ◌^◌, arith, none, some, [], ◌∷◌, ◌≡◌, refl, false,
}
use electronic_exchange_simu.Prelude.Int.{pos, ◌+ℤ◌}
use electronic_exchange_simu.Wire.{buy, limit, fill, OrderResponse}
use electronic_exchange_simu.OrderBook.State.{Order}
use electronic_exchange_simu.OrderBook.Match.{match_order}
use electronic_exchange_simu.OrderBook.Samples.{one_ask}
use electronic_exchange_simu.Accounts.Samples.{order_answer}
use electronic_exchange_simu.Accounts.ClientAccount.{
  ClientAccount, handle_order_response, get_position,
}
use electronic_exchange_simu.Accounts.ClientDatabase.{
  ClientDatabase, update_on_execution, get_position_db, get_or_create_client_positions,
}
use electronic_exchange_simu.Accounts.Positions.{handle_all, total_delta, handle_all-total_delta}
use electronic_exchange_simu.Accounts.Agreement.{update_on_execution-agrees}
use electronic_exchange_simu.Accounts.ZeroSum.{booked, match_order-booked}
use electronic_exchange_simu.Accounts.OpenOrders.{
  is_open, IsDistinct, handle_order_response-open_after,
}

abbrev order_fill : OrderResponse
order_fill = record order_answer { exec_type = fill; q_rem = 0 }

abbrev account : ClientAccount
account = record { positions = λ s. some (pos 5); open_orders = order_answer ∷ [] }

abbrev database : ClientDatabase
database = record {
  i_seq_nums = λ c. 0;
  o_seq_nums = λ c. 0;
  log_offsets = λ c. [];
  positions = λ c. some (λ s. some (pos 5));
  open_orders = λ c id. none;
  last_log_offset = 0;
}

hundred_fits : 100 < 2 ^ 63
hundred_fits = omega arith

handle_all-total_delta_example :
    get_position (handle_all account (order_fill ∷ [])) 1
    ≡ get_position account 1 +ℤ total_delta (order_fill ∷ []) 1
handle_all-total_delta_example =
    handle_all-total_delta account (order_fill ∷ []) 1 (hundred_fits, tt)

agree : (s : ℕ) → get_position_db database 2 s ≡ get_position account s
unfolding get_position_db get_position get_or_create_client_positions
agree s = refl

update_on_execution-agrees_example :
    get_position_db (update_on_execution database order_fill 64) 2 0
    ≡ get_position (handle_order_response account order_fill) 0
update_on_execution-agrees_example =
    update_on_execution-agrees database account order_fill 64 refl agree 0

handle_order_response-open_after_example :
    (is_open (handle_order_response account order_fill).open_orders 7 ≡ false)
    × IsDistinct (handle_order_response account order_fill).open_orders
handle_order_response-open_after_example =
    handle_order_response-open_after account order_fill 7 (refl, tt)

-- An order that buys what a resting order sells.
abbrev buyer : Order
buyer = record {
  order_id = 3 * 2 ^ 32 + 9;
  qty_original = 140;
  qty_remaining = 140;
  type = limit;
  timestamp = 5;
  symbol_id = 1;
}

match_order-booked_example :
    booked (match_order buyer buy 650 one_ask).journal 0 ≡ booked one_ask.journal 0
match_order-booked_example = match_order-booked buy refl 0 buyer 650 one_ask
