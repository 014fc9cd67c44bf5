-- ===== src/OrderBook/Response.antt =====
-- OrderBook::sendResponse.
use electronic_exchange_simu.Prelude.{ℕ, ◌∷◌, ◌||◌, not, if◌then◌else◌}
use electronic_exchange_simu.Prelude.Int.{ℤ}
use electronic_exchange_simu.Wire.{Side, RejectCode, ExecType, OrderResponse}
use electronic_exchange_simu.OrderBook.State.{OrderBook, order_half, client_half}

-- The record that is written.
unfoldable pub response :
    OrderBook → ExecType → ℕ → ℕ → Side → ℤ → ℕ → ℕ → RejectCode → OrderResponse
response b exec_type combined_id exec_id side p q q_rem reject_code = record {
  exec_type = exec_type;
  order_id = order_half combined_id;
  client_id = client_half combined_id;
  exec_id = exec_id;
  symbol_id = b.symbol_id;
  side = side;
  p = p;
  q = q;
  q_rem = q_rem;
  reject_code = reject_code;
}

-- `reserve` fails only for the lengths 0 and 0xFFFFFFFF, and the record has neither.
unfoldable pub send_response :
    OrderBook → ExecType → ℕ → ℕ → Side → ℤ → ℕ → ℕ → RejectCode → OrderBook
unfolding response
send_response b exec_type combined_id exec_id side p q q_rem reject_code =
    if b.recover_mode || not b.response_ring then b else record b {
      journal = response b exec_type combined_id exec_id side p q q_rem reject_code ∷ b.journal;
    }
