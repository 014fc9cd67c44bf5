-- ===== src/Accounts/Samples.antt =====
-- A response for the tests.
use electronic_exchange_simu.Prelude.Int.{pos}
use electronic_exchange_simu.Wire.{sell, exec_new, no_reject, OrderResponse}

abbrev pub order_answer : OrderResponse
order_answer = record {
  exec_type = exec_new;
  order_id = 7;
  client_id = 2;
  exec_id = 1;
  symbol_id = 1;
  side = sell;
  p = pos 10600;
  q = 100;
  q_rem = 100;
  reject_code = no_reject;
}
