-- ===== src/Clients/OrderEntry.antt =====
-- src/OrderEntryClient.cpp with include/client/OrderEntryClient.hpp, and validate_price of
-- src/TradingClientBase.cpp: the client's end of a session. `sent` holds the requests that it has
-- sent, newest first, without `visible_qty`; an exception is `none`.
use electronic_exchange_simu.Prelude.{
  ℕ, ◌==◌, ◌&&◌, ◌||◌, not, Bool, true, false, Option, none, some, List, [], ◌∷◌, if◌then◌else◌,
  add64, ◌+◌, ◌%◌, ◌^◌,
}
use electronic_exchange_simu.Prelude.Int.{ℤ, pos, ltb_ℤ, eq_ℤ, ◌*ℤ◌, tdiv, pos_part}
use electronic_exchange_simu.Wire.{
  OrderRequest, OrderResponse, OrderAction, new, cancel, modify, OrderType, limit, market, Side,
  is_market, RejectCode, no_reject, invalid_sequence_number, login_at_other_session, ExecType,
  exec_new, partial_fill, fill, replaced, order_status,
}
use electronic_exchange_simu.Accounts.ClientAccount.{
  ClientAccount, handle_order_response, handle_position_response,
}
use electronic_exchange_simu.Clients.CmClient.{
  AdminResponseType, admin_reject, admin_ready, AdminResponse, PositionResponse, admin_response,
  order_response, position_response, ClientResponse,
}
use electronic_exchange_simu.Clients.Requests.{
  log_on, RequestData, admin_request, order_request, position_request, open_order_request,
  ClientRequest,
}

pub record SymbolInfo : Type 0 where
  pub price_min_step : ℤ
  pub price_min : ℤ
  pub price_max : ℤ

pub record OrderEntryClient : Type 0 where
  pub client_id : ℕ
  pub symbol_ids : List ℕ
  pub symbols_info : ℕ → Option SymbolInfo
  pub running : Bool
  pub next_id : ℕ
  pub o_seq_num : ℕ
  pub i_seq_num : ℕ
  pub ready : Bool
  pub account : ClientAccount
  pub sent : List ClientRequest

-- TradingClientBase::validate_price; the remainder is 0 where the quotient times the step is p.
abbrev pub fits_info : Option SymbolInfo → ℤ → Bool
fits_info none p = false
fits_info (some info) p =
    not (ltb_ℤ p info.price_min || ltb_ℤ info.price_max p)
    && not (
        ltb_ℤ (pos 0) info.price_min_step
        && not (eq_ℤ p (tdiv p (pos_part info.price_min_step) *ℤ info.price_min_step)))

unfoldable pub validate_price : OrderEntryClient → ℕ → ℤ → Bool
validate_price c symbol_id p = fits_info (c.symbols_info symbol_id) p

-- A request with the client's next number.
unfoldable pub send_request : OrderEntryClient → RequestData → OrderEntryClient
send_request c content =
    let n = add64 c.o_seq_num 1 in
    record c { o_seq_num = n; sent = record { msg_seq_num = n; content = content } ∷ c.sent }

abbrev pub logon_data : OrderEntryClient → ℕ → RequestData
logon_data c ack =
    admin_request (record { action = log_on; client_id = c.client_id; ack_seq_num = ack })

-- The end of OrderEntryClient::start, once the connection is there.
unfoldable pub start_session : OrderEntryClient → OrderEntryClient
unfolding send_request
start_session c = send_request c (logon_data c 0)

unfoldable pub stop : OrderEntryClient → OrderEntryClient
stop c = record c { running = false }

unfoldable pub request_open_orders : OrderEntryClient → OrderEntryClient
unfolding send_request
request_open_orders c = send_request c (open_order_request c.client_id)

unfoldable pub request_position : OrderEntryClient → ℕ → OrderEntryClient
unfolding send_request
request_position c symbol_id = send_request c (position_request c.client_id symbol_id)

unfoldable pub query_position : OrderEntryClient → ℕ → OrderEntryClient
unfolding send_request
query_position c symbol_id = send_request c (position_request c.client_id symbol_id)

-- The price of a new order that is not a market order, and of a modification, is validated.
abbrev pub has_price : OrderAction → OrderType → Bool
has_price new type = not (is_market type)
has_price modify type = true
has_price _ type = false

-- The ids that the client gives to a request.
abbrev pub with_ids : OrderEntryClient → OrderRequest → OrderAction → OrderRequest
with_ids c order new = record order {
  client_id = c.client_id;
  order_id = c.next_id;
  exec_id = c.next_id;
}
with_ids c order _ = record order { client_id = c.client_id; exec_id = c.next_id }

-- OrderEntryClient::send_order_request at the time `now`.
unfoldable pub send_order_request : ℕ → OrderEntryClient → OrderRequest → Option OrderEntryClient
unfolding validate_price send_request
send_order_request now c order =
    if has_price order.action order.type && not (validate_price c order.symbol_id order.p)
    then none
    else some (
        send_request (record c { next_id = (c.next_id + 1) % 2 ^ 32 })
          (order_request (record (with_ids c order order.action) { timestamp = now })))

abbrev pub empty_request : OrderAction → ℕ → Side → OrderRequest
empty_request action symbol_id side = record {
  action = action;
  exec_id = 0;
  order_id = 0;
  client_id = 0;
  symbol_id = symbol_id;
  side = side;
  type = limit;
  p = pos 0;
  q = 0;
  timestamp = 0;
}

unfoldable pub new_order :
    ℕ → OrderEntryClient → ℕ → Side → OrderType → ℤ → ℕ → Option OrderEntryClient
unfolding send_order_request
new_order now c symbol_id side type p q =
    send_order_request now c
      (record (empty_request new symbol_id side) { type = type; p = p; q = q })

unfoldable pub new_limit_order : ℕ → OrderEntryClient → ℕ → Side → ℤ → ℕ → Option OrderEntryClient
unfolding new_order
new_limit_order now c symbol_id side p q = new_order now c symbol_id side limit p q

unfoldable pub new_market_order : ℕ → OrderEntryClient → ℕ → Side → ℕ → Option OrderEntryClient
unfolding new_order
new_market_order now c symbol_id side q = new_order now c symbol_id side market (pos 0) q

unfoldable pub replace_order : ℕ → OrderEntryClient → ℕ → ℤ → ℕ → ℕ → Side → Option OrderEntryClient
unfolding send_order_request
replace_order now c order_id p q symbol_id side =
    send_order_request now c
      (record (empty_request modify symbol_id side) { order_id = order_id; p = p; q = q })

unfoldable pub cancel_order : ℕ → OrderEntryClient → ℕ → ℕ → Side → Option OrderEntryClient
unfolding send_order_request
cancel_order now c order_id symbol_id side =
    send_order_request now c (record (empty_request cancel symbol_id side) { order_id = order_id })

-- The reports whose price is validated.
abbrev pub reports_price : ExecType → RejectCode → Bool
reports_price exec_new no_reject = true
reports_price fill no_reject = true
reports_price partial_fill no_reject = true
reports_price replaced no_reject = true
reports_price order_status no_reject = true
reports_price _ _ = false

unfoldable pub on_order_response : OrderEntryClient → OrderResponse → Option OrderEntryClient
unfolding validate_price
on_order_response c r =
    if reports_price r.exec_type r.reject_code && not (validate_price c r.symbol_id r.p)
    then none
    else some (record c { account = handle_order_response c.account r })

unfoldable pub on_position_response : OrderEntryClient → PositionResponse → OrderEntryClient
on_position_response c r = record c {
  account = handle_position_response c.account r.symbol_id r.position;
}

unfoldable pub request_positions : OrderEntryClient → List ℕ → OrderEntryClient
unfolding request_position
request_positions c [] = c
request_positions c (k ∷ ks) = request_positions (request_position c k) ks

-- A session that is ready asks for its open orders and positions.
unfoldable pub on_ready : OrderEntryClient → OrderEntryClient
unfolding request_open_orders request_positions
on_ready c = record (request_positions (request_open_orders c) c.symbol_ids) { ready = true }

-- A refused logon is sent again with the numbers of the refusal.
unfoldable pub on_reject : OrderEntryClient → AdminResponse → RejectCode → ℕ → OrderEntryClient
unfolding stop
on_reject c a invalid_sequence_number msg_seq_num = record c {
  o_seq_num = a.expected_seq_num;
  sent = record { msg_seq_num = a.expected_seq_num; content = logon_data c msg_seq_num } ∷ c.sent;
}
on_reject c a login_at_other_session msg_seq_num = stop c
on_reject c a _ msg_seq_num = c

abbrev pub on_admin : OrderEntryClient → AdminResponse → AdminResponseType → ℕ → OrderEntryClient
on_admin c a admin_ready msg_seq_num = on_ready c
on_admin c a admin_reject msg_seq_num = on_reject c a a.reject_code msg_seq_num

abbrev pub in_turn : OrderEntryClient → ℕ → Bool
in_turn c msg_seq_num = msg_seq_num == add64 c.i_seq_num 1

-- The handler of OrderEntryClient::start.
unfoldable pub receive : OrderEntryClient → ClientResponse → Option OrderEntryClient
unfolding on_ready on_reject on_order_response on_position_response
receive c resp =
    let c1 : OrderEntryClient = record c { i_seq_num = resp.msg_seq_num } in
    elim resp.content [
      | admin_response a ↦ some (on_admin c1 a a.type resp.msg_seq_num)
      | order_response r ↦ if not (in_turn c resp.msg_seq_num) then none else on_order_response c1 r
      | position_response r ↦
          if not (in_turn c resp.msg_seq_num) then none else some (on_position_response c1 r)
    ]
