-- ===== src/Clients/Tests.antt =====
-- src/ClientManager.cpp: a manager with one session, and the theorems at it.
use electronic_exchange_simu.Prelude.{
  ℕ, none, some, Option, true, false, [], ◌∷◌, ◌≡◌, refl, update, add64, sub64,
}
use electronic_exchange_simu.Prelude.Int.{ℤ, pos}
use electronic_exchange_simu.Wire.{
  buy, exec_new, partial_fill, OrderRequest, OrderResponse, no_reject,
}
use electronic_exchange_simu.Log.Files.{Disk}
use electronic_exchange_simu.Accounts.ClientDatabase.{
  ClientDatabase, get_position_db, get_or_create_client_positions,
}
use electronic_exchange_simu.Ring.Held.{Bytes}
use electronic_exchange_simu.Clients.CmClient.{
  CmClient, position_response, order_response, increment_inbound_seq_num,
  increment_outbound_seq_num, send_numbered, send_buffer,
}
use electronic_exchange_simu.Clients.Manager.{
  ClientManager, expected_msg_seq_num, expected_ack_seq_num, handle_client_logon,
  handle_client_logout, fits_session,
}
use electronic_exchange_simu.Clients.Requests.{
  ClientRequest, position_request, process_client_request, numbered_request, handle_request,
  handle_order_request, order_to_ring, push_request, order_request, handle_execution_response,
}
use electronic_exchange_simu.Clients.Answers.{Answers}
use electronic_exchange_simu.Clients.Numbering.{is_taken, counted, process_client_request-Answers}
use electronic_exchange_simu.Clients.Logons.{
  Counted, handle_client_logon-Counted, handle_client_logout-expected,
}
use electronic_exchange_simu.Clients.Queueing.{joined, served}
use electronic_exchange_simu.Clients.Turns.{
  Desk, Turn.requesting, Turn.responding, Turns.idle, Turns.next,
}
use electronic_exchange_simu.Ring.Shm.{create, claim, reserve, fill, commit}
use electronic_exchange_simu.OrderBook.Samples.{crossing_buy}
use electronic_exchange_simu.Clients.OrderEntry.{OrderEntryClient, send_request}
use electronic_exchange_simu.Clients.Resync.{
  Resynced, refused_logon-fits, InStep, request_of, send_request-InStep,
}
use electronic_exchange_simu.Clients.Receiving.{
  handle_responses, reports_to, queue_of, handle_responses-burst,
}

abbrev database : ClientDatabase
database = record {
  i_seq_nums = λ c. 0;
  o_seq_nums = λ c. 0;
  log_offsets = λ c. [];
  positions = λ c. some (λ s. some (pos 5));
  open_orders = λ c id. none;
  last_log_offset = 0;
}

-- Client 2 is logged on at session 1, which has asked for 3 messages and was sent 7.
abbrev client_2 : CmClient
client_2 = record {
  conn = some 5;
  client_id = 2;
  inbound_seq_num = 3;
  outbound_seq_num = 7;
  ready = true;
}

abbrev manager : ClientManager
manager = record {
  sessions = record { objects = λ p. client_2; sent = []; closed = [] };
  clients = update (λ c. none) 2 (some 1);
  pending_order_clients = λ i. 1 ∷ [];
  last_popped_client = none;
  ring_count = 1;
  request_rings = λ i. none;
  db = database;
}

abbrev no_log : Disk OrderResponse
no_log = λ i. none

abbrev one_core : ℕ → Option ℤ
one_core k = some (pos 0)

abbrev no_bytes : OrderRequest → Bytes
no_bytes r = []

abbrev asks_position : ClientRequest
asks_position = record { msg_seq_num = 4; content = position_request 2 1 }

-- The request is counted, and the position is sent.
abbrev after_asking : ClientManager
after_asking = record manager {
  sessions =
      send_numbered (increment_inbound_seq_num manager.sessions 1) 1
        (position_response (record { client_id = 2; symbol_id = 1; position = pos 5 }));
}

asking_lem :
    process_client_request one_core no_bytes 64 no_log 64 1 [] manager 1 (some asks_position)
    ≡ some after_asking
unfolding process_client_request numbered_request handle_request increment_inbound_seq_num
    send_numbered increment_outbound_seq_num send_buffer get_position_db
    get_or_create_client_positions add64
asking_lem = refl

process_client_request-Answers_example :
    Answers 1 (counted one_core no_bytes 64 manager 1 4) after_asking.sessions
process_client_request-Answers_example =
    process_client_request-Answers one_core no_bytes 64 no_log 64 1 [] manager after_asking 1 5
      asks_position refl refl asking_lem

-- A logon at session 3 fits, one with another number does not.
logon_fits : (fits_session manager 2 4 7 ≡ true) × (fits_session manager 2 5 7 ≡ false)
unfolding expected_msg_seq_num expected_ack_seq_num add64
logon_fits = (refl, refl)

handle_client_logon-Counted_example :
    Counted manager
      (handle_client_logon no_log 64 1 manager 3 2 7 4)
      2
      (fits_session manager 2 4 7)
      3
handle_client_logon-Counted_example = handle_client_logon-Counted no_log 64 1 manager 3 2 7 4

handle_client_logout-expected_example :
    (expected_msg_seq_num (handle_client_logout manager 1) 2 ≡ expected_msg_seq_num manager 2)
    × (expected_ack_seq_num (handle_client_logout manager 1) 2 ≡ expected_ack_seq_num manager 2)
    × ((handle_client_logout manager 1).sessions ≡ manager.sessions)
handle_client_logout-expected_example = handle_client_logout-expected manager 1 2

abbrev answer : OrderResponse
answer = record {
  exec_type = exec_new;
  order_id = 1;
  client_id = 2;
  exec_id = 3;
  symbol_id = 4;
  side = buy;
  p = pos 10;
  q = 5;
  q_rem = 5;
  reject_code = no_reject;
}

-- The answer, a fill of the same client, and a fill of a client without a session.
abbrev own_fill : OrderResponse
own_fill = record answer { exec_type = partial_fill; q = 2; q_rem = 3 }

abbrev other_fill : OrderResponse
other_fill = record own_fill { client_id = 9 }

-- Client 2 is registered at another session than the one that sent the order.
abbrev two_sessions : ClientManager
two_sessions = record manager { clients = update (λ c. none) 2 (some 3) }

handle_responses-burst_example :
    ((handle_responses one_core two_sessions (answer ∷ own_fill ∷ other_fill ∷ [])).sessions
      ≡ reports_to one_core two_sessions.clients 1 2
          (send_numbered two_sessions.sessions 1 (order_response answer))
          (own_fill ∷ other_fill ∷ []))
    × (queue_of one_core
          (handle_responses one_core two_sessions (answer ∷ own_fill ∷ other_fill ∷ []))
          4
        ≡ [])
handle_responses-burst_example =
    handle_responses-burst one_core two_sessions answer 1 [] refl refl (own_fill ∷ other_fill ∷ [])
      (refl, (refl, tt))

-- A manager with a ring and an empty queue, and an order in turn.
abbrev ring_manager : ClientManager
ring_manager = record manager {
  pending_order_clients = λ i. [];
  request_rings = λ i. some (record { m_capacity = 16; ring = create 16 });
}

abbrev eight_bytes : OrderRequest → Bytes
eight_bytes r = 1 ∷ 2 ∷ 3 ∷ 4 ∷ 5 ∷ 6 ∷ 7 ∷ 8 ∷ []

abbrev orders : ClientRequest
orders = record { msg_seq_num = 4; content = order_request crossing_buy }

abbrev or_manager : Option ClientManager → ClientManager
or_manager none = ring_manager
or_manager (some m) = m

abbrev after_order : ClientManager
after_order =
    or_manager
      (process_client_request one_core eight_bytes 8 no_log 64 1 [] ring_manager 1 (some orders))

abbrev start_desk : Desk one_core eight_bytes 8 0
start_desk = record { manager = ring_manager; asked = []; answered = [] }

abbrev order_desk : Desk one_core eight_bytes 8 0
order_desk = record {
  manager = after_order;
  asked = joined one_core eight_bytes 8 0 ring_manager 1 orders;
  answered = [];
}

abbrev answer_desk : Desk one_core eight_bytes 8 0
answer_desk = record {
  manager = handle_execution_response one_core after_order answer;
  asked = order_desk.asked;
  answered = served one_core eight_bytes 8 0 after_order answer;
}

-- The order's session was put into the queue, and taken off it.
one_answered : (answer_desk.asked ≡ 1 ∷ []) × (answer_desk.answered ≡ 1 ∷ [])
unfolding process_client_request numbered_request handle_request handle_order_request order_to_ring
    push_request increment_inbound_seq_num reserve claim fill commit add64 sub64
one_answered = (refl, refl)

-- The client of session 1, and its request of its position.
abbrev client : OrderEntryClient
client = record {
  client_id = 2;
  symbol_ids = 1 ∷ [];
  symbols_info = λ k. none;
  running = true;
  next_id = 1_000_001;
  o_seq_num = 3;
  i_seq_num = 7;
  ready = true;
  account = record { positions = λ k. none; open_orders = [] };
  sent = [];
}

refused_logon-fits_example :
    Resynced manager 1 5 2 refl (handle_client_logon no_log 64 1 manager 1 2 7 5) client
refused_logon-fits_example =
    refused_logon-fits no_log 64 1 manager 1 5 2 refl 7 5 client logon_fits.1

client-InStep : InStep client manager 1
client-InStep = record { ready = refl; same_number = refl }

send_request-InStep_example :
    let c = send_request client (position_request 2 1) in
    (c.sent ≡ request_of one_core no_bytes 64 client (position_request 2 1) ∷ [])
    × (is_taken one_core no_bytes 64 manager 1 (add64 3 1) ≡ true)
    × InStep c after_asking 1
unfolding add64
send_request-InStep_example =
    send_request-InStep one_core no_bytes 64 no_log 64 1 [] client manager after_asking 1 5
      (position_request 2 1) client-InStep refl refl asking_lem
