-- ===== src/Clients/Requests.antt =====
-- src/ClientManager.cpp: the requests of clients and the responses of the engine. The layout of an
-- order request in the ring, `request_bytes`, and the sizes of the structures are parameters, as
-- the compiler lays them out; `order_ids` lists the orders of a client in the order in which the
-- database's map is iterated.
use electronic_exchange_simu.Prelude.{
  ℕ, ltb, ◌==◌, ◌||◌, not, Option, none, some, List, [], ◌∷◌, ◌++◌, map, if◌then◌else◌, update,
  add64,
}
use electronic_exchange_simu.Prelude.Int.{ℤ, pos, ltb_ℤ, pos_part}
use electronic_exchange_simu.Wire.{OrderRequest, OrderResponse, order_status}
use electronic_exchange_simu.Accounts.ClientDatabase.{ClientDatabase, get_position_db}
use electronic_exchange_simu.Log.Files.{Disk}
use electronic_exchange_simu.Log.Reader.{MmapReader, read_next}
use electronic_exchange_simu.MarketData.Server.{is_resp}
use electronic_exchange_simu.Ring.Held.{Bytes}
use electronic_exchange_simu.Ring.Shm.{ShmRing, ReserveToken, reserve, fill, commit}
use electronic_exchange_simu.Clients.CmClient.{
  order_response, position_response, send_buffer, increment_outbound_seq_num,
  increment_inbound_seq_num, send_numbered, send_all_numbered, admin_reject,
}
use electronic_exchange_simu.Wire.{invalid_sequence_number}
use electronic_exchange_simu.Clients.Manager.{
  ClientManager, RequestRing, session, with_sessions, admin_message, handle_client_logon,
  handle_client_logout,
}

pub data AdminAction : Type 0 where
  log_on log_out other_admin : AdminAction

pub record AdminRequest : Type 0 where
  pub action : AdminAction
  pub client_id : ℕ
  pub ack_seq_num : ℕ

pub data RequestData : Type 0 where
  admin_request : AdminRequest → RequestData
  order_request : OrderRequest → RequestData
  position_request : ℕ → ℕ → RequestData
  open_order_request : ℕ → RequestData
  other_request : RequestData

pub record ClientRequest : Type 0 where
  pub msg_seq_num : ℕ
  pub content : RequestData

-- InMemoryClientDatabase::getOpenOrders
unfoldable pub get_open_orders : ClientDatabase → List ℕ → ℕ → List OrderResponse
get_open_orders db [] client_id = []
get_open_orders db (id ∷ ids) client_id =
    let rest = get_open_orders db ids client_id in
    elim (db.open_orders client_id id) [
      | none ↦ rest
      | some r ↦ record r { exec_type = order_status } ∷ rest
    ]

-- `core_offset < 0 || core_offset >= size`, and the index otherwise.
abbrev pub core_index : ℤ → ℕ → Option ℕ
core_index core size =
    if ltb_ℤ core (pos 0) || not (ltb (pos_part core) size) then none else some (pos_part core)

abbrev pub core_or_0 : Option ℤ → ℤ
core_or_0 none = pos 0
core_or_0 (some c) = c

-- The ring of a core, if the vector has it and it is not null.
abbrev pub ring_at : ClientManager → Option ℕ → Option (ℕ × RequestRing)
ring_at m none = none
ring_at m (some i) = elim (m.request_rings i) [ none ↦ none | some r ↦ some (i, r) ]

module _ (core_of : ℕ → Option ℤ) (request_bytes : OrderRequest → Bytes) (request_size : ℕ) where
  abbrev pub set_ring : ClientManager → ℕ → ℕ → ShmRing → ClientManager
  set_ring m i cap ring = record m {
    request_rings = update m.request_rings i (some (record { m_capacity = cap; ring = ring }));
  }

  -- The request goes to the ring and its client to the queue; `none` where commit waits for ever.
  unfoldable pub push_request :
      ClientManager → ℕ → OrderRequest → ℕ → ℕ → ReserveToken → ShmRing → Option ClientManager
  push_request m p req i cap token ring =
      elim (commit (fill ring token (request_bytes req)) token) [
        | none ↦ none
        | some done ↦ some (record (set_ring m i cap done) {
          pending_order_clients =
              update m.pending_order_clients i (m.pending_order_clients i ++ p ∷ []);
        })
      ]

  -- A request without a ring, or without room in it, is dropped.
  unfoldable pub order_to_ring :
      ClientManager → ℕ → OrderRequest → Option (ℕ × RequestRing) → Option ClientManager
  unfolding push_request
  order_to_ring m p req none = some m
  order_to_ring m p req (some (i, r)) = elim (reserve r.m_capacity r.ring request_size) [
    | none ↦ some m
    | some (token, ring) ↦ push_request m p req i r.m_capacity token ring
  ]

  unfoldable pub handle_order_request : ClientManager → ℕ → OrderRequest → Option ClientManager
  unfolding order_to_ring
  handle_order_request m p req =
      order_to_ring m p req
        (ring_at m (core_index (core_or_0 (core_of req.symbol_id)) m.ring_count))

  -- The switch over the kinds of request.
  unfoldable pub handle_request : List ℕ → ClientManager → ℕ → RequestData → Option ClientManager
  unfolding handle_order_request send_numbered send_all_numbered get_open_orders get_position_db
  handle_request order_ids m p (order_request req) = handle_order_request m p req
  handle_request order_ids m p (position_request client_id symbol_id) = some (
      with_sessions m (
        send_numbered m.sessions p (
          position_response (record {
            client_id = client_id;
            symbol_id = symbol_id;
            position = get_position_db m.db client_id symbol_id;
          }))))
  handle_request order_ids m p (open_order_request client_id) = some (
      with_sessions m (
        send_all_numbered m.sessions p
          (map (λ r. order_response r) (get_open_orders m.db order_ids client_id))))
  handle_request order_ids m p (admin_request a) = some m
  handle_request order_ids m p other_request = some m

  -- A wrong number is answered with the number that is expected.
  unfoldable pub reject_request : ClientManager → ℕ → ClientManager
  unfolding increment_outbound_seq_num send_buffer
  reject_request m p =
      let (n, s) = increment_outbound_seq_num m.sessions p in
      with_sessions m (
        send_buffer s p (
          admin_message admin_reject (session m p).client_id (add64 (session m p).inbound_seq_num 1)
            invalid_sequence_number n))

  unfoldable pub numbered_request :
      List ℕ → ClientManager → ℕ → ℕ → RequestData → Option ClientManager
  unfolding reject_request handle_request increment_inbound_seq_num
  numbered_request order_ids m p msg_seq_num content =
      if not (session m p).ready
      then some m
      else if not (msg_seq_num == add64 (session m p).inbound_seq_num 1)
      then some (reject_request m p)
      else handle_request order_ids (with_sessions m (increment_inbound_seq_num m.sessions p)) p
          content

  module _ (d : Disk OrderResponse) (file_size fuel : ℕ) where
    unfoldable pub handle_admin : ClientManager → ℕ → ℕ → AdminRequest → AdminAction → ClientManager
    unfolding handle_client_logon handle_client_logout
    handle_admin m p msg_seq_num a log_on =
        handle_client_logon d file_size fuel m p a.client_id a.ack_seq_num msg_seq_num
    handle_admin m p msg_seq_num a log_out = handle_client_logout m p
    handle_admin m p msg_seq_num a other_admin = m

    -- `none` for the request is a buffer that fails the verification.
    unfoldable pub process_client_request :
        List ℕ → ClientManager → ℕ → Option ClientRequest → Option ClientManager
    unfolding handle_admin numbered_request
    process_client_request order_ids m p none = some m
    process_client_request order_ids m p (some req) = elim req.content [
      | admin_request a ↦ some (handle_admin m p req.msg_seq_num a a.action)
      | content ↦ numbered_request order_ids m p req.msg_seq_num content
    ]

module _ (core_of : ℕ → Option ℤ) where
  -- The client at the front of a core's queue, and the manager without it.
  unfoldable pub pop_client : ClientManager → Option ℕ → Option ℕ × ClientManager
  pop_client m none = (none, m)
  pop_client m (some i) = elim (m.pending_order_clients i) [
    | [] ↦ (none, m)
    | p ∷ ps ↦ (
      some p,
      record m {
        pending_order_clients = update m.pending_order_clients i ps;
        last_popped_client = some p;
      },
    )
  ]

  -- The client that is popped last, if it is the one of the response.
  abbrev pub last_popped_for : ClientManager → ℕ → Option ℕ → Option ℕ
  last_popped_for m client_id none = none
  last_popped_for m client_id (some p) =
      if (session m p).client_id == client_id then some p else none

  abbrev pub or_registered : ClientManager → ℕ → Option ℕ → Option ℕ
  or_registered m client_id none = m.clients client_id
  or_registered m client_id (some p) = some p

  abbrev pub forward_response : ClientManager → OrderResponse → Option ℕ → ClientManager
  forward_response m r none = m
  forward_response m r (some p) = with_sessions m (send_numbered m.sessions p (order_response r))

  -- Who gets a response, and the manager with the queue that it came from.
  unfoldable pub receiver : ClientManager → OrderResponse → Option ℕ × ClientManager
  unfolding pop_client
  receiver m r =
      if is_resp r.exec_type
      then pop_client m (core_index (core_or_0 (core_of r.symbol_id)) m.ring_count)
      else (last_popped_for m r.client_id m.last_popped_client, m)

  unfoldable pub handle_execution_response : ClientManager → OrderResponse → ClientManager
  unfolding receiver send_numbered
  handle_execution_response m r =
      let (p, m1) = receiver m r in forward_response m1 r (or_registered m1 r.client_id p)

  unfoldable pub poll_responses :
      ℕ → Disk OrderResponse → ℕ → ℕ → MmapReader → ClientManager → ℕ × MmapReader × ClientManager
  unfolding handle_execution_response
  poll_responses response_size d size fuel reader m =
      let (found, reader') = read_next d size fuel reader in
      elim found [
        | none ↦ (0, reader', m)
        | some rec ↦ elim rec.data_at [
          | none ↦ (1, reader', m)
          | some resp ↦ (
            1,
            reader',
            if ltb rec.len response_size then m else handle_execution_response m resp,
          )
        ]
      ]
