-- ===== src/Clients/Manager.antt =====
-- src/ClientManager.cpp: the state of the client manager, and its sessions. The symbol database is
-- the argument `core_of`, the core of a symbol that it has.
use electronic_exchange_simu.Prelude.{
  ℕ, ltb, ◌==◌, ◌&&◌, not, Bool, true, false, Option, none, some, List, [], ◌∷◌, if◌then◌else◌,
  update, add64,
}
use electronic_exchange_simu.Wire.{
  OrderResponse, RejectCode, no_reject, invalid_sequence_number, login_at_other_session,
}
use electronic_exchange_simu.Accounts.ClientDatabase.{
  ClientDatabase, set_client_i_seq_num, set_client_o_seq_num, increment_and_get_client_o_seq_num,
}
use electronic_exchange_simu.Log.Files.{Disk}
use electronic_exchange_simu.Log.Reader.{MmapReader, open_reader, seek, read_next}
use electronic_exchange_simu.Ring.Shm.{ShmRing}
use electronic_exchange_simu.Clients.CmClient.{
  CmClient, AdminResponseType, admin_reject, admin_ready, admin_response, order_response,
  ClientResponse, Sessions, send_buffer, set_object, increment_outbound_seq_num,
}

pub record RequestRing : Type 0 where
  pub m_capacity : ℕ
  pub ring : ShmRing

-- `clients` by client id, `pending_order_clients` the queue of each core, oldest first, and
-- `request_rings` a vector of `ring_count` pointers.
pub record ClientManager : Type 0 where
  pub sessions : Sessions
  pub clients : ℕ → Option ℕ
  pub pending_order_clients : ℕ → List ℕ
  pub last_popped_client : Option ℕ
  pub ring_count : ℕ
  pub request_rings : ℕ → Option RequestRing
  pub db : ClientDatabase

-- The loop of InMemoryClientDatabase::getResponsesSince over the entries of a client.
unfoldable pub responses_since :
    Disk OrderResponse → ℕ → ℕ → ℕ → MmapReader → List (ℕ × ℕ) → List OrderResponse
responses_since d size fuel ack reader [] = []
responses_since d size fuel ack reader ((seq, offset) ∷ entries) =
    let (sought, r1) = seek d size reader offset in
    let (found, r2) = read_next d size fuel r1 in
    let reader' = if ltb ack seq then (if sought then r2 else r1) else reader in
    let rest = responses_since d size fuel ack reader' entries in
    if ltb ack seq && sought
    then elim found [
      | none ↦ rest
      | some rec ↦ elim rec.data_at [ none ↦ rest | some resp ↦ resp ∷ rest ]
    ]
    else rest

unfoldable pub get_responses_since :
    ClientDatabase → Disk OrderResponse → ℕ → ℕ → ℕ → ℕ → List OrderResponse
unfolding responses_since
get_responses_since db d size fuel client_id ack =
    responses_since d size fuel ack
      (open_reader d size (record { current_file_index = 0; mapped = false; current_offset = 0 }) 0)
      (db.log_offsets client_id)

abbrev pub session : ClientManager → ℕ → CmClient
session m p = m.sessions.objects p

-- The sequence numbers that a logon of a client must fit.
unfoldable pub expected_msg_seq_num : ClientManager → ℕ → ℕ
expected_msg_seq_num m client_id = elim (m.clients client_id) [
  | none ↦ add64 (m.db.i_seq_nums client_id) 1
  | some p ↦ add64 (session m p).inbound_seq_num 1
]

unfoldable pub expected_ack_seq_num : ClientManager → ℕ → ℕ
expected_ack_seq_num m client_id = elim (m.clients client_id) [
  | none ↦ m.db.o_seq_nums client_id
  | some p ↦ (session m p).outbound_seq_num
]

abbrev pub admin_message : AdminResponseType → ℕ → ℕ → RejectCode → ℕ → ClientResponse
admin_message type client_id expected code seq = record {
  content = admin_response (record {
    type = type;
    client_id = client_id;
    expected_seq_num = expected;
    reject_code = code;
  });
  msg_seq_num = seq;
}

abbrev pub with_sessions : ClientManager → Sessions → ClientManager
with_sessions m s = record m { sessions = s }

-- A refused logon takes the next number of the session that is there, or of the database.
unfoldable pub reject_logon : ClientManager → ℕ → ℕ → ℕ → ClientManager
unfolding increment_outbound_seq_num increment_and_get_client_o_seq_num send_buffer
reject_logon m new_client client_id expected = elim (m.clients client_id) [
  | none ↦
      let (n, db) = increment_and_get_client_o_seq_num m.db client_id in
      record m {
        db = db;
        sessions =
            send_buffer m.sessions new_client
              (admin_message admin_reject client_id expected invalid_sequence_number n);
      }
  | some p ↦
      let (n, s) = increment_outbound_seq_num m.sessions p in
      with_sessions m (
        send_buffer s new_client
          (admin_message admin_reject client_id expected invalid_sequence_number n))
]

abbrev pub same_conn : Option ℕ → Option ℕ → Bool
same_conn none none = true
same_conn (some a) (some b) = a == b
same_conn _ _ = false

-- The session at another connection is told and closed.
unfoldable pub displace : Sessions → ℕ → ℕ → ℕ → ℕ → ℕ → Sessions
unfolding send_buffer
displace s old_client new_client client_id expected seq = elim (s.objects old_client).conn [
  | none ↦ s
  | some w ↦
      if same_conn (some w) (s.objects new_client).conn
      then s
      else let s1 =
          send_buffer s old_client
            (admin_message admin_reject client_id expected login_at_other_session seq) in
        record s1 { closed = w ∷ s1.closed }
]

-- The number that the answer carries, and the sessions once the old one has been dealt with.
unfoldable pub take_over : ClientManager → ℕ → ℕ → ℕ × Sessions
unfolding increment_outbound_seq_num displace expected_msg_seq_num expected_ack_seq_num
take_over m new_client client_id = elim (m.clients client_id) [
  | none ↦ (add64 (expected_ack_seq_num m client_id) 1, m.sessions)
  | some p ↦
      let (n, s) = increment_outbound_seq_num m.sessions p in
      (n, displace s p new_client client_id (expected_msg_seq_num m client_id) n)
]

-- The missed responses, numbered from the acknowledged number on.
unfoldable pub resend : Sessions → ℕ → ℕ → List OrderResponse → Sessions
unfolding send_buffer
resend s p seq [] = s
resend s p seq (r ∷ rs) =
    resend (send_buffer s p (record { content = order_response r; msg_seq_num = add64 seq 1 })) p
      (add64 seq 1) rs

unfoldable pub accept_logon : ClientManager → ℕ → ℕ → ℕ → ℕ → List OrderResponse → ClientManager
unfolding take_over resend send_buffer
accept_logon m new_client client_id msg_seq_num ack missed =
    let (seq, s1) = take_over m new_client client_id in
    let c : CmClient = record (s1.objects new_client) {
      client_id = client_id;
      inbound_seq_num = msg_seq_num;
      outbound_seq_num = seq;
    } in
    let s2 = resend (set_object s1 new_client c) new_client ack missed in
    let s3 = set_object s2 new_client (record (s2.objects new_client) { ready = true }) in
    record m {
      clients = update m.clients client_id (some new_client);
      sessions =
          send_buffer s3 new_client
            (admin_message admin_ready client_id (expected_msg_seq_num m client_id) no_reject seq);
    }

-- The numbers of a logon fit.
abbrev pub fits_session : ClientManager → ℕ → ℕ → ℕ → Bool
fits_session m client_id msg_seq_num ack =
    (msg_seq_num == expected_msg_seq_num m client_id)
    && not (ltb (expected_ack_seq_num m client_id) ack)

module _ (d : Disk OrderResponse) (file_size fuel : ℕ) where
  unfoldable pub handle_client_logon : ClientManager → ℕ → ℕ → ℕ → ℕ → ClientManager
  unfolding reject_logon accept_logon get_responses_since
  handle_client_logon m new_client client_id ack msg_seq_num =
      if not (fits_session m client_id msg_seq_num ack)
      then reject_logon m new_client client_id (expected_msg_seq_num m client_id)
      else accept_logon m new_client client_id msg_seq_num ack
          (get_responses_since m.db d file_size fuel client_id ack)

-- `it != clients_.end() && it->second == client`
abbrev pub holds : Option ℕ → ℕ → Bool
holds none p = false
holds (some q) p = q == p

-- The numbers of a session that ends go to the database.
abbrev pub end_session : ClientManager → ℕ → ℕ → ClientManager
end_session m p client_id = record m {
  db =
      set_client_o_seq_num (set_client_i_seq_num m.db client_id (session m p).inbound_seq_num)
        client_id (session m p).outbound_seq_num;
  clients = update m.clients client_id none;
}

unfoldable pub handle_client_logout : ClientManager → ℕ → ClientManager
unfolding set_client_i_seq_num set_client_o_seq_num
handle_client_logout m p =
    let client_id = (session m p).client_id in
    if client_id == 0
    then m
    else let m1 = if holds (m.clients client_id) p then end_session m p client_id else m in
      if holds m1.last_popped_client p then record m1 { last_popped_client = none } else m1
