-- ===== src/Clients/CmClient.antt =====
-- src/CMClient.cpp with include/service/CMClient.hpp: the session of a client of the exchange, and
-- what it is sent. A connection is a number.
use electronic_exchange_simu.Prelude.{ℕ, Bool, Option, none, some, List, [], ◌∷◌, update, add64}
use electronic_exchange_simu.Prelude.Int.{ℤ}
use electronic_exchange_simu.Wire.{OrderResponse, RejectCode}

pub record CmClient : Type 0 where
  pub conn : Option ℕ
  pub client_id : ℕ
  pub inbound_seq_num : ℕ
  pub outbound_seq_num : ℕ
  pub ready : Bool

-- The tables AdminResponse, PositionResponse and ClientResponse of fbs/exchange.fbs.
pub data AdminResponseType : Type 0 where
  admin_reject admin_ready : AdminResponseType

pub record AdminResponse : Type 0 where
  pub type : AdminResponseType
  pub client_id : ℕ
  pub expected_seq_num : ℕ
  pub reject_code : RejectCode

pub record PositionResponse : Type 0 where
  pub client_id : ℕ
  pub symbol_id : ℕ
  pub position : ℤ

pub data ResponseData : Type 0 where
  admin_response : AdminResponse → ResponseData
  order_response : OrderResponse → ResponseData
  position_response : PositionResponse → ResponseData

pub record ClientResponse : Type 0 where
  pub content : ResponseData
  pub msg_seq_num : ℕ

-- The session objects by address, the messages by connection, newest first, and the connections
-- that were told to close.
pub record Sessions : Type 0 where
  pub objects : ℕ → CmClient
  pub sent : List (ℕ × ClientResponse)
  pub closed : List ℕ

-- CMClient::send of a buffer: nothing without a connection.
abbrev pub send_on :
    Option ℕ → ClientResponse → List (ℕ × ClientResponse) → List (ℕ × ClientResponse)
send_on none m sent = sent
send_on (some w) m sent = (w, m) ∷ sent

unfoldable pub send_buffer : Sessions → ℕ → ClientResponse → Sessions
send_buffer s p m = record s { sent = send_on (s.objects p).conn m s.sent }

abbrev pub set_object : Sessions → ℕ → CmClient → Sessions
set_object s p c = record s { objects = update s.objects p c }

-- The new number, and the sessions with it.
unfoldable pub increment_outbound_seq_num : Sessions → ℕ → ℕ × Sessions
increment_outbound_seq_num s p =
    let n = add64 (s.objects p).outbound_seq_num 1 in
    (n, set_object s p (record (s.objects p) { outbound_seq_num = n }))

unfoldable pub increment_inbound_seq_num : Sessions → ℕ → Sessions
increment_inbound_seq_num s p =
    set_object s p
      (record (s.objects p) { inbound_seq_num = add64 (s.objects p).inbound_seq_num 1 })

-- CMClient::send of an order response or a position response, which takes the next number.
unfoldable pub send_numbered : Sessions → ℕ → ResponseData → Sessions
unfolding increment_outbound_seq_num send_buffer
send_numbered s p content = elim (s.objects p).conn [
  | none ↦ s
  | some w ↦
      let (n, s1) = increment_outbound_seq_num s p in
      send_buffer s1 p (record { content = content; msg_seq_num = n })
]

-- Each response in turn.
unfoldable pub send_all_numbered : Sessions → ℕ → List ResponseData → Sessions
unfolding send_numbered
send_all_numbered s p [] = s
send_all_numbered s p (c ∷ cs) = send_all_numbered (send_numbered s p c) p cs
