-- ===== src/Clients/Resync.antt =====
-- src/OrderEntryClient.cpp with src/ClientManager.cpp: the client and the server of a session in step.
use electronic_exchange_simu.Prelude.{
  ℕ, ◌==◌, true, false, Option, some, List, ◌∷◌, ◌≡◌, refl, ap, ◌∙◌, arith, if◌then◌else◌, ==_iff,
  add64, Option-cases, Bool-cases, inl, inr, subst,
}
use electronic_exchange_simu.Prelude.Int.{ℤ}
use electronic_exchange_simu.Wire.{OrderRequest, OrderResponse, invalid_sequence_number}
use electronic_exchange_simu.Log.Files.{Disk}
use electronic_exchange_simu.Accounts.ClientDatabase.{increment_and_get_client_o_seq_num}
use electronic_exchange_simu.Ring.Held.{Bytes}
use electronic_exchange_simu.Clients.CmClient.{
  admin_reject, ClientResponse, Sessions, send_buffer, increment_outbound_seq_num,
  increment_inbound_seq_num,
}
use electronic_exchange_simu.Clients.Manager.{
  ClientManager, session, expected_msg_seq_num, expected_ack_seq_num, admin_message, reject_logon,
  fits_session, handle_client_logon,
}
use electronic_exchange_simu.Clients.Requests.{RequestData, ClientRequest, process_client_request}
use electronic_exchange_simu.Clients.Answers.{Answers}
use electronic_exchange_simu.Clients.Numbering.{is_admin, is_taken, process_client_request-Answers}
use electronic_exchange_simu.Clients.Logons.{Counted, handle_client_logon-Counted}
use electronic_exchange_simu.Clients.OrderEntry.{
  OrderEntryClient, send_request, logon_data, receive, on_reject,
}

increment-conn :
    (s : Sessions) (q p : ℕ)
    → ((increment_outbound_seq_num s q).1.objects p).conn ≡ (s.objects p).conn
unfolding increment_outbound_seq_num
increment-conn s q p = elim (Bool-cases (q == p)) [
  | inl e ↦ rw e (ap (λ x. (s.objects x).conn) ((==_iff q p).0 e))
  | inr e ↦ rw e refl
]

module _ (m : ClientManager) (p w client_id : ℕ) (here : (session m p).conn ≡ some w) where
  refusal : ClientResponse
  refusal =
      admin_message admin_reject client_id (expected_msg_seq_num m client_id)
        invalid_sequence_number (add64 (expected_ack_seq_num m client_id) 1)

  reject_logon-sent :
      (reject_logon m p client_id (expected_msg_seq_num m client_id)).sessions.sent
      ≡ (w, refusal) ∷ m.sessions.sent
  unfolding reject_logon refusal increment_and_get_client_o_seq_num send_buffer expected_ack_seq_num
  reject_logon-sent = elim (Option-cases (m.clients client_id)) [
    | inl e ↦ rw (e, reject_logon, expected_ack_seq_num, here) refl
    | inr (q, e) ↦
        rw (e, reject_logon, expected_ack_seq_num, increment-conn m.sessions q p, here) refl
  ]

  -- What the client makes of the refusal: it is told the numbers that fit, and logs on with them.
  pub record Resynced (m' : ClientManager) (c : OrderEntryClient) : Type 0 where
    pub number : ℕ
    pub answer : ClientResponse
    pub c' : OrderEntryClient
    pub told : m'.sessions.sent ≡ (w, answer) ∷ m.sessions.sent
    pub heard : receive c answer ≡ some c'
    pub asks_again :
        c'.sent ≡ record { msg_seq_num = c'.o_seq_num; content = logon_data c number } ∷ c.sent
    pub fits : fits_session m' client_id c'.o_seq_num number ≡ true

fits_after :
    (m : ClientManager) (client_id e n : ℕ)
    → expected_msg_seq_num m client_id ≡ e
    → expected_ack_seq_num m client_id ≡ n
    → fits_session m client_id e n ≡ true
fits_after m client_id e n h k = ground arith

module _ (d : Disk OrderResponse) (file_size fuel : ℕ) where
  -- A client whose logon is refused gets in with its next try: it is sent one message, the refusal,
  -- its handler takes that without a throw and sends a logon with the number and the
  -- acknowledgement of the refusal, and these fit what the server expects then. The session has a
  -- connection, and the first logon's numbers do not fit.
  pub refused_logon-fits :
      (m : ClientManager) (p w client_id : ℕ)
      → (here : (session m p).conn ≡ some w) → (ack msg_seq_num : ℕ) (c : OrderEntryClient)
      → fits_session m client_id msg_seq_num ack ≡ false
      → Resynced m p w client_id here
          (handle_client_logon d file_size fuel m p client_id ack msg_seq_num)
          c
  unfolding handle_client_logon refusal receive on_reject
  refused_logon-fits m p w client_id here ack msg_seq_num c e = record {
    number = add64 (expected_ack_seq_num m client_id) 1;
    answer = refusal m p w client_id here;
    c' = record c {
      i_seq_num = add64 (expected_ack_seq_num m client_id) 1;
      o_seq_num = expected_msg_seq_num m client_id;
      sent =
          record {
            msg_seq_num = expected_msg_seq_num m client_id;
            content = logon_data c (add64 (expected_ack_seq_num m client_id) 1);
          }
          ∷ c.sent;
    };
    told = rw e (reject_logon-sent m p w client_id here);
    heard = refl;
    asks_again = refl;
    fits = fits_after m' client_id _ _ numbers.inbound numbers.outbound;
  }
    where
      m' : ClientManager
      m' = handle_client_logon d file_size fuel m p client_id ack msg_seq_num

      numbers : Counted m m' client_id false p
      numbers =
          subst (λ b. Counted m m' client_id b p) e
            (handle_client_logon-Counted d file_size fuel m p client_id ack msg_seq_num)

counted_self :
    (s : Sessions) (p : ℕ)
    → (((increment_inbound_seq_num s p).objects p).ready ≡ (s.objects p).ready)
      × (((increment_inbound_seq_num s p).objects p).inbound_seq_num
          ≡ add64 (s.objects p).inbound_seq_num 1)
unfolding increment_inbound_seq_num
counted_self s p = rw ((==_iff p p).1 refl) (refl, refl)

-- The server counts the client's requests as the client numbers them.
pub record InStep (c : OrderEntryClient) (m : ClientManager) (p : ℕ) : Type 0 where
  pub ready : (session m p).ready ≡ true
  pub same_number : (session m p).inbound_seq_num ≡ c.o_seq_num

module _ (core_of : ℕ → Option ℤ) (request_bytes : OrderRequest → Bytes) (request_size : ℕ) where
  -- The request that the client has just sent.
  abbrev pub request_of : OrderEntryClient → RequestData → ClientRequest
  request_of c content = record { msg_seq_num = add64 c.o_seq_num 1; content = content }

  InStep-taken :
      (c : OrderEntryClient) (m : ClientManager) (p : ℕ) (content : RequestData)
      → InStep c m p
      → is_taken core_of request_bytes request_size m p (request_of c content).msg_seq_num ≡ true
  InStep-taken c m p content h = rw (h.ready, h.same_number) ((==_iff _ _).1 refl)

  -- A client and the session that serves it stay in step: the request that the client sends carries
  -- the number that the server takes, and afterwards the server has counted as far as the client
  -- has numbered. Before, they are in step and the session is ready; the session has a connection,
  -- the request is no admin request, and it is handled without waiting for ever.
  pub send_request-InStep :
      (d : Disk OrderResponse) (file_size fuel : ℕ) (order_ids : List ℕ) (c : OrderEntryClient)
      (m m' : ClientManager) (p w : ℕ) (content : RequestData)
      → InStep c m p
      → (session m p).conn ≡ some w
      → is_admin content ≡ false
      → process_client_request core_of request_bytes request_size d file_size fuel order_ids m p
          (some (request_of c content))
        ≡ some m'
      → (send_request c content).sent ≡ request_of c content ∷ c.sent
        × (is_taken core_of request_bytes request_size m p (request_of c content).msg_seq_num
            ≡ true)
        × InStep (send_request c content) m' p
  unfolding send_request
  send_request-InStep d file_size fuel order_ids c m m' p w content h conn other e = (
    refl,
    taken,
    record {
      ready = answers.ready_kept ∙ ((counted_self m.sessions p).0 ∙ h.ready);
      same_number =
          answers.inbound_kept
          ∙ ((counted_self m.sessions p).1 ∙ ap (λ n. add64 n 1) h.same_number);
    },
  )
    where
      taken :
          is_taken core_of request_bytes request_size m p (request_of c content).msg_seq_num ≡ true
      taken = InStep-taken c m p content h

      answers : Answers p (increment_inbound_seq_num m.sessions p) m'.sessions
      answers =
          subst
            (λ b.
              Answers p (if b then increment_inbound_seq_num m.sessions p else m.sessions)
                m'.sessions)
            taken
            (process_client_request-Answers core_of request_bytes request_size d file_size fuel
              order_ids m m' p w (request_of c content) conn other e)
