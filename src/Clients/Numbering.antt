-- ===== src/Clients/Numbering.antt =====
-- src/ClientManager.cpp: how the sequence numbers of a session move with its requests and with the
-- responses to it.
use electronic_exchange_simu.Prelude.{
  ℕ, ◌==◌, ◌&&◌, not, Bool, true, false, Option, none, some, List, ◌≡◌, refl, sym, arith,
  if◌then◌else◌, add64, Option-cases, inl, inr, subst, map,
}
use electronic_exchange_simu.Prelude.Int.{ℤ}
use electronic_exchange_simu.Wire.{OrderRequest, OrderResponse, invalid_sequence_number}
use electronic_exchange_simu.Log.Files.{Disk}
use electronic_exchange_simu.Ring.Held.{Bytes}
use electronic_exchange_simu.Ring.Shm.{ShmRing, ReserveToken, reserve}
use electronic_exchange_simu.Clients.CmClient.{
  admin_reject, order_response, Sessions, increment_inbound_seq_num,
}
use electronic_exchange_simu.Clients.Manager.{
  ClientManager, RequestRing, session, with_sessions, admin_message,
}
use electronic_exchange_simu.Clients.Requests.{
  RequestData, admin_request, order_request, position_request, open_order_request, other_request,
  ClientRequest, get_open_orders, core_index, core_or_0, ring_at, push_request, order_to_ring,
  handle_order_request, handle_request, reject_request, numbered_request, process_client_request,
  handle_admin,
}
use electronic_exchange_simu.Clients.Answers.{
  Answers, Answers-refl, Answers-next_message, Answers-send_numbered, Answers-send_all_numbered,
}

abbrev pub is_admin : RequestData → Bool
is_admin (admin_request a) = true
is_admin _ = false

some_sessions : {m m' : ClientManager} → some m ≡ some m' → m.sessions ≡ m'.sessions
some_sessions e = ground arith

module _ (core_of : ℕ → Option ℤ) (request_bytes : OrderRequest → Bytes) (request_size : ℕ) where
  -- Handing a request to a ring changes no session.
  push_request-sessions :
      (m m' : ClientManager) (p : ℕ) (req : OrderRequest) (i cap : ℕ) (token : ReserveToken)
      (ring : ShmRing)
      → push_request core_of request_bytes request_size m p req i cap token ring ≡ some m'
      → m'.sessions ≡ m.sessions
  unfolding push_request
  push_request-sessions m m' p req i cap token ring e = ground arith

  order_to_ring-sessions :
      (m m' : ClientManager) (p : ℕ) (req : OrderRequest) (r : Option (ℕ × RequestRing))
      → order_to_ring core_of request_bytes request_size m p req r ≡ some m'
      → m'.sessions ≡ m.sessions
  unfolding order_to_ring
  order_to_ring-sessions m m' p req none e = ground arith
  order_to_ring-sessions m m' p req (some (i, r)) e =
      elim (Option-cases (reserve r.m_capacity r.ring request_size)) [
        | inl k ↦ ground arith
        | inr (made, k) ↦
            push_request-sessions m m' p req i r.m_capacity made.0 made.1
              (rw (k, order_to_ring) at e)
      ]

  same-Answers :
      (m m' : ClientManager) (p : ℕ) → m'.sessions ≡ m.sessions → Answers p m.sessions m'.sessions
  same-Answers m m' p e = subst (λ x. Answers p m.sessions x) (sym e) (Answers-refl p m.sessions)

  -- After the number of the request has been counted, the session is sent its answers.
  handle_request-Answers :
      (order_ids : List ℕ) (m m' : ClientManager) (p : ℕ) (content : RequestData)
      → handle_request core_of request_bytes request_size order_ids m p content ≡ some m'
      → Answers p m.sessions m'.sessions
  unfolding handle_request handle_order_request
  handle_request-Answers order_ids m m' p (order_request req) e = same-Answers m m' p (
      order_to_ring-sessions m m' p req
        (ring_at m (core_index (core_or_0 (core_of req.symbol_id)) m.ring_count)) e)
  handle_request-Answers order_ids m m' p (position_request c k) e =
      subst (λ x. Answers p m.sessions x) (some_sessions e) (Answers-send_numbered m.sessions p _)
  handle_request-Answers order_ids m m' p (open_order_request c) e =
      subst (λ x. Answers p m.sessions x) (some_sessions e)
        (Answers-send_all_numbered m.sessions p
          (map (λ r. order_response r) (get_open_orders m.db order_ids c)))
  handle_request-Answers order_ids m m' p (admin_request a) e =
      same-Answers m m' p (sym (some_sessions e))
  handle_request-Answers order_ids m m' p other_request e =
      same-Answers m m' p (sym (some_sessions e))

  -- The request is taken: the session is ready, and the number is the next one.
  abbrev pub is_taken : ClientManager → ℕ → ℕ → Bool
  is_taken m p msg_seq_num =
      (session m p).ready && msg_seq_num == add64 (session m p).inbound_seq_num 1

  -- The sessions once the number of a request has been counted, or not.
  abbrev pub counted : ClientManager → ℕ → ℕ → Sessions
  counted m p msg_seq_num =
      if is_taken m p msg_seq_num then increment_inbound_seq_num m.sessions p else m.sessions

  reject_request-Answers :
      (m : ClientManager) (p : ℕ)
      → (w : ℕ) → (session m p).conn ≡ some w
      → Answers p m.sessions (reject_request core_of request_bytes request_size m p).sessions
  unfolding reject_request
  reject_request-Answers m p w e =
      Answers-next_message m.sessions p w
        (λ n.
          admin_message admin_reject (session m p).client_id (add64 (session m p).inbound_seq_num 1)
            invalid_sequence_number n)
        e (λ n. refl)

  numbered_request-Answers :
      (order_ids : List ℕ) (m m' : ClientManager) (p w msg_seq_num : ℕ) (content : RequestData)
      → (session m p).conn ≡ some w
      → numbered_request core_of request_bytes request_size order_ids m p msg_seq_num content
        ≡ some m'
      → Answers p (counted m p msg_seq_num) m'.sessions
  unfolding numbered_request
  numbered_request-Answers order_ids m m' p w msg_seq_num content c =
      by_flags (session m p).ready (msg_seq_num == add64 (session m p).inbound_seq_num 1)
    where
      m1 : ClientManager
      m1 = with_sessions m (increment_inbound_seq_num m.sessions p)

      by_flags :
          (a b : Bool)
          → (if not a
              then some m
              else if not b
              then some (reject_request core_of request_bytes request_size m p)
              else handle_request core_of request_bytes request_size order_ids m1 p content)
            ≡ some m'
          → Answers p
              (if a && b then increment_inbound_seq_num m.sessions p else m.sessions)
              m'.sessions
      by_flags true true e = handle_request-Answers order_ids m1 m' p content e
      by_flags true false e =
          subst (λ x. Answers p m.sessions x) (some_sessions e) (reject_request-Answers m p w c)
      by_flags false b e = same-Answers m m' p (sym (some_sessions e))

  -- All that a request other than an admin request has sent goes to the connection of its session,
  -- and carries the numbers that follow the session's last one, without a gap; no other session
  -- changes, and the request is counted exactly where the session is ready and its number is the
  -- next one. The session has a connection, and the request is handled without waiting for ever.
  pub process_client_request-Answers :
      (d : Disk OrderResponse) (file_size fuel : ℕ) (order_ids : List ℕ) (m m' : ClientManager)
      (p w : ℕ) (req : ClientRequest)
      → (session m p).conn ≡ some w
      → is_admin req.content ≡ false
      → process_client_request core_of request_bytes request_size d file_size fuel order_ids m p
          (some req)
        ≡ some m'
      → Answers p (counted m p req.msg_seq_num) m'.sessions
  unfolding process_client_request
  process_client_request-Answers d file_size fuel order_ids m m' p w req c other e =
      by_content req.content other e
    where
      by_content :
          (content : RequestData)
          → is_admin content ≡ false
          → elim content [
            | admin_request a ↦ some (
                handle_admin core_of request_bytes request_size d file_size fuel m p req.msg_seq_num
                  a a.action)
            | x ↦
                numbered_request core_of request_bytes request_size order_ids m p req.msg_seq_num x
          ]
            ≡ some m'
          → Answers p (counted m p req.msg_seq_num) m'.sessions
      by_content (admin_request a) h k = cc
      by_content (order_request r) h k =
          numbered_request-Answers order_ids m m' p w req.msg_seq_num (order_request r) c k
      by_content (position_request i j) h k =
          numbered_request-Answers order_ids m m' p w req.msg_seq_num (position_request i j) c k
      by_content (open_order_request i) h k =
          numbered_request-Answers order_ids m m' p w req.msg_seq_num (open_order_request i) c k
      by_content other_request h k =
          numbered_request-Answers order_ids m m' p w req.msg_seq_num other_request c k
