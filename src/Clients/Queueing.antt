-- ===== src/Clients/Queueing.antt =====
-- src/ClientManager.cpp: the queue of a core, over the requests that go to its ring and the responses
-- that answer them.
use electronic_exchange_simu.Prelude.{
  ℕ, ◌==◌, ◌&&◌, not, Bool, true, false, Option, none, some, List, [], ◌∷◌, ◌++◌, ◌≡◌, refl, sym,
  ap, ◌∙◌, arith, if◌then◌else◌, ==_iff, add64, Option-cases, Bool-cases, inl, inr,
}
use mathlib.Core.List.{append-nil}
use electronic_exchange_simu.Prelude.Int.{ℤ}
use electronic_exchange_simu.Wire.{OrderRequest, OrderResponse}
use electronic_exchange_simu.Log.Files.{Disk}
use electronic_exchange_simu.MarketData.Server.{is_resp}
use electronic_exchange_simu.Ring.Held.{Bytes}
use electronic_exchange_simu.Ring.Shm.{ShmRing, ReserveToken, reserve}
use electronic_exchange_simu.Clients.CmClient.{increment_inbound_seq_num}
use electronic_exchange_simu.Clients.Manager.{
  ClientManager, RequestRing, session, with_sessions, reject_logon, accept_logon,
  handle_client_logon, handle_client_logout,
}
use electronic_exchange_simu.Clients.Requests.{
  AdminRequest, AdminAction, log_on, log_out, other_admin, RequestData, admin_request,
  order_request, position_request, open_order_request, other_request, ClientRequest, core_index,
  core_or_0, ring_at, push_request, order_to_ring, handle_order_request, handle_request,
  reject_request, numbered_request, process_client_request, handle_admin, pop_client, receiver,
  or_registered, forward_response, handle_execution_response,
}
use electronic_exchange_simu.Clients.Numbering.{is_taken}

module _ (core_of : ℕ → Option ℤ) (request_bytes : OrderRequest → Bytes) (request_size i : ℕ) where
  -- The session joins the queue of core i if that core's ring takes the request.
  abbrev pub joined_ring : ℕ → Option (ℕ × RequestRing) → List ℕ
  joined_ring p none = []
  joined_ring p (some (j, r)) = elim (reserve r.m_capacity r.ring request_size) [
    | none ↦ []
    | some t ↦ if j == i then p ∷ [] else []
  ]

  abbrev pub joined_by : ClientManager → ℕ → RequestData → List ℕ
  joined_by m p (order_request req) =
      joined_ring p (ring_at m (core_index (core_or_0 (core_of req.symbol_id)) m.ring_count))
  joined_by m p _ = []

  -- The sessions that a request adds to the queue of core i: its own, if it is an order in turn.
  abbrev pub joined : ClientManager → ℕ → ClientRequest → List ℕ
  joined m p req =
      if is_taken core_of request_bytes request_size m p req.msg_seq_num
      then joined_by m p req.content
      else []

  -- Requests of other kinds leave the queue.
  same :
      (m m' : ClientManager)
      → some m ≡ some m'
      → m'.pending_order_clients i ≡ m.pending_order_clients i ++ []
  same m m' e = ground (arith, append-nil (m.pending_order_clients i))

  push_request-queue :
      (m m' : ClientManager) (p : ℕ) (req : OrderRequest) (j cap : ℕ) (token : ReserveToken)
      (ring : ShmRing)
      → push_request core_of request_bytes request_size m p req j cap token ring ≡ some m'
      → m'.pending_order_clients i ≡ m.pending_order_clients i ++ (if j == i then p ∷ [] else [])
  unfolding push_request
  push_request-queue m m' p req j cap token ring e =
      ground (arith, append-nil (m.pending_order_clients i), (==_iff j i).0)

  order_to_ring-queue :
      (m m' : ClientManager) (p : ℕ) (req : OrderRequest) (r : Option (ℕ × RequestRing))
      → order_to_ring core_of request_bytes request_size m p req r ≡ some m'
      → m'.pending_order_clients i ≡ m.pending_order_clients i ++ joined_ring p r
  unfolding order_to_ring
  order_to_ring-queue m m' p req none e = same m m' e
  order_to_ring-queue m m' p req (some (j, r)) e =
      elim (Option-cases (reserve r.m_capacity r.ring request_size)) [
        | inl k ↦ rw (k, joined_ring) (same m m' (rw (k, order_to_ring) at e))
        | inr (made, k) ↦
            rw (k, joined_ring)
              (push_request-queue m m' p req j r.m_capacity made.0 made.1
                (rw (k, order_to_ring) at e))
      ]

  handle_request-queue :
      (order_ids : List ℕ) (m m' : ClientManager) (p : ℕ) (content : RequestData)
      → handle_request core_of request_bytes request_size order_ids m p content ≡ some m'
      → m'.pending_order_clients i ≡ m.pending_order_clients i ++ joined_by m p content
  unfolding handle_request handle_order_request
  handle_request-queue order_ids m m' p (order_request req) e =
      order_to_ring-queue m m' p req
        (ring_at m (core_index (core_or_0 (core_of req.symbol_id)) m.ring_count)) e
  handle_request-queue order_ids m m' p (position_request c k) e = same _ m' e
  handle_request-queue order_ids m m' p (open_order_request c) e = same _ m' e
  handle_request-queue order_ids m m' p (admin_request a) e = same m m' e
  handle_request-queue order_ids m m' p other_request e = same m m' e

  numbered_request-queue :
      (order_ids : List ℕ) (m m' : ClientManager) (p msg_seq_num : ℕ) (content : RequestData)
      → numbered_request core_of request_bytes request_size order_ids m p msg_seq_num content
        ≡ some m'
      → m'.pending_order_clients i
        ≡ m.pending_order_clients i
          ++ (if is_taken core_of request_bytes request_size m p msg_seq_num
              then joined_by m p content
              else [])
  unfolding numbered_request reject_request
  numbered_request-queue order_ids m m' p msg_seq_num content =
      by_flags (session m p).ready (msg_seq_num == add64 (session m p).inbound_seq_num 1)
    where
      m1 : ClientManager
      m1 = with_sessions m (increment_inbound_seq_num m.sessions p)

      by_flags :
          (a b : Bool)
          → (if not a
              then some m
              else if not b
              then some (reject_request core_of request_bytes request_size m p)
              else handle_request core_of request_bytes request_size order_ids m1 p content)
            ≡ some m'
          → m'.pending_order_clients i
            ≡ m.pending_order_clients i ++ (if a && b then joined_by m p content else [])
      by_flags true true e = handle_request-queue order_ids m1 m' p content e
      by_flags true false e = same _ m' e
      by_flags false b e = same m m' e

  nobody : (b : Bool) → ◌≡◌ {A = List ℕ} [] (if b then [] else [])
  nobody true = refl
  nobody false = refl

  handle_admin-queue :
      (d : Disk OrderResponse) (file_size fuel : ℕ) (m : ClientManager) (p n : ℕ) (a : AdminRequest)
      (action : AdminAction)
      → (handle_admin core_of request_bytes request_size d file_size fuel m p n a
          action).pending_order_clients
        ≡ m.pending_order_clients
  unfolding handle_admin handle_client_logon reject_logon accept_logon handle_client_logout
  handle_admin-queue d file_size fuel m p n a log_on = ground arith
  handle_admin-queue d file_size fuel m p n a log_out = ground arith
  handle_admin-queue d file_size fuel m p n a other_admin = refl

  pub process_client_request-queue :
      (d : Disk OrderResponse) (file_size fuel : ℕ) (order_ids : List ℕ) (m m' : ClientManager)
      (p : ℕ) (req : ClientRequest)
      → process_client_request core_of request_bytes request_size d file_size fuel order_ids m p
          (some req)
        ≡ some m'
      → m'.pending_order_clients i ≡ m.pending_order_clients i ++ joined m p req
  unfolding process_client_request
  process_client_request-queue d file_size fuel order_ids m m' p req = by_content req.content
    where
      by_content :
          (content : RequestData)
          → elim content [
            | admin_request a ↦ some (
                handle_admin core_of request_bytes request_size d file_size fuel m p req.msg_seq_num
                  a a.action)
            | x ↦
                numbered_request core_of request_bytes request_size order_ids m p req.msg_seq_num x
          ]
            ≡ some m'
          → m'.pending_order_clients i
            ≡ m.pending_order_clients i
              ++ (if is_taken core_of request_bytes request_size m p req.msg_seq_num
                  then joined_by m p content
                  else [])
      by_content (admin_request a) e =
          same
            (handle_admin core_of request_bytes request_size d file_size fuel m p req.msg_seq_num a
              a.action)
            m' e
          ∙ (ap (λ queues. queues i ++ [])
                (handle_admin-queue d file_size fuel m p req.msg_seq_num a a.action)
              ∙ ap (λ l. m.pending_order_clients i ++ l)
                  (nobody (is_taken core_of request_bytes request_size m p req.msg_seq_num)))
      by_content (order_request r) e =
          numbered_request-queue order_ids m m' p req.msg_seq_num (order_request r) e
      by_content (position_request a b) e =
          numbered_request-queue order_ids m m' p req.msg_seq_num (position_request a b) e
      by_content (open_order_request a) e =
          numbered_request-queue order_ids m m' p req.msg_seq_num (open_order_request a) e
      by_content other_request e =
          numbered_request-queue order_ids m m' p req.msg_seq_num other_request e

  -- The sessions that a response takes off the queue of core i.
  abbrev pub first_of : List ℕ → List ℕ
  first_of [] = []
  first_of (p ∷ ps) = p ∷ []

  abbrev pub popped : ClientManager → Option ℕ → List ℕ
  popped m none = []
  popped m (some j) = if j == i then first_of (m.pending_order_clients i) else []

  abbrev pub served : ClientManager → OrderResponse → List ℕ
  served m r =
      if is_resp r.exec_type
      then popped m (core_index (core_or_0 (core_of r.symbol_id)) m.ring_count)
      else []

  pop_client-queue :
      (m : ClientManager) (c : Option ℕ)
      → m.pending_order_clients i ≡ popped m c ++ (pop_client core_of m c).1.pending_order_clients i
  unfolding pop_client
  pop_client-queue m none = refl
  pop_client-queue m (some j) = ground (arith, (==_iff j i).0)

  forward_response-queues :
      (m : ClientManager) (r : OrderResponse) (p : Option ℕ)
      → (forward_response core_of m r p).pending_order_clients ≡ m.pending_order_clients
  forward_response-queues m r none = refl
  forward_response-queues m r (some p) = refl

  receiver-queue :
      (m : ClientManager) (r : OrderResponse)
      → m.pending_order_clients i ≡ served m r ++ (receiver core_of m r).1.pending_order_clients i
  unfolding receiver
  receiver-queue m r = elim (Bool-cases (is_resp r.exec_type)) [
    | inl e ↦ rw e (pop_client-queue m (core_index (core_or_0 (core_of r.symbol_id)) m.ring_count))
    | inr e ↦ rw e refl
  ]

  pub handle_execution_response-queue :
      (m : ClientManager) (r : OrderResponse)
      → m.pending_order_clients i
        ≡ served m r ++ (handle_execution_response core_of m r).pending_order_clients i
  unfolding handle_execution_response
  handle_execution_response-queue m r =
      receiver-queue m r
      ∙ ap (λ queues. served m r ++ queues i)
          (sym (
            forward_response-queues (receiver core_of m r).1 r (
              or_registered core_of (receiver core_of m r).1 r.client_id (receiver core_of m r).0)))
