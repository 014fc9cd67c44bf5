-- ===== src/Clients/Receiving.antt =====
-- src/ClientManager.cpp: whom a response of the engine goes to.
use electronic_exchange_simu.Prelude.{
  ℕ, ◌==◌, Option, none, some, List, [], ◌∷◌, ◌≡◌, refl, ap, ◌∙◌, arith, if◌then◌else◌, Bool-cases,
  inl, inr, sym, subst, ==_iff, true, false, All,
}
use electronic_exchange_simu.Prelude.Int.{ℤ}
use electronic_exchange_simu.Wire.{OrderResponse}
use electronic_exchange_simu.MarketData.Server.{is_resp}
use electronic_exchange_simu.Clients.CmClient.{
  ResponseData, order_response, Sessions, send_numbered,
}
use electronic_exchange_simu.Clients.Manager.{ClientManager, session}
use electronic_exchange_simu.Clients.Answers.{Answers-send_numbered}
use electronic_exchange_simu.Clients.Requests.{
  core_index, core_or_0, pop_client, receiver, or_registered, last_popped_for, forward_response,
  handle_execution_response,
}

module _ (core_of : ℕ → Option ℤ) where
  pop_client-sessions :
      (m : ClientManager) (i : Option ℕ) → (pop_client core_of m i).1.sessions ≡ m.sessions
  unfolding pop_client
  pop_client-sessions m i = ground arith

  receiver-sessions :
      (m : ClientManager) (r : OrderResponse) → (receiver core_of m r).1.sessions ≡ m.sessions
  unfolding receiver
  receiver-sessions m r = elim (Bool-cases (is_resp r.exec_type)) [
    | inl e ↦
        rw e (pop_client-sessions m (core_index (core_or_0 (core_of r.symbol_id)) m.ring_count))
    | inr e ↦ rw e refl
  ]

  abbrev pub queue_at : ClientManager → Option ℕ → List ℕ
  queue_at m none = []
  queue_at m (some i) = m.pending_order_clients i

  -- The queue of the core that a symbol belongs to.
  abbrev pub queue_of : ClientManager → ℕ → List ℕ
  queue_of m symbol_id = queue_at m (core_index (core_or_0 (core_of symbol_id)) m.ring_count)

  abbrev pub delivered_to : Sessions → OrderResponse → Option ℕ → Sessions
  delivered_to s r none = s
  delivered_to s r (some p) = send_numbered s p (order_response r)

  -- The responses in turn.
  abbrev pub handle_responses : ClientManager → List OrderResponse → ClientManager
  handle_responses m [] = m
  handle_responses m (r ∷ rs) = handle_responses (handle_execution_response core_of m r) rs

  -- The reports of the client `sender_id` go to the session p, the others to the sessions that are
  -- registered for their clients.
  abbrev pub reports_to : (ℕ → Option ℕ) → ℕ → ℕ → Sessions → List OrderResponse → Sessions
  reports_to clients p sender_id s [] = s
  reports_to clients p sender_id s (r ∷ rs) =
      reports_to clients p sender_id
        (delivered_to s r (if sender_id == r.client_id then some p else clients r.client_id)) rs

  send_numbered-client_id :
      (s : Sessions) (q p : ℕ) (c : ResponseData)
      → ((send_numbered s q c).objects p).client_id ≡ (s.objects p).client_id
  send_numbered-client_id s q p c = elim (Bool-cases (q == p)) [
    | inl e ↦
        subst (λ x. ((send_numbered s q c).objects x).client_id ≡ (s.objects x).client_id)
          ((==_iff q p).0 e) (Answers-send_numbered s q c).id_kept
    | inr e ↦ ap (λ x. x.client_id) ((Answers-send_numbered s q c).others_kept p e)
  ]

  delivered_to-client_id :
      (s : Sessions) (r : OrderResponse) (q : Option ℕ) (p : ℕ)
      → ((delivered_to s r q).objects p).client_id ≡ (s.objects p).client_id
  delivered_to-client_id s r none p = refl
  delivered_to-client_id s r (some q) p = send_numbered-client_id s q p (order_response r)

  -- From m to m' the sessions become s, the registered clients and the queues stay, and p is the
  -- session that was answered last.
  record After (m m' : ClientManager) (p : ℕ) (s : Sessions) (queue : ℕ → List ℕ) : Type 0 where
    sessions_are : m'.sessions ≡ s
    clients_kept : m'.clients ≡ m.clients
    last_is : m'.last_popped_client ≡ some p
    queues_are : m'.pending_order_clients ≡ queue
    count_kept : m'.ring_count ≡ m.ring_count

  forward_response-After :
      (m m1 : ClientManager) (r : OrderResponse) (p : ℕ) (q : Option ℕ) (s : Sessions)
      (queue : ℕ → List ℕ)
      → After m m1 p s queue
      → After m (forward_response core_of m1 r q) p (delivered_to s r q) queue
  forward_response-After m m1 r p none s queue h = h
  forward_response-After m m1 r p (some q) s queue h = record {
    sessions_are = ap (λ x. send_numbered x q (order_response r)) h.sessions_are;
    clients_kept = h.clients_kept;
    last_is = h.last_is;
    queues_are = h.queues_are;
    count_kept = h.count_kept;
  }

  report_to :
      (m : ClientManager) (r : OrderResponse) (p : ℕ)
      → m.last_popped_client ≡ some p
      → is_resp r.exec_type ≡ false
      → After m
          (handle_execution_response core_of m r)
          p
          (delivered_to m.sessions r
            (if (session m p).client_id == r.client_id then some p else m.clients r.client_id))
          m.pending_order_clients
  unfolding handle_execution_response receiver
  report_to m r p last no_answer = rw no_answer (
      subst
        (λ q.
          After m (forward_response core_of m r q) p (delivered_to m.sessions r to)
            m.pending_order_clients)
        (sym chosen) (forward_response-After m m r p to m.sessions m.pending_order_clients start))
    where
      to : Option ℕ
      to = if (session m p).client_id == r.client_id then some p else m.clients r.client_id

      chosen :
          or_registered core_of m r.client_id
            (last_popped_for core_of m r.client_id m.last_popped_client)
          ≡ to
      chosen = ground arith

      start : After m m p m.sessions m.pending_order_clients
      start = record {
        sessions_are = refl;
        clients_kept = refl;
        last_is = last;
        queues_are = refl;
        count_kept = refl;
      }

  reports_in_turn :
      (rs : List OrderResponse) (m : ClientManager) (p : ℕ)
      → m.last_popped_client ≡ some p
      → All (λ r. is_resp r.exec_type ≡ false) rs
      → After m
          (handle_responses m rs)
          p
          (reports_to m.clients p (session m p).client_id m.sessions rs)
          m.pending_order_clients
  reports_in_turn [] m p last no_answers = record {
    sessions_are = refl;
    clients_kept = refl;
    last_is = last;
    queues_are = refl;
    count_kept = refl;
  }
  reports_in_turn (r ∷ rs) m p last no_answers =
      let first = report_to m r p last no_answers.0 in
      let rest =
        reports_in_turn rs (handle_execution_response core_of m r) p first.last_is no_answers.1 in
      record {
        sessions_are = rest.sessions_are ∙ same first;
        clients_kept = rest.clients_kept ∙ first.clients_kept;
        last_is = rest.last_is;
        queues_are = rest.queues_are ∙ first.queues_are;
        count_kept = rest.count_kept ∙ first.count_kept;
      }
    where
      to : Option ℕ
      to = if (session m p).client_id == r.client_id then some p else m.clients r.client_id

      m1 : ClientManager
      m1 = handle_execution_response core_of m r

      same :
          After m m1 p (delivered_to m.sessions r to) m.pending_order_clients
          → reports_to m1.clients p (session m1 p).client_id m1.sessions rs
            ≡ reports_to m.clients p (session m p).client_id (delivered_to m.sessions r to) rs
      same h =
          ap (λ c. reports_to c p (session m1 p).client_id m1.sessions rs) h.clients_kept
          ∙ (ap (λ s. reports_to m.clients p (s.objects p).client_id s rs) h.sessions_are
              ∙ ap (λ n. reports_to m.clients p n (delivered_to m.sessions r to) rs)
                  (delivered_to-client_id m.sessions r to p))

  queue_at_same :
      (a b : ClientManager) (c : Option ℕ)
      → a.pending_order_clients ≡ b.pending_order_clients
      → queue_at a c ≡ queue_at b c
  queue_at_same a b none e = refl
  queue_at_same a b (some i) e = ap (λ f. f i) e

  popped_by :
      (m : ClientManager) (c : Option ℕ) (p : ℕ) (ps : List ℕ)
      → queue_at m c ≡ p ∷ ps
      → ((pop_client core_of m c).0 ≡ some p)
        × ((pop_client core_of m c).1.sessions ≡ m.sessions)
        × ((pop_client core_of m c).1.clients ≡ m.clients)
        × ((pop_client core_of m c).1.last_popped_client ≡ some p)
        × ((pop_client core_of m c).1.ring_count ≡ m.ring_count)
        × (queue_at (pop_client core_of m c).1 c ≡ ps)
  unfolding pop_client
  popped_by m none p ps e = cc
  popped_by m (some i) p ps e = ground (arith, (==_iff i i).1 refl)

  module _ (m : ClientManager) (r : OrderResponse) (p : ℕ) (ps : List ℕ)
      (answers : is_resp r.exec_type ≡ true) (queue : queue_of m r.symbol_id ≡ p ∷ ps) where
    abbrev core : Option ℕ
    core = core_index (core_or_0 (core_of r.symbol_id)) m.ring_count

    abbrev popped : ClientManager
    popped = (pop_client core_of m core).1

    answered : handle_execution_response core_of m r ≡ forward_response core_of popped r (some p)
    unfolding handle_execution_response receiver
    answered = rw answers (
        ap (λ q. forward_response core_of popped r (or_registered core_of popped r.client_id q))
          (popped_by m core p ps queue).0)

    abbrev answered_manager : ClientManager
    answered_manager = forward_response core_of popped r (some p)

    -- An answer to a request and the reports after it, none of which answers a request, go where
    -- the program says: the answer to the session at the front of its core's queue, which is taken
    -- off; a later report of that session's client to the same session, even where another session
    -- is registered for the client by then; and any other report to the session that is registered
    -- for its client, or to none.
    pub handle_responses-burst :
        (rs : List OrderResponse)
        → All (λ x. is_resp x.exec_type ≡ false) rs
        → ((handle_responses m (r ∷ rs)).sessions
            ≡ reports_to m.clients p
                (session m p).client_id
                (send_numbered m.sessions p (order_response r))
                rs)
          × (queue_of (handle_responses m (r ∷ rs)) r.symbol_id ≡ ps)
    handle_responses-burst rs no_answers =
        let found = popped_by m core p ps queue in
        let rest = reports_in_turn rs answered_manager p found.3 no_answers in
        subst Burst (sym answered) (
          rest.sessions_are
              ∙ (ap
                    (λ c.
                      reports_to c p (session answered_manager p).client_id
                        answered_manager.sessions rs)
                    found.2
                  ∙ (ap (λ s. reports_to m.clients p (s.objects p).client_id s rs)
                        (ap (λ s. send_numbered s p (order_response r)) found.1)
                      ∙ ap
                          (λ n.
                            reports_to m.clients p n (send_numbered m.sessions p (order_response r))
                              rs)
                          (send_numbered-client_id m.sessions p p (order_response r)))),
          ap
                (λ n.
                  queue_at (handle_responses answered_manager rs)
                    (core_index (core_or_0 (core_of r.symbol_id)) n))
                (rest.count_kept ∙ found.4)
              ∙ (queue_at_same (handle_responses answered_manager rs) popped core rest.queues_are
                  ∙ found.5),
        )
      where
        Burst : ClientManager → Type 0
        Burst y =
            ((handle_responses y rs).sessions
              ≡ reports_to m.clients p (session m p).client_id
                  (send_numbered m.sessions p (order_response r)) rs)
            × (queue_of (handle_responses y rs) r.symbol_id ≡ ps)
