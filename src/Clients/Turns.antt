-- ===== src/Clients/Turns.antt =====
-- src/ClientManager.cpp: runs of requests and responses, and the order in which a core answers.
use electronic_exchange_simu.Prelude.{ℕ, Option, some, List, ◌++◌, ◌≡◌}
use electronic_exchange_simu.Prelude.Int.{ℤ}
use electronic_exchange_simu.Wire.{OrderRequest, OrderResponse}
use electronic_exchange_simu.Log.Files.{Disk}
use electronic_exchange_simu.Ring.Held.{Bytes}
use electronic_exchange_simu.Clients.Manager.{ClientManager}
use electronic_exchange_simu.Clients.Requests.{
  ClientRequest, process_client_request, handle_execution_response,
}
use electronic_exchange_simu.Clients.Queueing.{joined, served}

module _ (core_of : ℕ → Option ℤ) (request_bytes : OrderRequest → Bytes) (request_size i : ℕ) where
  -- The manager, the sessions whose requests the ring of core i has taken, in that order, and those
  -- that the answers of core i were taken to be for.
  pub record Desk : Type 0 where
    pub manager : ClientManager
    pub asked : List ℕ
    pub answered : List ℕ

  module _ (d : Disk OrderResponse) (file_size fuel : ℕ) (order_ids : List ℕ) where
    pub data Turn (s : Desk) : Desk → Type 0 where
      requesting :
          (p : ℕ) (req : ClientRequest) {m : ClientManager}
          → process_client_request core_of request_bytes request_size d file_size fuel order_ids
              s.manager p
              (some req)
            ≡ some m
          → Turn s (record s {
            manager = m;
            asked = s.asked ++ joined core_of request_bytes request_size i s.manager p req;
          })
      responding :
          (r : OrderResponse)
          → Turn s (record s {
            manager = handle_execution_response core_of s.manager r;
            answered = s.answered ++ served core_of request_bytes request_size i s.manager r;
          })

    pub data Turns (s : Desk) : Desk → Type 0 where
      idle : Turns s s
      next : {t u : Desk} → Turns s t → Turn t u → Turns s u

    abbrev pub Queued : Desk → Type 0
    Queued s = s.asked ≡ s.answered ++ s.manager.pending_order_clients i
