-- ===== src/Engine/Tests.antt =====
-- The replay at an empty log.
use electronic_exchange_simu.Prelude.{ℕ, List, [], ◌∷◌, ◌≡◌, refl, none, some, update, arith}
use electronic_exchange_simu.Wire.{OrderRequest, OrderResponse}
use electronic_exchange_simu.OrderBook.Samples.{one_ask, crossing_buy}
use electronic_exchange_simu.Log.Files.{Disk}
use electronic_exchange_simu.Log.Replay.{read_all, at_position}
use electronic_exchange_simu.Accounts.Samples.{order_answer}
use electronic_exchange_simu.Engine.MatchingEngine.{Books, replay_loop}
use electronic_exchange_simu.Engine.Serving.{
  Engine, serve_slot, released, Turn.producing, Turn.acquiring_slot, Turn.processing,
  Turn.releasing_slot, Served, Served.begin, Served.then_turn,
}
use electronic_exchange_simu.Engine.InOrder.{InOrder, requests-InOrder}
use electronic_exchange_simu.Ring.Acquired.{acquired_at}
use electronic_exchange_simu.Ring.Memory.{load32, store32, copy}
use electronic_exchange_simu.Prelude.{add64, sub64, false, true}
use electronic_exchange_simu.Ring.Shm.{ShmRing, create, claim, fill, commit, acquire}
use electronic_exchange_simu.Ring.Claims.{token_at, claim_lem, put}
use electronic_exchange_simu.Ring.System.{
  Flight, System, started, take_slot, Step.reserving, Step.filling, Step.committing,
}
use electronic_exchange_simu.Engine.BySymbol.{map_book, own_replay, replay_loop-own_replay}

abbrev one_book : Books
one_book = update (λ s. none) 1 (some one_ask)

-- The log holds the answer to one order, of 64 bytes.
abbrev journal_disk : Disk OrderResponse
journal_disk =
    update (λ i. none) 0
      (some (record {
        reserved_length = update (λ o. 0) 0 64;
        published_length = update (λ o. 0) 0 64;
        payload = update (λ o. none) 0 (some order_answer);
      }))

replay_loop-own_replay_example :
    replay_loop 64 journal_disk 65536 2 3 (at_position 0 0) one_book 1
    ≡ map_book (own_replay 64 1 (read_all journal_disk 65536 2 3 (at_position 0 0))) (some one_ask)
replay_loop-own_replay_example =
    replay_loop-own_replay 64 journal_disk 65536 2 3 (at_position 0 0) one_book 1

-- A producer sends four bytes through a ring of sixteen, and the engine takes them for an order.
abbrev four_bytes : List ℕ
four_bytes = 1 ∷ 2 ∷ 3 ∷ 4 ∷ []

abbrev claimed_ring : ShmRing
claimed_ring = record (create 16) { prod_head = 8; m_data = put 16 (create 16).m_data 0 4 }

claimed_lem : claim 16 (create 16) 0 4 ≡ some (token_at 16 0 4, claimed_ring)
claimed_lem =
    claim_lem 16 (create 16) 0 4
      (record { exponent = 4; power = refl; small = omega arith; masked = refl }) (omega arith)
      (omega arith) (omega arith)

abbrev flight : Flight
flight = record { number = 0; token = token_at 16 0 4; content = none }

abbrev claimed_system : System
claimed_system = record (started 16) { ring = claimed_ring; flights = flight ∷ []; claimed = 1 }

abbrev filled_system : System
filled_system = record claimed_system {
  ring = fill claimed_ring flight.token four_bytes;
  flights = record flight { content = some four_bytes } ∷ [];
}

abbrev sent_system : System
sent_system = record filled_system {
  ring = record filled_system.ring { prod_tail = 8 };
  flights = [];
  sent = (0, four_bytes) ∷ [];
}

commit_lem : commit filled_system.ring flight.token ≡ some sent_system.ring
unfolding commit fill
commit_lem = refl

abbrev an_order : List ℕ → OrderRequest
an_order bytes = crossing_buy

-- The engine holds the slot, then its request takes effect, and then the slot is released.
abbrev sent_engine : Engine
sent_engine = record { system = sent_system; books = one_book; processed = false }

abbrev holding : Engine
holding = record sent_engine { system = take_slot sent_system (acquire 16 sent_system.ring) }

held_lem : holding.system.held ≡ some (acquired_at 16 0 4)
unfolding acquire put fill store32 load32 copy add64 sub64
held_lem = refl

abbrev took_effect : Engine
took_effect = record holding {
  books = (serve_slot 16 4 an_order holding.system.ring (acquired_at 16 0 4) one_book).1;
  processed = true;
}

abbrev served : Engine
served = record took_effect {
  system = released 16 4 an_order holding.system (acquired_at 16 0 4);
  processed = false;
}

polling_run : Served 16 4 an_order one_book served
polling_run =
    then_turn
      (then_turn
        (then_turn
          (then_turn
            (then_turn
              (then_turn begin (
                producing (reserving 0 4 (omega arith) (omega arith) (omega arith) claimed_lem) refl
                  refl))
              (producing (filling [] flight [] four_bytes refl refl) refl refl))
            (producing
              (committing [] (record flight { content = some four_bytes }) [] four_bytes refl refl
                commit_lem)
              refl refl))
          (acquiring_slot refl))
        (processing (acquired_at 16 0 4) held_lem refl))
      (releasing_slot (acquired_at 16 0 4) held_lem refl)

requests-InOrder_example : InOrder 16 4 an_order 4 refl (omega arith) one_book served
requests-InOrder_example =
    requests-InOrder 16 4 an_order 4 refl (omega arith) one_book served polling_run
