-- ===== src/Ring/Tests.antt =====
-- src/SHMRingBuffer.cpp: runs over a ring of sixteen bytes, and the theorems of the ring at them.
use electronic_exchange_simu.Prelude.{
  ℕ, ◌+◌, ◌≤◌, ◌↔◌, ◌⊎◌, ◌++◌, length, ◌≡◌, refl, some, none, List, [], ◌∷◌, arith, add64, sub64,
}
use electronic_exchange_simu.Ring.Memory.{load32, store32, copy, read}
use electronic_exchange_simu.Ring.Shm.{
  ShmRing, create, attach, Attached.attached, claim, reserve, fill, commit, acquire, release,
  dequeue, enqueue, Enqueued.enqueued, Enqueued.refused, release_acquired, get_reserved_depth,
  get_uncommitted_depth,
}
use electronic_exchange_simu.Ring.Claims.{IsLaid, token_at, claim_lem, put}
use electronic_exchange_simu.Ring.System.{
  System, started, take_slot, Reach, Reach.start, Reach.later, Step.acquiring, Step.releasing,
  Step.reserving,
}
use electronic_exchange_simu.Ring.Enqueues.{sent_system, sends, Sends, enqueue_alone}
use electronic_exchange_simu.Ring.Acquired.{acquired_at}
use electronic_exchange_simu.Ring.Held.{Bytes}
use electronic_exchange_simu.Ring.Slots.{after}
use electronic_exchange_simu.Ring.Order.{Numbered, bytes_of}
use electronic_exchange_simu.Ring.Traces.{
  positions_ordered, received_in_order, Delivers, acquire-oldest, commit-oldest, payloads_in_bounds,
}
use electronic_exchange_simu.Ring.Room.{Refused, reserve_refusals, reserve_starves}

abbrev laid : IsLaid 16 (create 16)
laid = record { exponent = 4; power = refl; small = omega arith; masked = refl }

abbrev four_bytes : List ℕ
four_bytes = 1 ∷ 2 ∷ 3 ∷ 4 ∷ []

abbrev claimed_ring : ShmRing
claimed_ring = record (create 16) { prod_head = 8; m_data = put 16 (create 16).m_data 0 4 }

claimed_lem : claim 16 (create 16) 0 4 ≡ some (token_at 16 0 4, claimed_ring)
claimed_lem = claim_lem 16 (create 16) 0 4 laid (omega arith) (omega arith) (omega arith)

-- One message of four bytes is sent.
abbrev sent : System
sent =
    sent_system 16 4 refl (omega arith) (started 16) start four_bytes (omega arith) (omega arith)
      refl (token_at 16 0 4) claimed_ring claimed_lem

abbrev sent_Sends :
    Sends 16 4 refl
      (omega arith)
      (started 16)
      start
      four_bytes
      (omega arith)
      (omega arith)
      refl
      sent
sent_Sends =
    sends 16 4 refl (omega arith) (started 16) start four_bytes (omega arith) (omega arith) refl
      (token_at 16 0 4) claimed_ring claimed_lem

abbrev acquired : System
acquired = take_slot sent (acquire 16 sent.ring)

acquired_reached : Reach 16 acquired
acquired_reached = later sent_Sends.reached (acquiring refl)

acquired_token : acquired.held ≡ some (acquired_at 16 0 4)
unfolding acquire put store32 load32 fill copy add64 sub64
acquired_token = refl

abbrev drained : System
drained = record acquired {
  ring = release acquired.ring (acquired_at 16 0 4);
  held = none;
  received = read acquired.ring.m_data 4 4 ∷ [];
}

drained_reached : Reach 16 drained
drained_reached = later acquired_reached (releasing (acquired_at 16 0 4) acquired_token)

-- The message comes back.
dequeue_sent : (dequeue 16 sent.ring).0 ≡ some (acquired_at 16 0 4)
unfolding dequeue release_acquired acquire put store32 load32 fill copy add64 sub64
dequeue_sent = refl

read_sent : read sent.ring.m_data 4 4 ≡ four_bytes
unfolding read put store32 load32 fill copy
read_sent = refl

depths_sent : (get_reserved_depth sent.ring ≡ 8) × (get_uncommitted_depth sent.ring ≡ 0)
unfolding get_reserved_depth get_uncommitted_depth fill sub64
depths_sent = (refl, refl)

attach_sent : attach sent.ring ≡ attached sent.ring
unfolding attach fill
attach_sent = refl

positions_ordered_example :
    (sent.ring.cons_head ≤ sent.ring.prod_tail)
    × (sent.ring.prod_tail ≤ sent.ring.prod_head)
    × (sent.ring.prod_head ≤ sent.ring.cons_head + 16)
positions_ordered_example = positions_ordered 16 4 refl (omega arith) sent sent_Sends.reached

received_in_order_example :
    Numbered 0 (length sent.sent) sent.sent
    × ((queue : List Bytes) × (bytes_of sent.sent ≡ sent.received ++ queue))
received_in_order_example = received_in_order 16 4 refl (omega arith) sent sent_Sends.reached

acquire-oldest_example : Delivers 16 4 refl (omega arith) sent
acquire-oldest_example = acquire-oldest 16 4 refl (omega arith) sent sent_Sends.reached

abbrev in_flight : System
in_flight = record (started 16) {
  ring = claimed_ring;
  flights = record { number = 0; token = token_at 16 0 4; content = none } ∷ [];
  claimed = 1;
}

in_flight_reached : Reach 16 in_flight
in_flight_reached =
    later start (reserving 0 4 (omega arith) (omega arith) (omega arith) claimed_lem)

commit-oldest_example :
    commit in_flight.ring (token_at 16 0 4)
    ≡ some (record in_flight.ring { prod_tail = after 16 in_flight.ring.prod_tail 4 })
commit-oldest_example =
    commit-oldest 16 4 refl (omega arith) in_flight
      (record { number = 0; token = token_at 16 0 4; content = none }) [] in_flight_reached refl

payloads_in_bounds_example : (token_at 16 0 4).payload + 4 ≤ 16
payloads_in_bounds_example =
    payloads_in_bounds 16 4 refl (omega arith) in_flight []
      (record { number = 0; token = token_at 16 0 4; content = none }) [] in_flight_reached refl

reserve_refusals_example :
    (reserve 16 claimed_ring 5 ≡ none)
    ↔ Refused 16 4 refl (omega arith) in_flight in_flight_reached 5
reserve_refusals_example =
    reserve_refusals 16 4 refl (omega arith) in_flight in_flight_reached 5 (omega arith)
      (omega arith)

drained_heads : (drained.ring.prod_head ≡ 8) × (drained.ring.cons_head ≡ 8)
unfolding release acquire put store32 load32 fill copy add64 sub64
drained_heads = (refl, refl)

reserve_starves_example :
    (reserve 16 drained.ring 8 ≡ none) × (acquire 16 drained.ring ≡ (none, drained.ring))
reserve_starves_example =
    reserve_starves 16 4 refl (omega arith) drained drained_reached 8 (omega arith)
      (omega (arith, drained_heads)) (omega (arith, drained_heads)) (omega (arith, drained_heads))
      (omega (arith, drained_heads))

enqueue_alone_example :
    (Refused 16 4 refl (omega arith) (started 16) start 4
      × (enqueue 16 (create 16) (some four_bytes) ≡ refused))
    ⊎ ((u : System) × Sends 16 4 refl
          (omega arith)
          (started 16)
          start
          four_bytes
          (omega arith)
          (omega arith)
          refl
          u
        × (enqueue 16 (create 16) (some four_bytes) ≡ enqueued u.ring))
enqueue_alone_example =
    enqueue_alone 16 4 refl (omega arith) (started 16) start four_bytes (omega arith) (omega arith)
      refl
