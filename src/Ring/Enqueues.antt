-- ===== src/Ring/Enqueues.antt =====
-- src/SHMRingBuffer.cpp: enqueue as the three steps of a producer.
use electronic_exchange_simu.Prelude.{
  ℕ, ◌+◌, ◌*◌, ◌^◌, ◌≤◌, ◌<◌, ◌≡◌, ◌⊎◌, refl, inl, inr, Option, some, none, [], ◌∷◌, ◌++◌, length,
  arith, Option-cases, subst,
}
use electronic_exchange_simu.Ring.Shm.{
  ShmRing, ReserveToken, claim, reserve, fill, commit, enqueue, Enqueued.refused, Enqueued.enqueued,
  write_reserved, finish,
}
use electronic_exchange_simu.Ring.Slots.{after}
use electronic_exchange_simu.Ring.Held.{Bytes}
use electronic_exchange_simu.Ring.System.{
  Flight, System, Step.reserving, Step.filling, Step.committing, Reach, Reach.later,
}
use electronic_exchange_simu.Ring.Traces.{commit-oldest}
use electronic_exchange_simu.Ring.Room.{Refused, reserve_refusals}

claim_size :
    (cap : ℕ) (r : ShmRing) (seen n : ℕ) {t : ReserveToken} {r' : ShmRing}
    → claim cap r seen n ≡ some (t, r')
    → n ≡ t.size
unfolding claim
claim_size cap r seen n e = ground arith

module _ (cap k : ℕ) (power : cap ≡ 2 ^ k) (small : cap ≤ 2 ^ 32) (s : System) (r : Reach cap s)
    (bytes : Bytes) (short : length bytes + 4 < 2 ^ 64) (far : s.ring.prod_head + 2 * cap < 2 ^ 64)
    (alone : s.flights ≡ []) where
  -- A reachable state that differs from s by the one message that has been sent.
  pub record Sends (u : System) : Type 0 where
    pub reached : Reach cap u
    pub alone_again : u.flights ≡ []
    pub sent_one : u.sent ≡ s.sent ++ (s.claimed, bytes) ∷ []
    pub received_none : u.received ≡ s.received
    pub held_same : u.held ≡ s.held

  abbrev flight : ReserveToken → Option Bytes → Flight
  flight t content = record { number = s.claimed; token = t; content = content }

  abbrev reserved_system : ReserveToken → ShmRing → Option Bytes → System
  reserved_system t r' content = record s {
    ring = r';
    flights = flight t content ∷ [];
    claimed = s.claimed + 1;
  }

  module _ (t : ReserveToken) (r' : ShmRing)
      (made : claim cap s.ring s.ring.cons_head (length bytes) ≡ some (t, r')) where
    reserved : Reach cap (reserved_system t r' none)
    reserved =
        subst
          (λ fs.
            Reach cap
              (record s { ring = r'; flights = fs ++ flight t none ∷ []; claimed = s.claimed + 1 }))
          alone (later r (reserving s.ring.cons_head (length bytes) (omega arith) short far made))

    filled : Reach cap (reserved_system t (fill r' t bytes) (some bytes))
    filled =
        later reserved
          (filling [] (flight t none) [] bytes refl (claim_size cap s.ring _ (length bytes) made))

    abbrev pub committed_ring : ShmRing
    committed_ring = record (fill r' t bytes) {
      prod_tail = after cap (fill r' t bytes).prod_tail t.size;
    }

    committed : commit (fill r' t bytes) t ≡ some committed_ring
    committed =
        commit-oldest cap k power small (reserved_system t (fill r' t bytes) (some bytes))
          (flight t (some bytes)) [] filled refl

    abbrev pub sent_system : System
    sent_system = record s {
      ring = committed_ring;
      flights = [];
      claimed = s.claimed + 1;
      sent = s.sent ++ (s.claimed, bytes) ∷ [];
    }

    pub sends : Sends sent_system
    sends = record {
      reached = later filled (committing [] (flight t (some bytes)) [] bytes refl refl committed);
      alone_again = refl;
      sent_one = refl;
      received_none = refl;
      held_same = refl;
    }

    enqueue_lem : enqueue cap s.ring (some bytes) ≡ enqueued committed_ring
    unfolding enqueue reserve write_reserved finish
    enqueue_lem = rw (made, write_reserved) (rw committed refl)

  reserve_claims :
      {made : ReserveToken × ShmRing}
      → reserve cap s.ring (length bytes) ≡ some made
      → claim cap s.ring s.ring.cons_head (length bytes) ≡ some made
  unfolding reserve
  reserve_claims e = e

  -- Where no reservation is in flight, enqueue either refuses, for one of the reasons that reserve
  -- has, or leads to a reachable state with nothing in flight in which the message is the last one
  -- committed; it never waits. The capacity is a power of 2 and at most 2^32, and the state is
  -- reachable. The message with its header fits 64 bits, and the positions are at least two
  -- capacities below 2^64.
  pub enqueue_alone :
      (Refused cap k power small s r (length bytes) × (enqueue cap s.ring (some bytes) ≡ refused))
      ⊎ ((u : System) × Sends u × (enqueue cap s.ring (some bytes) ≡ enqueued u.ring))
  unfolding enqueue write_reserved
  enqueue_alone = elim (Option-cases (reserve cap s.ring (length bytes))) [
    | inl e ↦ inl (
      (reserve_refusals cap k power small s r (length bytes) short far).0 e,
      rw (e, write_reserved) refl,
    )
    | inr (made, e) ↦ inr (
      sent_system made.0 made.1 (reserve_claims e),
      sends made.0 made.1 (reserve_claims e),
      enqueue_lem made.0 made.1 (reserve_claims e),
    )
  ]
