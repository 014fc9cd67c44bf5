-- ===== src/Ring/Traces.antt =====
-- src/SHMRingBuffer.cpp: what holds of the ring in every state that producers and a consumer reach.
use electronic_exchange_simu.Prelude.{
  ℕ, ◌+◌, ◌^◌, ◌≤◌, ◌≡◌, ◌⊎◌, refl, subst, inl, inr, ◌∙◌, some, none, List, [], ◌∷◌, ◌++◌, length,
  map, arith,
}
use mathlib.Core.List.{append-nil}
use native.Mathlib.Nat.{zero-add, mod-lt}
use electronic_exchange_simu.Ring.Memory.{read}
use electronic_exchange_simu.Ring.Shm.{AcquireToken, commit, acquire}
use electronic_exchange_simu.Ring.Slots.{after}
use electronic_exchange_simu.Ring.Held.{Bytes, written, Held}
use electronic_exchange_simu.Ring.Claims.{IsLaid-pos}
use electronic_exchange_simu.Ring.System.{
  Flight, System, Step, Step.reserving, Step.filling, Step.committing, Step.acquiring,
  Step.releasing, started, Reach, Reach.start, Reach.later,
}
use electronic_exchange_simu.Ring.Order.{Consecutive, Holds, Inv, Numbered, bytes_of}
use electronic_exchange_simu.Ring.Order.Bounds.{cons-le-tail, tail-le-head}
use electronic_exchange_simu.Ring.Order.Reserving.{reserving-Inv}
use electronic_exchange_simu.Ring.Order.Filling.{filling-Inv}
use electronic_exchange_simu.Ring.Order.Committing.{committing-Inv}
use electronic_exchange_simu.Ring.Order.Consuming.{
  acquiring-Inv, releasing-Inv, acquire_lem, oldest_token,
}
use electronic_exchange_simu.Ring.Order.Flights.{Stands, stands}
use electronic_exchange_simu.Ring.Acquired.{acquired_at}

module _ (cap : ℕ) where
  Step-Inv : {s t : System} → Step cap s t → Inv cap s → Inv cap t
  Step-Inv {s} (reserving seen n old small far e) inv =
      reserving-Inv cap s inv seen n old small far e
  Step-Inv {s} (filling xs f ys bytes e sized) inv = filling-Inv cap s inv xs f ys bytes e sized
  Step-Inv {s} (committing xs f ys bytes e full done) inv =
      committing-Inv cap s inv f ys bytes xs e full done
  Step-Inv {s} (acquiring e) inv = acquiring-Inv cap s inv
  Step-Inv {s} (releasing t e) inv = releasing-Inv cap s inv t e

  module _ (k : ℕ) (power : cap ≡ 2 ^ k) (small : cap ≤ 2 ^ 32) where
    started-Inv : Inv cap (started cap)
    started-Inv = record {
      queue = [];
      oldest = 0;
      laid = record { exponent = k; power = power; small = small; masked = refl };
      committed = refl;
      reserved = refl;
      room = omega arith;
      far = omega arith;
      tokens = refl;
      taken = tt;
      in_order = refl;
      history = refl;
    }

    pub Reach-Inv : (s : System) → Reach cap s → Inv cap s
    Reach-Inv s start = started-Inv
    Reach-Inv s (later {s = before} r st) = Step-Inv st (Reach-Inv before r)

    -- The consumer's head is never past the committed tail, the tail never past the reserved head,
    -- and the head never more than the capacity past the consumer's head. The capacity is a power
    -- of 2 and at most 2^32, and the state is reachable.
    pub positions_ordered :
        (s : System)
        → Reach cap s
        → (s.ring.cons_head ≤ s.ring.prod_tail)
          × (s.ring.prod_tail ≤ s.ring.prod_head)
          × (s.ring.prod_head ≤ s.ring.cons_head + cap)
    positions_ordered s r =
        let inv = Reach-Inv s r in (cons-le-tail cap s inv, tail-le-head cap s inv, inv.room)

    sent_length : (i n : ℕ) (l : List (ℕ × Bytes)) → Numbered i n l → n ≡ i + length l
    sent_length i n [] h = omega arith
    sent_length i n (x ∷ l) h = omega (arith, sent_length (i + 1) n l h.1)

    -- Over every interleaving of producers that reserve, write and commit with the consumer that
    -- acquires and releases, the messages are committed in the order of their reservations, and
    -- what the consumer has read is the first part of what was committed, byte for byte and in that
    -- order. The capacity is a power of 2 and at most 2^32, and the state is reachable.
    pub received_in_order :
        (s : System)
        → Reach cap s
        → Numbered 0 (length s.sent) s.sent
          × ((queue : List Bytes) × (bytes_of s.sent ≡ s.received ++ queue))
    received_in_order s r =
        let inv = Reach-Inv s r in
        (
          subst (λ n. Numbered 0 n s.sent)
              (sent_length 0 inv.oldest s.sent inv.in_order ∙ zero-add (length s.sent))
              inv.in_order,
          (inv.queue, inv.history),
        )

    -- The consumer has read all that was sent and acquires nothing, or it acquires the oldest
    -- message that it has not released.
    abbrev pub Delivers : System → Type 0
    Delivers s =
        ((bytes_of s.sent ≡ s.received) × (acquire cap s.ring ≡ (none, s.ring)))
        ⊎ ((bytes : Bytes) × (rest : List Bytes) × (t : AcquireToken) × (bytes_of s.sent
              ≡ s.received ++ bytes ∷ rest)
            × (acquire cap s.ring ≡ (some t, s.ring))
            × (read s.ring.m_data t.payload t.size ≡ bytes))

    Delivers-from :
        (s : System) (queue : List Bytes)
        → Held cap s.ring.m_data s.ring.cons_head (map written queue) s.ring.prod_tail
        → acquire cap s.ring ≡ (oldest_token cap s.ring.cons_head queue, s.ring)
        → bytes_of s.sent ≡ s.received ++ queue
        → Delivers s
    Delivers-from s [] held e history = inl (history ∙ append-nil s.received, e)
    Delivers-from s (bytes ∷ rest) held e history =
        inr (bytes, rest, acquired_at cap s.ring.cons_head (length bytes), history, e, held.1)

    -- The consumer is never stuck: acquire returns the oldest message that is committed and not yet
    -- released, with its bytes, or nothing where all that was committed has been read. The capacity
    -- is a power of 2 and at most 2^32, and the state is reachable.
    pub acquire-oldest : (s : System) → Reach cap s → Delivers s
    acquire-oldest s r =
        let inv = Reach-Inv s r in
        Delivers-from s inv.queue inv.committed (acquire_lem cap s inv) inv.history

    -- The slot that the consumer holds carries the oldest message that is not released.
    abbrev pub Carries : System → AcquireToken → Type 0
    Carries s t =
        (bytes : Bytes) × (rest : List Bytes) × (bytes_of s.sent ≡ s.received ++ bytes ∷ rest)
        × (read s.ring.m_data t.payload t.size ≡ bytes)

    Carries-from :
        (s : System) (t : AcquireToken) (queue : List Bytes)
        → Held cap s.ring.m_data s.ring.cons_head (map written queue) s.ring.prod_tail
        → Holds cap s.ring.cons_head (some t) queue
        → bytes_of s.sent ≡ s.received ++ queue
        → Carries s t
    Carries-from s t [] held taken history = absurd taken
    Carries-from s t (bytes ∷ rest) held taken history = (bytes, rest, history, rw taken held.1)

    pub held-oldest : (s : System) (t : AcquireToken) → Reach cap s → s.held ≡ some t → Carries s t
    held-oldest s t r e =
        let inv = Reach-Inv s r in
        Carries-from s t inv.queue inv.committed
          (subst (λ h. Holds cap s.ring.cons_head h inv.queue) e inv.taken) inv.history

    -- The commit of the oldest reservation in flight does not wait: it succeeds at once, and moves
    -- prod_tail to the end of its slot. The capacity is a power of 2 and at most 2^32, and the
    -- state is reachable.
    pub commit-oldest :
        (s : System) (f : Flight) (ys : List Flight)
        → Reach cap s
        → s.flights ≡ f ∷ ys
        → commit s.ring f.token
          ≡ some (record s.ring { prod_tail = after cap s.ring.prod_tail f.token.size })
    unfolding commit
    commit-oldest s f ys r e =
        let inv = Reach-Inv s r in
        let tokens : Consecutive cap s.ring.prod_tail inv.oldest s.claimed (f ∷ ys) =
          rw e at inv.tokens in
        rw tokens.1 (ground arith)

    -- The payload of every reservation in flight lies within the bytes of the ring. The capacity is
    -- a power of 2 and at most 2^32, and the state is reachable.
    pub payloads_in_bounds :
        (s : System) (xs : List Flight) (f : Flight) (ys : List Flight)
        → Reach cap s
        → s.flights ≡ xs ++ f ∷ ys
        → f.token.payload + f.token.size ≤ cap
    payloads_in_bounds s xs f ys r e =
        let inv = Reach-Inv s r in
        let place : Stands cap s.ring.m_data f ys s.ring.prod_head s.ring.prod_tail inv.oldest
            s.claimed xs =
          stands cap s.ring.m_data f ys s.ring.prod_head s.ring.prod_tail inv.oldest s.claimed xs
            (rw e at inv.reserved) (rw e at inv.tokens) in
        rw place.tokens.1 (
          ground (
            arith,
            place.sized,
            place.own.0.fits,
            mod-lt place.at (IsLaid-pos cap s.ring inv.laid),
          ))
