-- ===== src/Ring/Order/Committing.antt =====
-- src/SHMRingBuffer.cpp: commit keeps the invariant; only the oldest reservation can commit.
use electronic_exchange_simu.Prelude.{
  ℕ, ◌+◌, ◌≡◌, refl, sym, ap, subst, ◌∙◌, Option, some, none, List, [], ◌∷◌, ◌++◌, length, map,
  arith,
}
use mathlib.Core.List.{map-append, append_assoc}
use electronic_exchange_simu.Ring.Shm.{ShmRing, ReserveToken, AcquireToken, commit}
use electronic_exchange_simu.Ring.Slots.{after}
use electronic_exchange_simu.Ring.Held.{
  Bytes, written, slot_size, Held, Held-le, Held-append, after_lt,
}
use electronic_exchange_simu.Ring.System.{Flight, System}
use electronic_exchange_simu.Ring.Order.{
  slot, slot_of, Consecutive, HasSize, Inv, Holds, Numbered, bytes_of,
}
use electronic_exchange_simu.Ring.Order.Flights.{Stands, stands}

pub bytes_of-append : (xs ys : List (ℕ × Bytes)) → bytes_of (xs ++ ys) ≡ bytes_of xs ++ bytes_of ys
bytes_of-append [] ys = refl
bytes_of-append ((i, b) ∷ xs) ys = ap (λ t. b ∷ t) (bytes_of-append xs ys)

Numbered-append :
    (k n i : ℕ) (xs : List (ℕ × Bytes)) (b : Bytes)
    → i ≡ n
    → Numbered k n xs
    → Numbered k (n + 1) (xs ++ (i, b) ∷ [])
Numbered-append k n i [] b e h = (e ∙ sym h, ap (λ t. t + 1) h)
Numbered-append k n i ((j, c) ∷ xs) b e h = (h.0, Numbered-append (k + 1) n i xs b e h.1)

Holds-append :
    (cap p : ℕ) (held : Option AcquireToken) (queue : List Bytes) (b : Bytes)
    → Holds cap p held queue
    → Holds cap p held (queue ++ b ∷ [])
Holds-append cap p none queue b h = tt
Holds-append cap p (some t) [] b h = absurd h
Holds-append cap p (some t) (q ∷ queue) b h = h

commit_inversion :
    (r : ShmRing) (t : ReserveToken) {r' : ShmRing}
    → commit r t ≡ some r'
    → (r.prod_tail ≡ t.old_prod_head) × (record r { prod_tail = t.new_prod_head } ≡ r')
unfolding commit
commit_inversion r t e = ground arith

module _ (cap : ℕ) (s : System) (inv : Inv cap s) (f : Flight) (ys : List Flight)
    (bytes : Bytes) where
  abbrev committed_system : ShmRing → List Flight → System
  committed_system r fs = record s {
    ring = r;
    flights = fs;
    sent = s.sent ++ (f.number, bytes) ∷ [];
  }

  module _ (first : s.flights ≡ f ∷ ys) (full : f.content ≡ some bytes) where
    oldest_reserved : Held cap s.ring.m_data s.ring.prod_tail (map slot (f ∷ ys)) s.ring.prod_head
    oldest_reserved = rw first at inv.reserved

    oldest_slots :
        Held cap s.ring.m_data s.ring.prod_tail (written bytes ∷ map slot ys) s.ring.prod_head
    oldest_slots =
        subst
          (λ c.
            Held cap s.ring.m_data s.ring.prod_tail (slot_of f.token.size c ∷ map slot ys)
              s.ring.prod_head)
          full oldest_reserved

    oldest_tokens : Consecutive cap s.ring.prod_tail inv.oldest s.claimed (f ∷ ys)
    oldest_tokens = rw first at inv.tokens

    oldest_size : length bytes ≡ f.token.size
    oldest_size = subst (λ c. HasSize f.token.size c) full oldest_tokens.2

    abbrev next : ℕ
    next = after cap s.ring.prod_tail (length bytes)

    abbrev committed_ring : ShmRing
    committed_ring = record s.ring { prod_tail = next }

    oldest-Inv : Inv cap (committed_system committed_ring ys)
    oldest-Inv = record {
      queue = inv.queue ++ bytes ∷ [];
      oldest = inv.oldest + 1;
      laid = record {
        exponent = inv.laid.exponent;
        power = inv.laid.power;
        small = inv.laid.small;
        masked = inv.laid.masked;
      };
      committed =
          subst (λ ss. Held cap s.ring.m_data s.ring.cons_head ss next)
            (sym (map-append written inv.queue (bytes ∷ [])))
            (Held-append cap s.ring.m_data s.ring.cons_head (map written inv.queue)
              (written bytes ∷ []) s.ring.prod_tail next inv.committed
              (oldest_slots.0, oldest_slots.1, refl));
      reserved = oldest_slots.2;
      room = inv.room;
      far = inv.far;
      tokens =
          subst (λ n. Consecutive cap (after cap s.ring.prod_tail n) (inv.oldest + 1) s.claimed ys)
            (ap (λ c. slot_size (slot_of f.token.size c)) full) oldest_tokens.3;
      taken = Holds-append cap s.ring.cons_head s.held inv.queue bytes inv.taken;
      in_order = Numbered-append 0 inv.oldest f.number s.sent bytes oldest_tokens.0 inv.in_order;
      history =
          bytes_of-append s.sent ((f.number, bytes) ∷ [])
          ∙ (ap (λ l. l ++ bytes ∷ []) inv.history
              ∙ append_assoc s.received inv.queue (bytes ∷ []));
    }

    committed_alone : {r : ShmRing} → commit s.ring f.token ≡ some r → committed_ring ≡ r
    committed_alone done =
        ap (λ q. record s.ring { prod_tail = q })
          (rw oldest_size (sym (ap (λ t. t.new_prod_head) oldest_tokens.1)))
        ∙ (commit_inversion s.ring f.token done).1

  -- A later reservation starts behind prod_tail.
  later_flight :
      (x : Flight) (xs : List Flight) {r : ShmRing}
      → s.flights ≡ (x ∷ xs) ++ f ∷ ys
      → commit s.ring f.token ≡ some r
      → ⊥
  later_flight x xs among done =
      let place : Stands cap s.ring.m_data f ys s.ring.prod_head s.ring.prod_tail inv.oldest
          s.claimed (x ∷ xs) =
        stands cap s.ring.m_data f ys s.ring.prod_head s.ring.prod_tail inv.oldest s.claimed
          (x ∷ xs) (rw among at inv.reserved) (rw among at inv.tokens) in
      omega (
        arith,
        (commit_inversion s.ring f.token done).0,
        ap (λ t. t.old_prod_head) place.tokens.1,
        after_lt cap s.ring.prod_tail (slot_size (slot x)),
        Held-le cap s.ring.m_data (after cap s.ring.prod_tail (slot_size (slot x))) (map slot xs)
            place.at place.before.2,
      )

  pub committing-Inv :
      (xs : List Flight) {r : ShmRing}
      → s.flights ≡ xs ++ f ∷ ys
      → f.content ≡ some bytes
      → commit s.ring f.token ≡ some r
      → Inv cap (committed_system r (xs ++ ys))
  committing-Inv [] first full done =
      subst (λ r. Inv cap (committed_system r ys)) (committed_alone first full done)
        (oldest-Inv first full)
  committing-Inv (x ∷ xs) among full done = absurd (later_flight x xs among done)
