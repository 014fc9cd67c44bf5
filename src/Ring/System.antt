-- ===== src/Ring/System.antt =====
-- src/SHMRingBuffer.cpp: producers and one consumer over one ring, interleaved in any order. A
-- producer's reserve takes effect with its exchange of prod_head, its commit with its store of
-- prod_tail; the consumer's head that a producer has loaded may be an older one.
use electronic_exchange_simu.Prelude.{
  ℕ, ◌+◌, ◌*◌, ◌^◌, ◌≤◌, ◌<◌, ◌≡◌, Option, some, none, List, [], ◌∷◌, ◌++◌, length,
}
use electronic_exchange_simu.Ring.Memory.{read}
use electronic_exchange_simu.Ring.Shm.{
  ShmRing, ReserveToken, AcquireToken, create, claim, fill, commit, acquire, release,
}
use electronic_exchange_simu.Ring.Held.{Bytes}

-- A reservation that is not committed, by its number in the order of reservation, with what its
-- producer has written to the slot.
pub record Flight : Type 0 where
  pub number : ℕ
  pub token : ReserveToken
  pub content : Option Bytes

-- The ring, and what has happened: `claimed` counts the reservations, `sent` holds the messages
-- that are committed and `received` those that the consumer has read and released.
pub record System : Type 0 where
  pub ring : ShmRing
  pub flights : List Flight
  pub held : Option AcquireToken
  pub claimed : ℕ
  pub sent : List (ℕ × Bytes)
  pub received : List Bytes

abbrev pub take_slot : System → Option AcquireToken × ShmRing → System
take_slot s (held, ring) = record s { ring = ring; held = held }

pub data Step (cap : ℕ) (s : System) : System → Type 0 where
  reserving :
      (seen n : ℕ) {t : ReserveToken} {r : ShmRing}
      → seen ≤ s.ring.cons_head
      → n + 4 < 2 ^ 64
      → s.ring.prod_head + 2 * cap < 2 ^ 64
      → claim cap s.ring seen n ≡ some (t, r)
      → Step cap s (record s {
        ring = r;
        flights = s.flights ++ record { number = s.claimed; token = t; content = none } ∷ [];
        claimed = s.claimed + 1;
      })
  filling :
      (xs : List Flight) (f : Flight) (ys : List Flight) (bytes : Bytes)
      → s.flights ≡ xs ++ f ∷ ys
      → length bytes ≡ f.token.size
      → Step cap s (record s {
        ring = fill s.ring f.token bytes;
        flights = xs ++ record f { content = some bytes } ∷ ys;
      })
  committing :
      (xs : List Flight) (f : Flight) (ys : List Flight) (bytes : Bytes) {r : ShmRing}
      → s.flights ≡ xs ++ f ∷ ys
      → f.content ≡ some bytes
      → commit s.ring f.token ≡ some r
      → Step cap s
          (record s { ring = r; flights = xs ++ ys; sent = s.sent ++ (f.number, bytes) ∷ [] })
  acquiring : s.held ≡ none → Step cap s (take_slot s (acquire cap s.ring))
  releasing :
      (t : AcquireToken)
      → s.held ≡ some t
      → Step cap s (record s {
        ring = release s.ring t;
        held = none;
        received = s.received ++ read s.ring.m_data t.payload t.size ∷ [];
      })

abbrev pub started : ℕ → System
started cap = record {
  ring = create cap;
  flights = [];
  held = none;
  claimed = 0;
  sent = [];
  received = [];
}

pub data Reach (cap : ℕ) : System → Type 0 where
  start : Reach cap (started cap)
  later : {s t : System} → Reach cap s → Step cap s t → Reach cap t
