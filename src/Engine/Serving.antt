-- ===== src/Engine/Serving.antt =====
-- src/MatchingEngine.cpp over src/SHMRingBuffer.cpp: the engine that polls the request ring while
-- producers fill it. The layout of a request in the ring is the parameter `decode`.
use electronic_exchange_simu.Prelude.{
  ℕ, ◌≡◌, Bool, true, false, Option, none, some, List, [], ◌∷◌, ◌++◌, length, ltb, if◌then◌else◌,
}
use electronic_exchange_simu.Wire.{OrderRequest}
use electronic_exchange_simu.OrderBook.Handlers.{process_request}
use electronic_exchange_simu.Ring.Memory.{read}
use electronic_exchange_simu.Ring.Held.{Bytes}
use electronic_exchange_simu.Ring.Shm.{ShmRing, AcquireToken, acquire, release}
use electronic_exchange_simu.Ring.System.{System, Step, started, take_slot}
use electronic_exchange_simu.Engine.MatchingEngine.{Books, RequestSlot, on_book, poll_server}

-- The engine between the calls of poll_server, or inside one: `processed` says that the request in
-- the slot that it holds has taken effect on the books.
pub record Engine : Type 0 where
  pub system : System
  pub books : Books
  pub processed : Bool

module _ (cap request_size : ℕ) (decode : Bytes → OrderRequest) where
  abbrev pub slot_at : ShmRing → AcquireToken → RequestSlot
  slot_at r t = record { size = t.size; payload = decode (read r.m_data t.payload t.size) }

  -- The lines of poll_server between acquire and release.
  abbrev pub serve_slot : ShmRing → AcquireToken → Books → ℕ × Books
  serve_slot r t books = poll_server request_size books (some (slot_at r t))

  -- MatchingEngine::poll_server with nothing in between.
  abbrev pub poll_slot : Books → Option AcquireToken × ShmRing → ℕ × ShmRing × Books
  poll_slot books (none, r) = (0, r, books)
  poll_slot books (some t, r) =
      let (has_task, books') = serve_slot r t books in (has_task, release r t, books')

  unfoldable pub poll_ring : ShmRing → Books → ℕ × ShmRing × Books
  unfolding poll_server
  poll_ring r books = poll_slot books (acquire cap r)

  -- What a message does to the books: one that is long enough is a request that the book of its
  -- symbol processes.
  abbrev pub after_message : Books → Bytes → Books
  after_message books bytes =
      if ltb (length bytes) request_size
      then books
      else on_book books (decode bytes).symbol_id (λ b. process_request b (decode bytes))

  abbrev pub after_all : Books → List Bytes → Books
  after_all books [] = books
  after_all books (b ∷ bs) = after_all (after_message books b) bs

  abbrev pub released : System → AcquireToken → System
  released s t = record s {
    ring = release s.ring t;
    held = none;
    received = s.received ++ read s.ring.m_data t.payload t.size ∷ [];
  }

  -- The steps of producers, and those of the engine's calls of poll_server: it acquires a slot, the
  -- request in it takes effect, and it releases the slot.
  pub data Turn (e : Engine) : Engine → Type 0 where
    producing :
        {t : System}
        → Step cap e.system t
        → t.held ≡ e.system.held
        → t.received ≡ e.system.received
        → Turn e (record e { system = t })
    acquiring_slot :
        e.system.held ≡ none
        → Turn e (record e { system = take_slot e.system (acquire cap e.system.ring) })
    processing :
        (t : AcquireToken)
        → e.system.held ≡ some t
        → e.processed ≡ false
        → Turn e (record e { books = (serve_slot e.system.ring t e.books).1; processed = true })
    releasing_slot :
        (t : AcquireToken)
        → e.system.held ≡ some t
        → e.processed ≡ true
        → Turn e (record e { system = released e.system t; processed = false })

  pub data Served (initial : Books) : Engine → Type 0 where
    begin : Served initial (record { system = started cap; books = initial; processed = false })
    then_turn : {e f : Engine} → Served initial e → Turn e f → Served initial f
