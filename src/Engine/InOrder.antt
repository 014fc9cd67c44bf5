-- ===== src/Engine/InOrder.antt =====
-- src/MatchingEngine.cpp over src/SHMRingBuffer.cpp: the requests take effect in the order in which
-- they were committed.
use electronic_exchange_simu.Prelude.{
  ℕ, zero, suc, ◌+◌, ◌^◌, ◌≤◌, ◌≡◌, refl, sym, ap, ◌∙◌, subst, Bool, true, false, List, [], ◌∷◌,
  ◌++◌, length, ltb, if◌then◌else◌,
}
use mathlib.Core.List.{append-nil, append_assoc}
use electronic_exchange_simu.Wire.{OrderRequest}
use electronic_exchange_simu.OrderBook.Handlers.{process_request}
use electronic_exchange_simu.Ring.Memory.{read}
use electronic_exchange_simu.Ring.Held.{Bytes}
use electronic_exchange_simu.Ring.Shm.{ShmRing, AcquireToken}
use electronic_exchange_simu.Ring.System.{
  System, Step, Step.reserving, Step.filling, Step.committing, Step.acquiring, Step.releasing,
  Reach, Reach.start, Reach.later,
}
use electronic_exchange_simu.Ring.Order.{bytes_of}
use electronic_exchange_simu.Ring.Traces.{received_in_order, held-oldest, Carries}
use electronic_exchange_simu.Engine.MatchingEngine.{Books, on_book, poll_server}
use electronic_exchange_simu.Engine.Serving.{
  Engine, serve_slot, after_message, after_all, Turn, Turn.producing, Turn.acquiring_slot,
  Turn.processing, Turn.releasing_slot, Served, Served.begin, Served.then_turn,
}

module _ (cap request_size : ℕ) (decode : Bytes → OrderRequest) where
  length-read : (m : ℕ → ℕ) (o n : ℕ) → length (read m o n) ≡ n
  unfolding read
  length-read m o zero = refl
  length-read m o (suc n) = ap suc (length-read m (o + 1) n)

  after_all-append :
      (books : Books) (xs : List Bytes) (x : Bytes)
      → after_all cap request_size decode books (xs ++ x ∷ [])
        ≡ after_message cap request_size decode (after_all cap request_size decode books xs) x
  after_all-append books [] x = refl
  after_all-append books (y ∷ xs) x =
      after_all-append (after_message cap request_size decode books y) xs x

  -- The books after the slot are those after its message.
  serve_slot-after_message :
      (r : ShmRing) (t : AcquireToken) (books : Books)
      → (serve_slot cap request_size decode r t books).1
        ≡ after_message cap request_size decode books (read r.m_data t.payload t.size)
  unfolding poll_server
  serve_slot-after_message r t books = rw (length-read r.m_data t.payload t.size) (
      pick (ltb t.size request_size) books (
        on_book books (decode (read r.m_data t.payload t.size)).symbol_id
          (λ b. process_request b (decode (read r.m_data t.payload t.size)))))
    where
      pick :
          (short : Bool) (x y : Books)
          → (let out : ℕ × Books = if short then (0, x) else (1, y) in out.1)
            ≡ (if short then x else y)
      pick true x y = refl
      pick false x y = refl

  bytes_of-append :
      (xs : List (ℕ × Bytes)) (n : ℕ) (bytes : Bytes)
      → bytes_of (xs ++ (n, bytes) ∷ []) ≡ bytes_of xs ++ bytes ∷ []
  bytes_of-append [] n bytes = refl
  bytes_of-append ((k, x) ∷ xs) n bytes = ap (λ l. x ∷ l) (bytes_of-append xs n bytes)

  abbrev Grows : System → System → Type 0
  Grows s t = (more : List Bytes) × (bytes_of t.sent ≡ bytes_of s.sent ++ more)

  -- A step appends to what was sent.
  Step-Grows : {s t : System} → Step cap s t → Grows s t
  Step-Grows {s} (reserving seen n old small far e) = ([], sym (append-nil (bytes_of s.sent)))
  Step-Grows {s} (filling xs f ys bytes e sized) = ([], sym (append-nil (bytes_of s.sent)))
  Step-Grows {s} (committing xs f ys bytes e full done) =
      (bytes ∷ [], bytes_of-append s.sent f.number bytes)
  Step-Grows {s} (acquiring e) = ([], sym (append-nil (bytes_of s.sent)))
  Step-Grows {s} (releasing t e) = ([], sym (append-nil (bytes_of s.sent)))

  same_first :
      (xs : List Bytes) (a b : Bytes) (ys zs : List Bytes) → xs ++ a ∷ ys ≡ xs ++ b ∷ zs → a ≡ b
  same_first [] a b ys zs e = ap (first_or a) e
    where
      first_or : Bytes → List Bytes → Bytes
      first_or z [] = z
      first_or z (x ∷ l) = x
  same_first (x ∷ xs) a b ys zs e = same_first xs a b ys zs (ap rest_of e)
    where
      rest_of : List Bytes → List Bytes
      rest_of [] = []
      rest_of (y ∷ l) = l

  -- The books are those after the messages that are released, and after the oldest of the others if
  -- it has taken effect.
  abbrev Applied : Books → System → Books → Bool → Type 0
  Applied initial s books false = books ≡ after_all cap request_size decode initial s.received
  Applied initial s books true =
      (bytes : Bytes) × (rest : List Bytes) × (bytes_of s.sent ≡ s.received ++ bytes ∷ rest)
      × (books ≡ after_all cap request_size decode initial (s.received ++ bytes ∷ []))

  record Keeps (initial : Books) (e : Engine) : Type 0 where
    reached : Reach cap e.system
    applied : Applied initial e.system e.books e.processed

  produced :
      (initial : Books) (s t : System) (books : Books) (processed : Bool)
      → Grows s t
      → t.received ≡ s.received
      → Applied initial s books processed
      → Applied initial t books processed
  produced initial s t books false grown same h =
      h ∙ ap (after_all cap request_size decode initial) (sym same)
  produced initial s t books true (more, e) same (bytes, rest, sent, h) = (
    bytes,
    rest ++ more,
    e
        ∙ (ap (λ l. l ++ more) sent
            ∙ (append_assoc s.received (bytes ∷ rest) more
                ∙ ap (λ l. l ++ bytes ∷ (rest ++ more)) (sym same))),
    h ∙ ap (λ l. after_all cap request_size decode initial (l ++ bytes ∷ [])) (sym same),
  )

  module _ (k : ℕ) (power : cap ≡ 2 ^ k) (small : cap ≤ 2 ^ 32) (initial : Books) where
    processed_now :
        (s : System) (t : AcquireToken) (books : Books)
        → Carries cap k power small s t
        → books ≡ after_all cap request_size decode initial s.received
        → Applied initial s (serve_slot cap request_size decode s.ring t books).1 true
    processed_now s t books (bytes, rest, sent, same) h = (
      bytes,
      rest,
      sent,
      serve_slot-after_message s.ring t books
          ∙ (ap (after_message cap request_size decode books) same
              ∙ (ap (λ b. after_message cap request_size decode b bytes) h
                  ∙ sym (after_all-append initial s.received bytes))),
    )

    released_now :
        (s : System) (t : AcquireToken) (books : Books)
        → Carries cap k power small s t
        → Applied initial s books true
        → books
          ≡ after_all cap request_size decode initial
              (s.received ++ read s.ring.m_data t.payload t.size ∷ [])
    released_now s t books (bytes, rest, sent, same) (bytes', rest', sent', h) =
        h
        ∙ ap (λ b. after_all cap request_size decode initial (s.received ++ b ∷ []))
            (same_first s.received bytes' bytes rest' rest (sym sent' ∙ sent) ∙ sym same)

    Turn-Keeps :
        (e f : Engine) → Keeps initial e → Turn cap request_size decode e f → Keeps initial f
    Turn-Keeps e f h (producing step held received) = record {
      reached = later h.reached step;
      applied =
          produced initial e.system f.system e.books e.processed (Step-Grows step) received
            h.applied;
    }
    Turn-Keeps e f h (acquiring_slot free) = record {
      reached = later h.reached (acquiring free);
      applied =
          produced initial e.system f.system e.books e.processed
            (Step-Grows {s = e.system} (acquiring free)) refl h.applied;
    }
    Turn-Keeps e f h (processing t held fresh) = record {
      reached = h.reached;
      applied =
          processed_now e.system t e.books (held-oldest cap k power small e.system t h.reached held)
            (subst (λ b. Applied initial e.system e.books b) fresh h.applied);
    }
    Turn-Keeps e f h (releasing_slot t held done) = record {
      reached = later h.reached (releasing t held);
      applied =
          released_now e.system t e.books (held-oldest cap k power small e.system t h.reached held)
            (subst (λ b. Applied initial e.system e.books b) done h.applied);
    }

    Served-Keeps : (e : Engine) → Served cap request_size decode initial e → Keeps initial e
    Served-Keeps e begin = record { reached = start; applied = refl }
    Served-Keeps e (then_turn {e = d} before turn) = Turn-Keeps d e (Served-Keeps d before) turn

    abbrev pub oldest_of : List Bytes → List Bytes
    oldest_of [] = []
    oldest_of (bytes ∷ rest) = bytes ∷ []

    pub record InOrder (e : Engine) : Type 0 where
      pub queue : List Bytes
      pub history : bytes_of e.system.sent ≡ e.system.received ++ queue
      pub effect :
          e.books
          ≡ after_all cap request_size decode initial
              (e.system.received ++ (if e.processed then oldest_of queue else []))

    InOrder-from :
        (s : System) (books : Books) (processed : Bool)
        → ((queue : List Bytes) × (bytes_of s.sent ≡ s.received ++ queue))
        → Applied initial s books processed
        → InOrder (record { system = s; books = books; processed = processed })
    InOrder-from s books false (queue, history) h = record {
      queue = queue;
      history = history;
      effect = h ∙ ap (after_all cap request_size decode initial) (sym (append-nil s.received));
    }
    InOrder-from s books true before (bytes, rest, sent, h) = record {
      queue = bytes ∷ rest;
      history = sent;
      effect = h;
    }

    -- The messages that the engine has released are, byte for byte, a first part of those that were
    -- committed, and its books are what these messages make of the books at the start, each once
    -- and in that order, with the oldest message that is not released once more where its request
    -- has taken effect already. This is so at every point of any interleaving of the producers'
    -- steps with the acquires, the effects and the releases of the engine's loop. A message that is
    -- shorter than a request changes no book. The capacity is a power of 2 and at most 2^32, and
    -- the run starts with a new ring.
    pub requests-InOrder : (e : Engine) → Served cap request_size decode initial e → InOrder e
    requests-InOrder e run =
        let h = Served-Keeps e run in
        InOrder-from e.system e.books e.processed
          (received_in_order cap k power small e.system h.reached).1 h.applied
