-- ===== src/Engine/BySymbol.antt =====
-- The replay of the common journal is, for each symbol, the replay of its own records.
use electronic_exchange_simu.Prelude.{
  ℕ, zero, suc, ltb, ◌==◌, false, Option, none, some, List, [], ◌∷◌, ◌≡◌, refl, sym, ap, ◌∙◌, arith,
  if◌then◌else◌, Bool-cases, Option-cases, inl, inr, ==_iff,
}
use electronic_exchange_simu.Wire.{OrderResponse}
use electronic_exchange_simu.OrderBook.State.{OrderBook}
use electronic_exchange_simu.OrderBook.Snapshot.{restore_from_response}
use electronic_exchange_simu.Log.Files.{Disk}
use electronic_exchange_simu.Log.Reader.{MmapReader, LogRecord, read_next}
use electronic_exchange_simu.Log.Replay.{read_all, then_read}
use electronic_exchange_simu.Engine.MatchingEngine.{Books, on_book, replay_record, replay_loop}

-- What a record does to the book of a symbol.
abbrev pub own_record : ℕ → ℕ → OrderBook → LogRecord OrderResponse → OrderBook
own_record response_size s b rec = elim rec.data_at [
  | none ↦ b
  | some resp ↦
      if ltb rec.len response_size
      then b
      else if resp.symbol_id == s
      then restore_from_response b resp
      else b
]

abbrev pub own_replay : ℕ → ℕ → List (LogRecord OrderResponse) → OrderBook → OrderBook
own_replay response_size s [] b = b
own_replay response_size s (rec ∷ recs) b =
    own_replay response_size s recs (own_record response_size s b rec)

abbrev pub map_book : (OrderBook → OrderBook) → Option OrderBook → Option OrderBook
map_book f none = none
map_book f (some b) = some (f b)

on_book-other :
    (books : Books) (i s : ℕ) (f : OrderBook → OrderBook)
    → (i == s) ≡ false
    → on_book books i f s ≡ books s
on_book-other books i s f n = ground (arith, n)

on_book-own :
    (books : Books) (s : ℕ) (f : OrderBook → OrderBook) → on_book books s f s ≡ map_book f (books s)
on_book-own books s f = ground arith

map_book-id : (o : Option OrderBook) → map_book (λ b. b) o ≡ o
map_book-id none = refl
map_book-id (some b) = refl

map_book-map_book :
    (f g : OrderBook → OrderBook) (o : Option OrderBook)
    → map_book g (map_book f o) ≡ map_book (λ b. g (f b)) o
map_book-map_book f g none = refl
map_book-map_book f g (some b) = refl

-- A record on the book of a symbol.
replay_record-own :
    (size : ℕ) (books : Books) (rec : LogRecord OrderResponse) (s : ℕ)
    → replay_record size books rec s ≡ map_book (λ b. own_record size s b rec) (books s)
unfolding replay_record
replay_record-own size books rec s = elim (Option-cases rec.data_at) [
  | inl e ↦ rw e (sym (map_book-id (books s)))
  | inr (resp, e) ↦ elim (Bool-cases (ltb rec.len size)) [
    | inl short ↦ rw (e, short) (sym (map_book-id (books s)))
    | inr long ↦ elim (Bool-cases (resp.symbol_id == s)) [
      | inl own ↦
          rw (e, long, own)
            (ap (λ i. on_book books i (λ b. restore_from_response b resp) s)
                ((==_iff resp.symbol_id s).0 own)
              ∙ on_book-own books s (λ b. restore_from_response b resp))
      | inr other ↦
          rw (e, long, other)
            (on_book-other books resp.symbol_id s (λ b. restore_from_response b resp) other
              ∙ sym (map_book-id (books s)))
    ]
  ]
]

-- All records, one after the other.
abbrev pub replay_all : ℕ → List (LogRecord OrderResponse) → Books → Books
replay_all size [] books = books
replay_all size (rec ∷ recs) books = replay_all size recs (replay_record size books rec)

replay_all-own :
    (size : ℕ) (recs : List (LogRecord OrderResponse)) (books : Books) (s : ℕ)
    → replay_all size recs books s ≡ map_book (own_replay size s recs) (books s)
replay_all-own size [] books s = sym (map_book-id (books s))
replay_all-own size (rec ∷ recs) books s =
    replay_all-own size recs (replay_record size books rec) s
    ∙ ap (map_book (own_replay size s recs)) (replay_record-own size books rec s)
    ∙ map_book-map_book (λ b. own_record size s b rec) (own_replay size s recs) (books s)

replay_loop-all :
    (size : ℕ) (d : Disk OrderResponse) (file_size fuel calls : ℕ) (r : MmapReader) (books : Books)
    → replay_loop size d file_size fuel calls r books
      ≡ replay_all size (read_all d file_size fuel calls r) books
unfolding replay_loop
replay_loop-all size d file_size fuel zero r books = refl
replay_loop-all size d file_size fuel (suc calls) r books =
    found (read_next d file_size fuel r).0 λ rec.
      replay_loop-all size d file_size fuel calls (read_next d file_size fuel r).1
        (replay_record size books rec)
  where
    r' : MmapReader
    r' = (read_next d file_size fuel r).1

    found :
        (o : Option (LogRecord OrderResponse))
        → ((rec : LogRecord OrderResponse)
            → replay_loop size d file_size fuel calls r' (replay_record size books rec)
              ≡ replay_all size (read_all d file_size fuel calls r') (replay_record size books rec))
        → (elim o [
          | none ↦ books
          | some rec ↦ replay_loop size d file_size fuel calls r' (replay_record size books rec)
        ])
          ≡ replay_all size (then_read o (read_all d file_size fuel calls r')) books
    found none ih = refl
    found (some rec) ih = ih rec

-- The replay of the common journal is, for the book of each symbol, the replay in order of the
-- records that the reader gets with that symbol and with at least the size of a response; symbols
-- without a book stay without one.
pub replay_loop-own_replay :
    (size : ℕ) (d : Disk OrderResponse) (file_size fuel calls : ℕ) (r : MmapReader) (books : Books)
    (s : ℕ)
    → replay_loop size d file_size fuel calls r books s
      ≡ map_book (own_replay size s (read_all d file_size fuel calls r)) (books s)
replay_loop-own_replay size d file_size fuel calls r books s =
    ap (λ f. f s) (replay_loop-all size d file_size fuel calls r books)
    ∙ replay_all-own size (read_all d file_size fuel calls r) books s
