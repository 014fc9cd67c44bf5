-- ===== src/Engine/MatchingEngine.antt =====
-- src/MatchingEngine.cpp. The sizes of the two structures are parameters, as the compiler lays them
-- out; the slot that the request ring hands over is an argument of poll_server.
use electronic_exchange_simu.Prelude.{
  ℕ, zero, suc, ◌-◌, ◌*◌, ◌^◌, ltb, ◌==◌, ◌&&◌, Bool, Option, none, some, List, if◌then◌else◌,
  update,
}
use electronic_exchange_simu.Wire.{OrderRequest, OrderResponse}
use electronic_exchange_simu.OrderBook.State.{OrderBook}
use electronic_exchange_simu.OrderBook.Handlers.{process_request}
use electronic_exchange_simu.OrderBook.Snapshot.{
  OrderSnapshot, take_snapshot, load_snapshot, restore_from_response,
}
use electronic_exchange_simu.Log.Files.{Disk}
use electronic_exchange_simu.Log.Reader.{MmapReader, LogRecord, open_reader, seek, read_next}

-- `books_`, by symbol.
abbrev pub Books : Type 0
Books = ℕ → Option OrderBook

-- The snapshot files, by symbol and file index.
abbrev pub Snapshots : Type 0
Snapshots = ℕ → ℕ → Option (List OrderSnapshot)

pub record RequestSlot : Type 0 where
  pub size : ℕ
  pub payload : OrderRequest

-- `it->second->…` where the symbol has a book.
abbrev pub on_book : Books → ℕ → (OrderBook → OrderBook) → Books
on_book books symbol_id f = elim (books symbol_id) [
  | none ↦ books
  | some b ↦ update books symbol_id (some (f b))
]

unfoldable pub poll_server : ℕ → Books → Option RequestSlot → ℕ × Books
poll_server request_size books none = (0, books)
poll_server request_size books (some slot) =
    if ltb slot.size request_size
    then (0, books)
    else (1, on_book books slot.payload.symbol_id (λ b. process_request b slot.payload))

-- MatchingEngine::take_snapshot, which removes the snapshot before.
unfoldable pub take_snapshots : Books → ℕ → Snapshots → Snapshots
take_snapshots books file_index snapshots sid i = elim (books sid) [
  | none ↦ snapshots sid i
  | some b ↦
      if i == file_index
      then some (take_snapshot b)
      else if ltb 0 file_index && (i == file_index - 1)
      then none
      else snapshots sid i
]

-- A snapshot file that is not there loads nothing.
abbrev pub load_file : OrderBook → Option (List OrderSnapshot) → OrderBook
load_file b none = b
load_file b (some recs) = load_snapshot b recs

unfoldable pub load_snapshots : Books → ℕ → Snapshots → Books
load_snapshots books file_index snapshots sid = elim (books sid) [
  | none ↦ none
  | some b ↦ some (load_file b (snapshots sid file_index))
]

-- What one record of the journal does: a record that is too short, or whose payload is not there,
-- is passed over.
unfoldable pub replay_record : ℕ → Books → LogRecord OrderResponse → Books
replay_record response_size books rec = elim rec.data_at [
  | none ↦ books
  | some resp ↦
      if ltb rec.len response_size
      then books
      else on_book books resp.symbol_id (λ b. restore_from_response b resp)
]

-- `while (reader.read_next(data, len))`, for at most `calls` calls.
unfoldable pub replay_loop : ℕ → Disk OrderResponse → ℕ → ℕ → ℕ → MmapReader → Books → Books
unfolding replay_record
replay_loop response_size d size fuel zero r books = books
replay_loop response_size d size fuel (suc calls) r books =
    let (found, r') = read_next d size fuel r in
    elim found [
      | none ↦ books
      | some rec ↦
          replay_loop response_size d size fuel calls r' (replay_record response_size books rec)
    ]

-- The index of the first journal file after the latest snapshot.
abbrev pub start_index : Option ℕ → ℕ
start_index none = 0
start_index (some i) = suc i

-- MatchingEngine::restore on a directory that exists; `latest` is the highest index of a snapshot.
unfoldable pub restore : ℕ → Books → Option ℕ → Snapshots → Disk OrderResponse → ℕ → ℕ → ℕ → Books
unfolding load_snapshots replay_loop
restore response_size books latest snapshots d size fuel calls =
    let loaded : Books = elim latest [ none ↦ books | some i ↦ load_snapshots books i snapshots ] in
    let r0 : MmapReader = record {
      current_file_index = 0;
      mapped = Bool.false;
      current_offset = 0;
    } in
    let r1 = (seek d size (open_reader d size r0 0) (start_index latest * 2 ^ 32)).1 in
    replay_loop response_size d size fuel calls r1 loaded
