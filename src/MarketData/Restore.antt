-- ===== src/MarketData/Restore.antt =====
-- src/MarketDataServer.cpp: the rounds of the server's loop, and its recovery from the snapshots of
-- the books and the journal. The sizes of the structures are parameters, as the compiler lays them
-- out.
use electronic_exchange_simu.Prelude.{
  ℕ, zero, suc, ◌*◌, ◌^◌, ltb, Option, none, some, List, [], ◌∷◌, if◌then◌else◌,
}
use electronic_exchange_simu.Wire.{OrderResponse, exec_new}
use electronic_exchange_simu.OrderBook.Snapshot.{OrderSnapshot}
use electronic_exchange_simu.Log.Files.{Disk}
use electronic_exchange_simu.Log.Reader.{MmapReader, LogRecord, seek, read_next}
use electronic_exchange_simu.Engine.MatchingEngine.{start_index}
use electronic_exchange_simu.MarketData.ServerBook.{ServerBook, update_book}
use electronic_exchange_simu.MarketData.Server.{
  MarketDataServer, set_book, get_or_create_book, update_server, process_market_update,
  check_l2_publish_timers,
}

-- What poll_server does with a record of the journal: `none` where it throws.
abbrev pub take_record :
    ℕ → MarketDataServer → Option (LogRecord OrderResponse) → Option (ℕ × MarketDataServer)
take_record response_size s none = some (0, s)
take_record response_size s (some rec) = elim rec.data_at [
  | none ↦ some (1, s)
  | some resp ↦
      if ltb rec.len response_size
      then some (1, s)
      else elim (process_market_update s resp) [ none ↦ none | some s1 ↦ some (1, s1) ]
]

-- MarketDataServer::poll_server at the time `now`.
unfoldable pub poll_market_data :
    ℕ
    → Disk OrderResponse
    → ℕ
    → ℕ
    → ℕ
    → MmapReader
    → MarketDataServer
    → Option (ℕ × MmapReader × MarketDataServer)
unfolding process_market_update check_l2_publish_timers
poll_market_data response_size d size fuel now reader s =
    let (found, reader') = read_next d size fuel reader in
    elim (take_record response_size s found) [
      | none ↦ none
      | some (has_task, s1) ↦ some (has_task, reader', check_l2_publish_timers now s1)
    ]

-- One record of a snapshot file.
abbrev pub load_book_record : ServerBook → OrderSnapshot → ServerBook
load_book_record b rec =
    update_book b exec_new rec.combined_order_id rec.side rec.p rec.qty_original rec.qty_remaining

unfoldable pub load_records : ServerBook → List OrderSnapshot → ServerBook
unfolding update_book
load_records b [] = b
load_records b (rec ∷ recs) = load_records (load_book_record b rec) recs

-- The files of the highest index, by the symbol that their names carry.
unfoldable pub load_book_files : MarketDataServer → List (ℕ × List OrderSnapshot) → MarketDataServer
unfolding load_records get_or_create_book
load_book_files s [] = s
load_book_files s ((symbol_id, recs) ∷ files) =
    let (b, s1) = get_or_create_book s symbol_id in
    load_book_files (set_book s1 symbol_id (load_records b recs)) files

-- What the replay does with a record of the journal.
unfoldable pub replay_market_record :
    ℕ → MarketDataServer → LogRecord OrderResponse → MarketDataServer
unfolding get_or_create_book update_server
replay_market_record response_size s rec = elim rec.data_at [
  | none ↦ s
  | some resp ↦
      if ltb rec.len response_size
      then s
      else update_server (get_or_create_book s resp.symbol_id).1 resp.symbol_id resp
]

-- `while (response_ring_->read_next(data, len))`, for at most `calls` calls.
unfoldable pub replay_market :
    ℕ
    → Disk OrderResponse
    → ℕ
    → ℕ
    → ℕ
    → MmapReader
    → MarketDataServer
    → MmapReader × MarketDataServer
unfolding replay_market_record
replay_market response_size d size fuel zero r s = (r, s)
replay_market response_size d size fuel (suc calls) r s =
    let (found, r') = read_next d size fuel r in
    elim found [
      | none ↦ (r', s)
      | some rec ↦
          replay_market response_size d size fuel calls r'
            (replay_market_record response_size s rec)
    ]

-- MarketDataServer::restore on a directory that exists; `latest` is the highest index of a snapshot
-- and `files` are the snapshots of that index.
unfoldable pub restore_server :
    ℕ
    → Option ℕ
    → List (ℕ × List OrderSnapshot)
    → Disk OrderResponse
    → ℕ
    → ℕ
    → ℕ
    → MmapReader
    → MarketDataServer
    → MmapReader × MarketDataServer
unfolding load_book_files replay_market
restore_server response_size latest files d size fuel calls r s =
    let loaded : MarketDataServer = elim latest [ none ↦ s | some i ↦ load_book_files s files ] in
    let r1 = (seek d size r (start_index latest * 2 ^ 32)).1 in
    replay_market response_size d size fuel calls r1 loaded
