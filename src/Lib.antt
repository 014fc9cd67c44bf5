-- ===== src/Lib.antt =====
-- A model of the electronic exchange simulator, with proofs.
--
-- The program takes orders from clients through a gateway (the client manager), hands them over a
-- shared-memory ring to the matching engine, which keeps one order book per symbol and writes its
-- responses to a memory-mapped log; the market-data server and the client manager read that log.
-- This library models these parts: the order book with its journal, its snapshots and its recovery
-- (src/OrderBook.cpp, include/service/OrderBook.hpp, include/service/Order.hpp,
-- include/service/Snapshot.hpp), the messages that go in and out (fbs/exchange.fbs), the ring and
-- the log, the matching engine around the books, the market-data server with the books that its
-- data is made of, the client manager with its sessions, and the positions and open orders that
-- server and client keep.
--
-- Which file models what:
--   * Wire: the enumerations and the tables OrderRequest and OrderResponse of fbs/exchange.fbs.
--     `visible_qty` of OrderRequest, which clients set and the manager copies and no code reads, is
--     left out. An action outside the enumeration, which the default case of processRequest answers,
--     is `other_action`.
--   * OrderBook/State: struct Order, struct PriceLevel, the members of class OrderBook and its
--     constructor, createOrder, and the ids (client_id << 32 | order_id).
--   * OrderBook/Price: price_to_index, pl_to_price, price_invalid.
--   * OrderBook/Response: sendResponse.
--   * OrderBook/Levels: insertOrderToLevel, removeOrderFromLevel, removePriceLevel,
--     GetOrCreatePriceLevel.
--   * OrderBook/Match: match. `match_level` is its inner loop, `match_step` one round of its outer
--     loop, `match_loop` the outer loop, `finish_match` what follows the loop.
--   * OrderBook/Handlers: handleNewOrder, handleCancelOrder, handleModifyOrder, processRequest.
--   * OrderBook/Snapshot: take_snapshot, load_snapshot, restore_from_response.
--   * Log/Files, Log/Writer, Log/Reader: src/mmap_log.cpp and include/ipc/mmap_log.h, the log that
--     the responses are written to, with its roll-over from file to file.
--   * Ring/Memory, Ring/Shm: src/SHMRingBuffer.cpp and include/ipc/SHMRingBuffer.hpp, the ring that
--     the requests go through, on its bytes. `claim` is one round of the loop of reserve and what
--     follows it, `fill` the producer's write. Ring/System: producers and a consumer over one ring,
--     in any interleaving.
--   * Engine/MatchingEngine: src/MatchingEngine.cpp, the books of all symbols over one journal.
--     The slot that the ring hands over, the sizes of the structures, and the highest snapshot
--     index that the directory holds are arguments; `calls` bounds the calls of read_next.
--     Engine/Serving: poll_server over the ring, with the layout of a request as an argument, and
--     its acquire, the lines after it and its release as turns of their own, between which
--     producers take theirs.
--   * Feed/L3Book: src/L3Book.cpp and include/client/L3Book.hpp. Feed/MdOrderBook:
--     include/service/MDOrderBook.hpp, the L3 book of the server with the level totals that are to be
--     published. Feed/L2Book: include/client/L2Book.hpp, the book that a client makes of them.
--   * Accounts/ClientAccount: include/client/ClientAccount.hpp. Accounts/ClientDatabase:
--     include/database/InMemoryClientDatabase.hpp with the classes of executions of
--     include/define.hpp; both process the responses of the order book.
--   * MarketData/ServerBook, Server, Snapshots, Subscriptions, Restore: src/MarketDataServer.cpp and
--     include/service/MarketDataServer.hpp: crosses and the book of a symbol; __update,
--     process_market_update and the publications; send_top_of_book, send_l2_snapshot and
--     send_l3_snapshot; handle_market_data_request and the close handler; poll_server and restore.
--   * Clients/CmClient: src/CMClient.cpp and include/service/CMClient.hpp. Clients/Manager,
--     Clients/Requests: src/ClientManager.cpp and include/service/ClientManager.hpp:
--     handle_client_logon and handle_client_logout; process_client_request,
--     handle_execution_response and poll_server. getResponsesSince and getOpenOrders of
--     include/database/InMemoryClientDatabase.hpp stand with them. Clients/OrderEntry:
--     src/OrderEntryClient.cpp with include/client/OrderEntryClient.hpp, the client's end, and
--     validate_price of src/TradingClientBase.cpp.
-- The other modules hold proofs, each named for what it proves, and the modules Samples and Tests
-- the sample book and the tests. Prelude holds what the modules share.
--
-- How the state corresponds. A member function is a function from an OrderBook to an OrderBook. The
-- intrusive list of a level, from dummy_head to dummy_tail, is the list of its orders by value, so a
-- pointer to an order is the index of its level with its id, and `active_orders` maps an id to that
-- index. A pointer to a level is an index into `price_array`, nullptr is `none`; the std::map
-- active_levels_ is the ascending list of its keys, as its values are the levels at these indices.
-- Orders of one level are told apart by their ids, where the program follows a pointer. The order
-- that is matched, the taker, is in no level meanwhile. The response ring is the list of the records
-- committed to it, newest first, and `gen` the numbers that the random generator is yet to draw.
--
-- Numbers. Quantities and counts are natural numbers; where the program adds to or subtracts from
-- a uint64_t counter, `add64` and `sub64` write the wrap-around out. Prices, their offsets,
-- positions and cash are integers without a width. The program computes them in int64_t, where an
-- overflow is undefined behaviour, so these are taken to fit int64_t: a price times the step, the
-- offset of the prices plus the number of levels, a price times a quantity, and the sums in
-- positions and cash. The conversion to size_t in price_to_index and that of a quantity to int64_t
-- in both records of positions, which makes one of 2^63 and more negative, are written out.
-- `price_array` is total, so an index past its size, which is undefined behaviour in the program,
-- is a level like the others in the model.
--
-- An L3 book keeps its queues as lists of numbered nodes, since an iterator into a std::list stays
-- with its node; the virtual on_level_updated is the list of its calls. An unordered map from prices
-- is the list of its entries in the order of its iteration. A log file is its headers and payloads
-- by offset, 0 where nothing was written, since ftruncate fills with zeros; one thread runs at a
-- time, and the memory orders of the atomics are not modelled.
--
-- The ring is its header and a function from offsets to bytes. Its producers and its consumer take
-- turns: a reservation takes effect with its exchange of prod_head, where the consumer's head that it
-- has loaded may be an older one, a commit with its store of prod_tail; what is written between is a
-- step of its own. The wait of commit, and of a process that attaches, is an answer of its own. The
-- theorems take the capacity for a power of 2, as the code does, and positions for less than 2^64.
--
-- The server's and the client's connections are numbers, the messages that were sent a list,
-- newest first, with their receivers. A std::map of levels is the function of the L3 book with the
-- list of its keys, which stands for the order that the map iterates in: `touch` and
-- `touch_calls`, which keep it, are no code of the program but what std::map and its comparator
-- do. Objects behind a shared_ptr (sessions, books) are entries of a store that their address, or
-- the symbol, leads to, so two client ids can name one session, as in the program. An exception is
-- the answer `none`, as is a request whose commit would wait.
--
-- Fuel. The outer loop of match is recursion on fuel, with one more than the number of levels of the
-- other side: each round but the last uses up the taker or removes a level. read_next of the log is
-- recursion on fuel, one more than the files that are left; the search of a restarting writer for
-- the end of its file has the size of the file as fuel, as each round passes a header.
--
-- Not modelled: files and segments that cannot be opened, tracing probes, dump_raw and other output,
-- the search of a directory for snapshots, the encoding of messages, and the parts of the program
-- outside these files: the worker's loop, the SQL and CSV databases, the network layer and the
-- applications, which are input and output through libraries.
pub mod Prelude
pub mod Wire
pub mod OrderBook
pub mod Log
pub mod Ring
pub mod Engine
pub mod Feed
pub mod MarketData
pub mod Accounts
pub mod Clients
