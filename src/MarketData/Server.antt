-- ===== src/MarketData/Server.antt =====
-- src/MarketDataServer.cpp: the state of the server, its subscriptions and what it publishes. A
-- client is the number of its MDClient object; a set of clients is the list of its members in the
-- order of an iteration, and `sent` the messages that were sent, newest first.
use electronic_exchange_simu.Prelude.{
  ℕ, ltb, ◌==◌, ◌&&◌, ◌||◌, not, Bool, true, false, Option, none, some, List, [], ◌∷◌,
  if◌then◌else◌, add64, sub64,
}
use electronic_exchange_simu.Prelude.Int.{ℤ}
use electronic_exchange_simu.Wire.{
  Side, ExecType, exec_new, partial_fill, rejected, cancelled, replaced, OrderResponse,
}
use electronic_exchange_simu.OrderBook.State.{combined_order_id}
use electronic_exchange_simu.Accounts.ClientDatabase.{is_alive, is_ann}
use electronic_exchange_simu.Feed.L2Book.{L2Update}
use electronic_exchange_simu.Feed.L3Book.{is_replaced}
use electronic_exchange_simu.Feed.MdOrderBook.{extract_pending_l2_updates}
use electronic_exchange_simu.MarketData.ServerBook.{ServerBook, new_book, update_book, crosses}

pub data MdType : Type 0 where
  l1 l2 l3 : MdType

-- The table L3Update of fbs/exchange.fbs.
pub record L3Update : Type 0 where
  pub exec_type : ExecType
  pub order_id : ℕ
  pub side : Side
  pub p : ℤ
  pub q : ℕ
  pub q_rem : ℕ

pub data MdMessage : Type 0 where
  l2_batch : ℕ → ℕ → ℕ → List L2Update → MdMessage
  l3_batch : ℕ → ℕ → ℕ → List L3Update → MdMessage

pub record MarketDataServer : Type 0 where
  -- in the order of the symbols
  pub books : List (ℕ × ServerBook)
  pub l1_clients : ℕ → List ℕ
  pub l2_clients : ℕ → List ℕ
  pub l3_clients : ℕ → List ℕ
  -- MDClient::subs_ of each client
  pub subs : ℕ → List (MdType × ℕ)
  pub sent : List (ℕ × MdMessage)

unfoldable pub find_book : ℕ → List (ℕ × ServerBook) → Option ServerBook
find_book k [] = none
find_book k ((j, b) ∷ m) = if j == k then some b else find_book k m

unfoldable pub put_book : ℕ → ServerBook → List (ℕ × ServerBook) → List (ℕ × ServerBook)
put_book k b [] = (k, b) ∷ []
put_book k b ((j, c) ∷ m) =
    if j == k then (k, b) ∷ m else if ltb k j then (k, b) ∷ (j, c) ∷ m else (j, c) ∷ put_book k b m

abbrev pub set_book : MarketDataServer → ℕ → ServerBook → MarketDataServer
set_book s symbol_id b = record s { books = put_book symbol_id b s.books }

-- The book that get_or_create_book finds, or makes.
abbrev pub book_or_new : Option ServerBook → ServerBook
book_or_new none = new_book
book_or_new (some b) = b

abbrev pub book_of : MarketDataServer → ℕ → ServerBook
book_of s symbol_id = book_or_new (find_book symbol_id s.books)

unfoldable pub get_or_create_book : MarketDataServer → ℕ → ServerBook × MarketDataServer
unfolding find_book put_book
get_or_create_book s symbol_id = let b = book_of s symbol_id in (b, set_book s symbol_id b)

-- `client->send(...)` to each client in turn.
abbrev pub send_each : MdMessage → List ℕ → List (ℕ × MdMessage) → List (ℕ × MdMessage)
send_each m [] sent = sent
send_each m (c ∷ cs) sent = send_each m cs ((c, m) ∷ sent)

unfoldable pub publish_l3_update : MarketDataServer → ℕ → L3Update → ℕ → ℕ → MarketDataServer
publish_l3_update s symbol_id u msg_seq_num timestamp = record s {
  sent =
      send_each (l3_batch symbol_id msg_seq_num timestamp (u ∷ [])) (s.l3_clients symbol_id) s.sent;
}

unfoldable pub publish_l2_update : MarketDataServer → ℕ → List L2Update → ℕ → ℕ → MarketDataServer
publish_l2_update s symbol_id [] msg_seq_num timestamp = s
publish_l2_update s symbol_id (u ∷ us) msg_seq_num timestamp = record s {
  sent =
      send_each (l2_batch symbol_id msg_seq_num timestamp (u ∷ us)) (s.l2_clients symbol_id) s.sent;
}

-- The book after an update, with its next sequence number.
unfoldable pub updated : ServerBook → OrderResponse → ServerBook
unfolding update_book
updated b r =
    let b1 =
      update_book b r.exec_type (combined_order_id r.client_id r.order_id) r.side r.p r.q r.q_rem in
    record b1 { md = record b1.md { md_seq_num = add64 b1.md.md_seq_num 1 } }

abbrev pub l3_update_of : OrderResponse → L3Update
l3_update_of r = record {
  exec_type = r.exec_type;
  order_id = combined_order_id r.client_id r.order_id;
  side = r.side;
  p = r.p;
  q = r.q;
  q_rem = r.q_rem;
}

-- MarketDataServer::__update, on the book of `symbol_id`.
unfoldable pub update_server : MarketDataServer → ℕ → OrderResponse → MarketDataServer
unfolding updated publish_l3_update
update_server s symbol_id r =
    let b = updated (book_of s symbol_id) r in
    publish_l3_update (set_book s symbol_id b) r.symbol_id (l3_update_of r) b.md.md_seq_num 0

-- check_exec(type, EXEC_RESP), EXEC_ME and EXEC_PAR.
abbrev pub is_resp : ExecType → Bool
is_resp exec_new = true
is_resp replaced = true
is_resp cancelled = true
is_resp rejected = true
is_resp _ = false

abbrev pub is_me : ExecType → Bool
is_me exec_new = true
is_me replaced = true
is_me _ = false

abbrev pub is_par : ExecType → Bool
is_par partial_fill = true
is_par _ = false

-- EXEC_MD
abbrev pub is_md : ExecType → Bool
is_md type = is_ann type || is_alive type

-- The pending order after a report of its own fill.
abbrev pub filled_pending : OrderResponse → OrderResponse → OrderResponse
filled_pending pending r =
    if is_par r.exec_type
    then record pending { q = sub64 pending.q r.q; q_rem = sub64 pending.q_rem r.q }
    else record pending { order_id = 0 }

abbrev pub set_pending : ServerBook → OrderResponse → ServerBook
set_pending b pending = record b { pending_order = pending }

-- The cancellation in place of a replacement that crosses.
abbrev pub fake_cancel : OrderResponse → OrderResponse
fake_cancel r = record r { exec_type = cancelled; q_rem = 0 }

-- A pending order that crosses no more is put into the book, and waits no more.
unfoldable pub release_pending : MarketDataServer → ℕ → OrderResponse → MarketDataServer
unfolding update_server
release_pending s k pending =
    let s2 = update_server s k pending in
    set_book s2 k (set_pending (book_of s2 k) (record pending { order_id = 0 }))

-- The last lines of process_market_update: the update, and the pending order once it crosses no
-- more.
unfoldable pub finish_update : MarketDataServer → OrderResponse → MarketDataServer
unfolding update_server release_pending
finish_update s r =
    let s1 = update_server s r.symbol_id r in
    let pending = (book_of s1 r.symbol_id).pending_order in
    if pending.order_id == 0 || crosses pending.side pending.p (book_of s1 r.symbol_id)
    then s1
    else release_pending s1 r.symbol_id pending

-- An order that crosses waits; the order that it replaces leaves the book.
unfoldable pub hold_back : MarketDataServer → OrderResponse → MarketDataServer
unfolding update_server
hold_back s r =
    let s1 = if is_replaced r.exec_type then update_server s r.symbol_id (fake_cancel r) else s in
    set_book s1 r.symbol_id
      (set_pending (book_of s1 r.symbol_id) (record r { exec_type = exec_new }))

-- `none` where it throws "Multiple pending orders".
unfoldable pub process_market_update : MarketDataServer → OrderResponse → Option MarketDataServer
unfolding get_or_create_book finish_update hold_back crosses
process_market_update s0 r =
    if not (is_md r.exec_type)
    then some s0
    else let (b, s) = get_or_create_book s0 r.symbol_id in
      let pending = b.pending_order in
      if not (pending.order_id == 0)
      then if is_resp r.exec_type
        then none
        else if (is_ann r.exec_type || is_par r.exec_type)
            && (r.order_id == pending.order_id)
            && (r.client_id == pending.client_id)
        then some (set_book s r.symbol_id (set_pending b (filled_pending pending r)))
        else some (finish_update s r)
      else if is_me r.exec_type && crosses r.side r.p b
      then some (hold_back s r)
      else some (finish_update s r)

-- One round of the loop of check_l2_publish_timers: the book, and what it publishes.
unfoldable pub check_timer : ℕ → MarketDataServer → ℕ → ServerBook → MarketDataServer
unfolding extract_pending_l2_updates publish_l2_update put_book
check_timer now s symbol_id b = elim (extract_pending_l2_updates b.md now 100) [
  | none ↦ s
  | some (updates, md) ↦
      publish_l2_update (set_book s symbol_id (record b { md = md })) symbol_id updates
        md.md_seq_num 0
]

abbrev pub check_timers : ℕ → List (ℕ × ServerBook) → MarketDataServer → MarketDataServer
check_timers now [] s = s
check_timers now ((k, b) ∷ m) s = check_timers now m (check_timer now s k b)

unfoldable pub check_l2_publish_timers : ℕ → MarketDataServer → MarketDataServer
unfolding check_timer
check_l2_publish_timers now s = check_timers now s.books s
