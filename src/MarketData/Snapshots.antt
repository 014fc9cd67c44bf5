-- ===== src/MarketData/Snapshots.antt =====
-- src/MarketDataServer.cpp: the snapshots that a new subscriber is sent.
use electronic_exchange_simu.Prelude.{
  ℕ, ltb, Option, none, some, List, [], ◌∷◌, ◌++◌, if◌then◌else◌, sub64,
}
use electronic_exchange_simu.Prelude.Int.{ℤ, pos}
use electronic_exchange_simu.Wire.{Side, buy, sell, no_side, exec_new, partial_fill, complete}
use electronic_exchange_simu.Feed.L2Book.{L2Update}
use electronic_exchange_simu.Feed.L3Book.{L3Book, L3Order, QueueNode, level_or_new}
use electronic_exchange_simu.MarketData.ServerBook.{ServerBook}
use electronic_exchange_simu.MarketData.Server.{
  L3Update, MdMessage, l2_batch, l3_batch, MarketDataServer,
}

abbrev pub send_to : MarketDataServer → ℕ → MdMessage → MarketDataServer
send_to s client m = record s { sent = (client, m) ∷ s.sent }

-- `CreateL2Update(fbb, side, it->first, it->second.total_qty)`
abbrev pub level_update : ServerBook → Side → ℤ → L2Update
level_update b side p = record {
  side = side;
  p = p;
  q = (level_or_new (b.md.book.levels side p)).total_qty;
}

abbrev pub level_updates : ServerBook → Side → List ℤ → List L2Update
level_updates b side [] = []
level_updates b side (p ∷ ps) = level_update b side p ∷ level_updates b side ps

-- The frame that clears a client's L2 book.
abbrev pub clear_frame : L2Update
clear_frame = record { side = no_side; p = pos 0; q = 0 }

abbrev pub first_one : List ℤ → List ℤ
first_one [] = []
first_one (p ∷ ps) = p ∷ []

abbrev pub all_but_first : List ℤ → List ℤ
all_but_first [] = []
all_but_first (p ∷ ps) = ps

unfoldable pub top_updates : ServerBook → List L2Update
top_updates b =
    clear_frame
    ∷ (level_updates b buy (first_one (b.keys buy))
        ++ level_updates b sell (first_one (b.keys sell)))

unfoldable pub rest_updates : ServerBook → List L2Update
rest_updates b =
    level_updates b buy (all_but_first (b.keys buy))
    ++ level_updates b sell (all_but_first (b.keys sell))

unfoldable pub send_top_of_book : MarketDataServer → ℕ → ℕ → ServerBook → MarketDataServer
unfolding top_updates
send_top_of_book s client symbol_id b = send_to s client (l2_batch symbol_id 0 0 (top_updates b))

-- An empty batch is not sent.
abbrev pub send_rest : MarketDataServer → ℕ → ℕ → List L2Update → MarketDataServer
send_rest s client symbol_id [] = s
send_rest s client symbol_id (u ∷ us) = send_to s client (l2_batch symbol_id 0 0 (u ∷ us))

unfoldable pub send_l2_snapshot : MarketDataServer → ℕ → ℕ → ServerBook → MarketDataServer
unfolding send_top_of_book rest_updates
send_l2_snapshot s client symbol_id b =
    send_rest (send_top_of_book s client symbol_id b) client symbol_id (rest_updates b)

-- CreateL3Update without its last argument, which is 0 then.
abbrev pub snapshot_new : L3Order → L3Update
snapshot_new o = record {
  exec_type = exec_new;
  order_id = o.order_id;
  side = o.side;
  p = o.price;
  q = o.qty_req;
  q_rem = 0;
}

abbrev pub snapshot_fill : L3Order → L3Update
snapshot_fill o = record {
  exec_type = partial_fill;
  order_id = o.order_id;
  side = o.side;
  p = o.price;
  q = sub64 o.qty_req o.qty_rem;
  q_rem = 0;
}

abbrev pub order_updates : L3Order → List L3Update → List L3Update
order_updates o rest =
    if ltb o.qty_rem o.qty_req
    then snapshot_new o ∷ snapshot_fill o ∷ rest
    else snapshot_new o ∷ rest

-- `none` where `orders.at` throws.
unfoldable pub queue_updates : L3Book → List QueueNode → List L3Update → Option (List L3Update)
queue_updates b [] rest = some rest
queue_updates b (n ∷ ns) rest =
    let behind = queue_updates b ns rest in
    elim (b.orders n.order_id) [
      | none ↦ none
      | some o ↦ elim behind [ none ↦ none | some us ↦ some (order_updates o us) ]
    ]

unfoldable pub side_updates :
    L3Book → Side → List ℤ → Option (List L3Update) → Option (List L3Update)
unfolding queue_updates
side_updates b side [] rest = rest
side_updates b side (p ∷ ps) rest =
    let behind = side_updates b side ps rest in
    elim behind [
      | none ↦ none
      | some us ↦ queue_updates b (level_or_new (b.levels side p)).queue us
    ]

abbrev pub reversed : List ℤ → List ℤ → List ℤ
reversed [] acc = acc
reversed (p ∷ ps) acc = reversed ps (p ∷ acc)

abbrev pub l3_clear_frame : L3Update
l3_clear_frame = record {
  exec_type = complete;
  order_id = 0;
  side = no_side;
  p = pos 0;
  q = 0;
  q_rem = 0;
}

-- The bids from rbegin to rend, then the asks.
unfoldable pub l3_updates : ServerBook → Option (List L3Update)
unfolding side_updates
l3_updates b =
    side_updates b.md.book buy (reversed (b.keys buy) [])
      (side_updates b.md.book sell (b.keys sell) (some []))

unfoldable pub send_l3_snapshot : MarketDataServer → ℕ → ℕ → ServerBook → Option MarketDataServer
unfolding l3_updates
send_l3_snapshot s client symbol_id b = elim (l3_updates b) [
  | none ↦ none
  | some us ↦ some (send_to s client (l3_batch symbol_id 0 0 (l3_clear_frame ∷ us)))
]
