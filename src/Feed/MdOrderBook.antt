-- ===== src/Feed/MdOrderBook.antt =====
-- include/service/MDOrderBook.hpp: an L3 book that remembers which level totals are to be published.
use electronic_exchange_simu.Prelude.{
  ℕ, ◌-◌, ◌/◌, ltb, ◌==◌, ◌&&◌, not, Bool, true, false, Option, none, some, List, [], ◌∷◌, ◌++◌,
  if◌then◌else◌,
}
use electronic_exchange_simu.Prelude.Int.{ℤ, eq_ℤ}
use electronic_exchange_simu.Wire.{Side, buy, sell, no_side, ExecType}
use electronic_exchange_simu.Feed.L2Book.{L2Update}
use electronic_exchange_simu.Feed.L3Book.{L3Book, LevelCall, update_l3, clear_l3}

-- An unordered map from prices to quantities: its entries in the order of an iteration, which is
-- whatever it is.
abbrev pub Pending : Type 0
Pending = List (ℤ × ℕ)

-- Times are in nanoseconds.
pub record MdOrderBook : Type 0 where
  pub book : L3Book
  pub pending_l2_bids : Pending
  pub pending_l2_asks : Pending
  pub last_l2_publish_time : ℕ
  pub md_seq_num : ℕ

-- `pending[price] = total_qty`
unfoldable pub put_pending : Pending → ℤ → ℕ → Pending
put_pending [] price q = (price, q) ∷ []
put_pending ((p, r) ∷ xs) price q =
    if eq_ℤ p price then (p, q) ∷ xs else (p, r) ∷ put_pending xs price q

unfoldable pub on_level_updated : MdOrderBook → Side → ℤ → ℕ → MdOrderBook
unfolding put_pending
on_level_updated b buy price q = record b {
  pending_l2_bids = put_pending b.pending_l2_bids price q;
}
on_level_updated b sell price q = record b {
  pending_l2_asks = put_pending b.pending_l2_asks price q;
}
on_level_updated b no_side price q = b

-- The calls of one update of the L3 book, newest first, reach on_level_updated oldest first.
abbrev pub take_calls : MdOrderBook → List LevelCall → MdOrderBook
take_calls b [] = b
take_calls b (c ∷ cs) = on_level_updated (take_calls b cs) c.side c.price c.total_qty

-- L3Book::update on this class. on_level_updated touches no member of the L3 book, so it is run on
-- the calls after the update.
unfoldable pub update_md : MdOrderBook → ExecType → ℕ → Side → ℤ → ℕ → ℕ → MdOrderBook
unfolding update_l3 on_level_updated
update_md b type order_id side price qty q_rem =
    let l3 = update_l3 (record b.book { calls = [] }) type order_id side price qty q_rem in
    take_calls (record b { book = record l3 { calls = [] } }) l3.calls

unfoldable pub clear_md : MdOrderBook → MdOrderBook
unfolding clear_l3
clear_md b = record b { book = clear_l3 b.book; pending_l2_bids = []; pending_l2_asks = [] }

-- One of the four loops: the entries of one side that are, or are not, of quantity 0.
unfoldable pub updates_of : Side → Bool → Pending → List L2Update
updates_of side zero_qty [] = []
updates_of side zero_qty ((p, q) ∷ xs) =
    if (q == 0) && zero_qty
    then record { side = side; p = p; q = q } ∷ updates_of side zero_qty xs
    else if not (q == 0) && not zero_qty
    then record { side = side; p = p; q = q } ∷ updates_of side zero_qty xs
    else updates_of side zero_qty xs

unfoldable pub pending_updates : MdOrderBook → List L2Update
unfolding updates_of
pending_updates b =
    updates_of buy true b.pending_l2_bids
    ++ updates_of sell true b.pending_l2_asks
    ++ updates_of buy false b.pending_l2_bids
    ++ updates_of sell false b.pending_l2_asks

abbrev pub is_empty : Pending → Bool
is_empty [] = true
is_empty (x ∷ xs) = false

-- none for the result false; a throttle of negative length, which the program never sets, is left
-- out.
unfoldable pub extract_pending_l2_updates :
    MdOrderBook → ℕ → ℕ → Option (List L2Update × MdOrderBook)
unfolding pending_updates
extract_pending_l2_updates b now throttle_ms =
    if ltb ((now - b.last_l2_publish_time) / 1_000_000) throttle_ms
    then none
    else if is_empty b.pending_l2_bids && is_empty b.pending_l2_asks
    then none
    else some (
      pending_updates b,
      record b { pending_l2_bids = []; pending_l2_asks = []; last_l2_publish_time = now },
    )
