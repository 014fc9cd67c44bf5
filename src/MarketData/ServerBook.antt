-- ===== src/MarketData/ServerBook.antt =====
-- include/service/MDOrderBook.hpp as the market-data server keeps it: the book of a symbol with the
-- order that waits for its fills. The maps bids and asks are ordered, so the keys of each are listed
-- in the order of an iteration beside the function that the L3 book is.
use electronic_exchange_simu.Prelude.{
  ℕ, ◌||◌, not, Bool, false, Option, none, some, List, [], ◌∷◌, if◌then◌else◌,
}
use electronic_exchange_simu.Prelude.Int.{ℤ, pos, eq_ℤ, ltb_ℤ}
use electronic_exchange_simu.Wire.{
  Side, buy, sell, no_side, side_eq, ExecType, exec_new, OrderResponse, no_reject,
}
use electronic_exchange_simu.OrderBook.Handlers.{is_some}
use electronic_exchange_simu.OrderBook.State.{set_side}
use electronic_exchange_simu.Feed.L3Book.{L3Book, LevelCall, book_side, update_l3}
use electronic_exchange_simu.Feed.MdOrderBook.{MdOrderBook, update_md}

-- `keys` lists the prices of bids (Side.buy) and of asks (Side.sell).
pub record ServerBook : Type 0 where
  pub md : MdOrderBook
  pub keys : Side → List ℤ
  pub pending_order : OrderResponse

-- The order of an iteration: std::greater for the bids, std::less for the asks.
abbrev pub goes_before : Side → ℤ → ℤ → Bool
goes_before buy p q = ltb_ℤ q p
goes_before _ p q = ltb_ℤ p q

unfoldable pub insert_key : Side → ℤ → List ℤ → List ℤ
insert_key side p [] = p ∷ []
insert_key side p (q ∷ qs) =
    if eq_ℤ p q
    then q ∷ qs
    else if goes_before side p q
    then p ∷ q ∷ qs
    else q ∷ insert_key side p qs

unfoldable pub erase_key : ℤ → List ℤ → List ℤ
erase_key p [] = []
erase_key p (q ∷ qs) = if eq_ℤ p q then qs else q ∷ erase_key p qs

-- A price is a key while its level is there.
unfoldable pub touch : L3Book → Side → ℤ → (Side → List ℤ) → Side → List ℤ
unfolding insert_key erase_key
touch book side p keys = set_side keys side (
    if is_some (book.levels side p) then insert_key side p (keys side) else erase_key p (keys side))

-- An update changes levels at the prices that it reports only.
abbrev pub touch_calls : L3Book → List LevelCall → (Side → List ℤ) → Side → List ℤ
touch_calls book [] keys = keys
touch_calls book (c ∷ cs) keys = touch book (book_side c.side) c.price (touch_calls book cs keys)

-- L3Book::update on the book of the server.
unfoldable pub update_book : ServerBook → ExecType → ℕ → Side → ℤ → ℕ → ℕ → ServerBook
unfolding update_md touch update_l3
update_book b type order_id side price qty q_rem =
    let l3 = update_l3 (record b.md.book { calls = [] }) type order_id side price qty q_rem in
    record b {
      md = update_md b.md type order_id side price qty q_rem;
      keys = if side_eq side no_side then (λ s. []) else touch_calls l3 l3.calls b.keys;
    }

abbrev pub first_key : List ℤ → Option ℤ
first_key [] = none
first_key (p ∷ ps) = some p

-- `bids.begin()->first` and `asks.begin()->first`.
abbrev pub best : ServerBook → Side → Option ℤ
best b side = first_key (b.keys side)

-- MarketDataServer::crosses
abbrev pub reaches : Side → ℤ → Option ℤ → Bool
reaches side price none = false
reaches buy price (some ask) = eq_ℤ price (pos 0) || not (ltb_ℤ price ask)
reaches sell price (some bid) = eq_ℤ price (pos 0) || not (ltb_ℤ bid price)
reaches no_side price (some p) = false

abbrev pub other_side : Side → Side
other_side buy = sell
other_side _ = buy

unfoldable pub crosses : Side → ℤ → ServerBook → Bool
crosses side price b = reaches side price (best b (other_side side))

-- The book that get_or_create_book makes.
abbrev pub no_order : OrderResponse
no_order = record {
  exec_type = exec_new;
  order_id = 0;
  client_id = 0;
  exec_id = 0;
  symbol_id = 0;
  side = no_side;
  p = pos 0;
  q = 0;
  q_rem = 0;
  reject_code = no_reject;
}

abbrev pub new_book : ServerBook
new_book = record {
  md = record {
    book = record { orders = λ id. none; levels = λ s p. none; next_node = 0; calls = [] };
    pending_l2_bids = [];
    pending_l2_asks = [];
    last_l2_publish_time = 0;
    md_seq_num = 0;
  };
  keys = λ s. [];
  pending_order = no_order;
}
