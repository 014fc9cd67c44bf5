-- ===== src/MarketData/Tests.antt =====
-- src/MarketDataServer.cpp: a server with one ask, and the theorems at it.
use electronic_exchange_simu.Prelude.{ℕ, none, some, true, false, [], ◌∷◌, ◌≡◌, ◌↔◌, refl, inl}
use electronic_exchange_simu.Prelude.Int.{ℤ, pos}
use electronic_exchange_simu.Wire.{buy, sell, exec_new, OrderResponse, no_reject}
use electronic_exchange_simu.Feed.L2Book.{L2Book, quantity}
use electronic_exchange_simu.MarketData.ServerBook.{ServerBook, new_book, update_book, crosses}
use electronic_exchange_simu.MarketData.Server.{
  MarketDataServer, l2, process_market_update, find_book, set_book, finish_update,
  get_or_create_book,
}
use electronic_exchange_simu.MarketData.Snapshots.{send_l2_snapshot}
use electronic_exchange_simu.MarketData.Subscriptions.{
  unsubscribe, handle_market_data_request, unsubscribe_client, on_close, has_client, has_tag,
  register,
}
use electronic_exchange_simu.MarketData.Agreement.{
  Agrees, clients_of, register-Agrees, handle_market_data_request-Agrees,
}
use electronic_exchange_simu.OrderBook.Handlers.{is_some}
use electronic_exchange_simu.MarketData.Crossing.{after_reports, Meets, crosses-levels}
use electronic_exchange_simu.MarketData.Closing.{on_close-Agrees}
use electronic_exchange_simu.MarketData.Keyed.{IsKeyed, update_book-IsKeyed}
use electronic_exchange_simu.MarketData.Rebuild.{
  after_messages, total_at, send_l2_snapshot_rebuilds,
}
use electronic_exchange_simu.MarketData.Waiting.{AllWait, process_market_update-AllWait}

abbrev empty_server : MarketDataServer
empty_server = record {
  books = [];
  l1_clients = λ k. [];
  l2_clients = λ k. [];
  l3_clients = λ k. [];
  subs = λ c. [];
  sent = [];
}

abbrev ask : OrderResponse
ask = record {
  exec_type = exec_new;
  order_id = 1;
  client_id = 2;
  exec_id = 3;
  symbol_id = 4;
  side = sell;
  p = pos 10;
  q = 5;
  q_rem = 5;
  reject_code = no_reject;
}

new_book-IsKeyed : IsKeyed new_book
new_book-IsKeyed = record { ordered = λ s. tt; exact = λ s p h. refl }

-- The book after the ask, and a buy order at its price.
crosses-levels_example : (crosses buy (pos 10) (after_reports new_book (ask ∷ [])) ≡ true) ↔ (
    (p : ℤ) × (is_some ((after_reports new_book (ask ∷ [])).md.book.levels sell p) ≡ true)
    × Meets buy (pos 10) p)
crosses-levels_example = crosses-levels buy (pos 10) (ask ∷ [])

abbrev empty_l2 : L2Book
empty_l2 = record { symbol_id = 4; bids = λ p. none; asks = λ p. none }

abbrev one_ask : ServerBook
one_ask = update_book new_book exec_new 7 sell (pos 10) 5 5

send_l2_snapshot_rebuilds_example :
    quantity
      (after_messages 9 empty_l2 (send_l2_snapshot empty_server 9 4 one_ask).sent)
      sell
      (pos 10)
    ≡ total_at one_ask sell (pos 10)
send_l2_snapshot_rebuilds_example =
    send_l2_snapshot_rebuilds empty_server 9 4 one_ask empty_l2 sell (pos 10) refl
      (update_book-IsKeyed new_book exec_new 7 sell (pos 10) 5 5 new_book-IsKeyed)

empty-Agrees : Agrees empty_server l2
unfolding has_client has_tag
empty-Agrees = record { distinct = λ k. tt; matching = λ c k. refl }

-- A client that has subscribed to L2 data.
abbrev l2_server : MarketDataServer
l2_server = register empty_server 9 l2 4

l2-Agrees : Agrees l2_server l2
l2-Agrees = register-Agrees empty_server 9 l2 4 l2 empty-Agrees

handle_market_data_request-Agrees_example : Agrees (unsubscribe_client l2_server 9 l2 4) l2
unfolding handle_market_data_request
handle_market_data_request-Agrees_example =
    handle_market_data_request-Agrees l2_server (unsubscribe_client l2_server 9 l2 4) 9
      (record { symbol_id = 4; md_type = l2; sub_type = unsubscribe }) l2 l2-Agrees refl

on_close-Agrees_example :
    Agrees (on_close l2_server 9) l2
    × ((k : ℕ) → has_client 9 (clients_of (on_close l2_server 9) l2 k) ≡ false)
on_close-Agrees_example = on_close-Agrees l2_server 9 l2 refl l2-Agrees

empty-AllWait : AllWait empty_server
unfolding find_book
empty-AllWait k = inl refl

-- The ask does not cross an empty book, so it is put there.
abbrev after_ask : MarketDataServer
after_ask = finish_update (set_book empty_server 4 new_book) ask

ask_is_put : process_market_update empty_server ask ≡ some after_ask
unfolding process_market_update get_or_create_book find_book crosses
ask_is_put = refl

process_market_update-AllWait_example : AllWait after_ask
process_market_update-AllWait_example =
    process_market_update-AllWait empty_server after_ask ask empty-AllWait (λ e. cc) ask_is_put
