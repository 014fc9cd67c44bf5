-- ===== src/Feed/Tests.antt =====
-- The market-data theorems at small inputs.
use electronic_exchange_simu.Prelude.{
  none, some, update, subst, ◌&&◌, if◌then◌else◌, List, [], ◌∷◌, ◌≡◌, refl,
}
use electronic_exchange_simu.Prelude.Int.{pos, eq_ℤ}
use electronic_exchange_simu.Wire.{buy, sell, side_eq, partial_fill}
use electronic_exchange_simu.Feed.L2Book.{L2Book, L2Update, apply_l2, quantity}
use electronic_exchange_simu.Feed.L3Book.{L3Book, L3Order}
use electronic_exchange_simu.Feed.MdOrderBook.{
  MdOrderBook, update_md, extract_pending_l2_updates, pending_updates, updates_of,
}
use electronic_exchange_simu.Feed.Pending.{find_pending, pending_of, AreMaps}
use electronic_exchange_simu.Feed.Latest.{value_or}
use electronic_exchange_simu.Feed.Levels.{IsSummed, total_qty_at}
use electronic_exchange_simu.Feed.Shown.{update_md-shown}
use electronic_exchange_simu.Feed.Publish.{apply_l2-extract}

abbrev empty_l3 : L3Book
empty_l3 = record { orders = λ id. none; levels = λ s p. none; next_node = 0; calls = [] }

-- A level of bids is gone, and one of asks is at 30.
abbrev pending_book : MdOrderBook
pending_book = record {
  book = empty_l3;
  pending_l2_bids = (pos 100, 0) ∷ [];
  pending_l2_asks = (pos 105, 30) ∷ [];
  last_l2_publish_time = 0;
  md_seq_num = 0;
}

abbrev published : List L2Update
published =
    record { side = buy; p = pos 100; q = 0 } ∷ record { side = sell; p = pos 105; q = 30 } ∷ []

abbrev client_book : L2Book
client_book = record { symbol_id = 1; bids = λ p. some 7; asks = λ p. none }

abbrev after_publish : MdOrderBook
after_publish = record pending_book {
  pending_l2_bids = [];
  pending_l2_asks = [];
  last_l2_publish_time = 200_000_000;
}

publishes :
    extract_pending_l2_updates pending_book 200_000_000 100 ≡ some (published, after_publish)
unfolding extract_pending_l2_updates pending_updates updates_of
publishes = refl

apply_l2-extract_example :
    (quantity (apply_l2 client_book published) buy (pos 100) ≡ 0)
    × (find_pending (pending_of after_publish buy) (pos 100) ≡ none)
apply_l2-extract_example =
    apply_l2-extract pending_book after_publish 200_000_000 100 published client_book buy (pos 100)
      (tt, tt) (tt, tt) refl publishes

-- One order for sale at 105, of 30.
abbrev sell_order : L3Order
sell_order = record {
  order_id = 4;
  side = sell;
  price = pos 105;
  qty_req = 30;
  qty_rem = 30;
  queue_pos = 0;
}

abbrev sell_book : L3Book
sell_book = record {
  orders = update (λ id. none) 4 (some sell_order);
  levels = λ s p.
      if side_eq s sell && eq_ℤ p (pos 105)
      then some (record { total_qty = 30; queue = record { node = 0; order_id = 4 } ∷ [] })
      else none;
  next_node = 1;
  calls = [];
}

some-injective : {a b : L3Order} → some a ≡ some b → a ≡ b
some-injective e = cc

sell_order-IsSummed : (o : L3Order) → sell_book.orders 4 ≡ some o → IsSummed sell_book o
sell_order-IsSummed o h =
    subst (IsSummed sell_book) (some-injective {a = sell_order} h)
      (record { trading = refl; alone = λ _. refl })

-- Part of the order is filled: the total of asks that is pending becomes 12.
update_md-shown_example :
    let b' =
      update_md (record pending_book { book = sell_book }) partial_fill 4 sell (pos 105) 18 12 in
    AreMaps b'
    × (value_or (find_pending (pending_of b' sell) (pos 105)) 7
        ≡ total_qty_at b'.book sell (pos 105))
update_md-shown_example =
    update_md-shown (record pending_book { book = sell_book }) partial_fill 4 sell (pos 105) 18 12
      sell (pos 105) 7 ((tt, tt), (tt, tt)) refl refl sell_order-IsSummed refl
