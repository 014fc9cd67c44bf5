-- ===== src/Feed/Shown.antt =====
-- src/L3Book.cpp with include/service/MDOrderBook.hpp: what was published, and what is pending, are
-- the totals of the levels.
use electronic_exchange_simu.Prelude.{
  ℕ, ◌&&◌, false, Option, none, some, List, [], ◌∷◌, ◌≡◌, refl, sym, ap, ◌∙◌, Bool-cases, inl, inr,
}
use electronic_exchange_simu.Prelude.Int.{ℤ, eq_ℤ}
use electronic_exchange_simu.Wire.{Side, buy, sell, no_side, side_eq, ExecType}
use electronic_exchange_simu.Feed.L3Book.{L3Book, L3Order, LevelCall, update_l3}
use electronic_exchange_simu.Feed.MdOrderBook.{MdOrderBook, update_md, take_calls, on_level_updated}
use electronic_exchange_simu.Feed.Pending.{
  find_pending, pending_of, AreMaps, latest, update_md-latest,
}
use electronic_exchange_simu.Feed.Latest.{value_or}
use electronic_exchange_simu.Feed.Levels.{total_qty_at, IsSummed}
use electronic_exchange_simu.Feed.Told.{update_l3-Told}

on_level_updated-book :
    (b : MdOrderBook) (side : Side) (p : ℤ) (q : ℕ) → (on_level_updated b side p q).book ≡ b.book
unfolding on_level_updated
on_level_updated-book b buy p q = refl
on_level_updated-book b sell p q = refl
on_level_updated-book b no_side p q = refl

value_or-latest :
    (cs : List LevelCall) (s : Side) (p : ℤ) (old : Option ℕ) (base : ℕ)
    → value_or (latest cs s p old) base ≡ value_or (latest cs s p none) (value_or old base)
value_or-latest [] s p old base = refl
value_or-latest (c ∷ cs) s p old base = elim (Bool-cases (side_eq c.side s && eq_ℤ c.price p)) [
  | inl e ↦ rw e refl
  | inr e ↦ rw e (value_or-latest cs s p old base)
]

take_calls-book : (b : MdOrderBook) (cs : List LevelCall) → (take_calls b cs).book ≡ b.book
take_calls-book b [] = refl
take_calls-book b (c ∷ cs) =
    on_level_updated-book (take_calls b cs) c.side c.price c.total_qty ∙ take_calls-book b cs

-- After an update of a market-data book, what a client shows for a price of a side is the total of
-- that level of the book, 0 where there is none, once the pending total of the price, if any, is
-- published to it; and the pending maps have at most one entry for each price. Before, both were
-- so; the side of the update and that of the price are Buy or Sell; and the order that the update
-- names, if the book has it, is on Buy or Sell and has, where it is alone in the queue of its
-- level, the level's whole total.
pub update_md-shown :
    (b : MdOrderBook) (type : ExecType) (order_id : ℕ) (side : Side) (price : ℤ) (qty q_rem : ℕ)
    (s : Side) (p : ℤ) (shown : ℕ)
    → AreMaps b
    → side_eq side no_side ≡ false
    → side_eq s no_side ≡ false
    → ((o : L3Order) → b.book.orders order_id ≡ some o → IsSummed b.book o)
    → value_or (find_pending (pending_of b s) p) shown ≡ total_qty_at b.book s p
    → let b' = update_md b type order_id side price qty q_rem in
      AreMaps b' × (value_or (find_pending (pending_of b' s) p) shown ≡ total_qty_at b'.book s p)
unfolding update_md
update_md-shown b type order_id side price qty q_rem s p shown maps sided trading summed before =
    let l3 : L3Book = update_l3 (record b.book { calls = [] }) type order_id side price qty q_rem in
    let b1 : MdOrderBook = record b { book = record l3 { calls = [] } } in
    let now : (AreMaps (take_calls b1 l3.calls))
        × (find_pending (pending_of (take_calls b1 l3.calls) s) p
            ≡ latest l3.calls s p (find_pending (pending_of b s) p)) =
      update_md-latest b type order_id side price qty q_rem s p maps trading in
    (
      now.0,
      ap (λ o. value_or o shown) now.1
          ∙ value_or-latest l3.calls s p (find_pending (pending_of b s) p) shown
          ∙ ap (value_or (latest l3.calls s p none)) before
          ∙ update_l3-Told s p trading (total_qty_at b.book s p) (record b.book { calls = [] }) type
              order_id side price qty q_rem sided
              (λ o e. record { trading = (summed o e).trading; alone = (summed o e).alone }) refl
          ∙ sym (ap (λ l. total_qty_at l s p) (take_calls-book b1 l3.calls)),
    )
