-- ===== src/MarketData/Cancelling.antt =====
-- src/MarketDataServer.cpp: a cancellation leaves the keys of the other side alone.
use electronic_exchange_simu.Prelude.{
  ℕ, false, Option, none, some, List, [], ◌∷◌, ◌≡◌, refl, ap, ◌∙◌, if◌then◌else◌, Option-cases, inl,
  inr, All,
}
use electronic_exchange_simu.Prelude.Int.{ℤ}
use electronic_exchange_simu.Wire.{Side, buy, sell, no_side, side_eq, cancelled, OrderResponse}
use electronic_exchange_simu.OrderBook.State.{combined_order_id}
use electronic_exchange_simu.Feed.L3Book.{
  L3Book, L3Order, LevelCall, book_side, update_in_place, update_found, update_l3,
}
use electronic_exchange_simu.MarketData.ServerBook.{ServerBook, touch, touch_calls, other_side}
use electronic_exchange_simu.MarketData.Keyed.{update_book_keys}
use electronic_exchange_simu.MarketData.Server.{updated, fake_cancel}

-- The replaced order rests on the side of its replacement.
abbrev pub OnItsSide : ServerBook → OrderResponse → Type 0
OnItsSide b r =
    (o : L3Order)
    → b.md.book.orders (combined_order_id r.client_id r.order_id) ≡ some o
    → book_side o.side ≡ r.side

abbrev pub AllOn : Side → List LevelCall → Type 0
AllOn side cs = All (λ c. book_side c.side ≡ side) cs

pub touch_other :
    (book : L3Book) (t : Side) (p : ℤ) (keys : Side → List ℤ) (side : Side)
    → t ≡ side
    → side_eq side no_side ≡ false
    → touch book t p keys (other_side side) ≡ keys (other_side side)
unfolding touch
touch_other book t p keys buy e trading = rw e refl
touch_other book t p keys sell e trading = rw e refl
touch_other book t p keys no_side e trading = cc

pub touch_calls_other :
    (book : L3Book) (cs : List LevelCall) (keys : Side → List ℤ) (side : Side)
    → side_eq side no_side ≡ false
    → AllOn side cs
    → touch_calls book cs keys (other_side side) ≡ keys (other_side side)
touch_calls_other book [] keys side trading h = refl
touch_calls_other book (c ∷ cs) keys side trading h =
    touch_other book (book_side c.side) c.price (touch_calls book cs keys) side h.0 trading
    ∙ touch_calls_other book cs keys side trading h.1

pub in_place-AllOn :
    (b : L3Book) (o : L3Order) (id qty q_rem : ℕ) (side : Side)
    → b.calls ≡ []
    → book_side o.side ≡ side
    → AllOn side (update_in_place b cancelled o id qty q_rem).calls
unfolding update_in_place
in_place-AllOn b o id qty q_rem side e h = rw e (h, tt)

abbrev pub without_order : L3Book → ℕ → ℕ → ℕ → Option L3Order → L3Book
without_order b id qty q_rem none = b
without_order b id qty q_rem (some o) = update_in_place b cancelled o id qty q_rem

pub cancel_found_lem :
    (b : L3Book) (id : ℕ) (side : Side) (price : ℤ) (qty q_rem : ℕ)
    → update_found b cancelled id side price qty q_rem ≡ without_order b id qty q_rem (b.orders id)
unfolding update_found
cancel_found_lem b id side price qty q_rem = elim (Option-cases (b.orders id)) [
  | inl e ↦ rw (e, update_found) refl
  | inr (o, e) ↦ rw (e, update_found) refl
]

-- A cancellation reports the level of its order only.
pub cancel-AllOn :
    (b : L3Book) (id : ℕ) (side : Side) (price : ℤ) (qty q_rem : ℕ)
    → b.calls ≡ []
    → side_eq side no_side ≡ false
    → ((o : L3Order) → b.orders id ≡ some o → book_side o.side ≡ side)
    → AllOn side (update_l3 b cancelled id side price qty q_rem).calls
unfolding update_l3
cancel-AllOn b id side price qty q_rem e trading own =
    rw (trading, cancel_found_lem b id side price qty q_rem) (found (b.orders id) refl)
  where
    found :
        (x : Option L3Order) → b.orders id ≡ x → AllOn side (without_order b id qty q_rem x).calls
    found none k = rw e tt
    found (some o) k = in_place-AllOn b o id qty q_rem side e (own o k)

pub cancel_keys :
    (b : ServerBook) (r : OrderResponse)
    → side_eq r.side no_side ≡ false
    → OnItsSide b r
    → (updated b (fake_cancel r)).keys (other_side r.side) ≡ b.keys (other_side r.side)
unfolding updated
cancel_keys b r trading own =
    ap (λ f. f (other_side r.side)) (update_book_keys b cancelled id r.side r.p r.q 0)
    ∙ (ap (λ t. (if t then (λ s. []) else touch_calls l3 l3.calls b.keys) (other_side r.side))
          trading
        ∙ touch_calls_other l3 l3.calls b.keys r.side trading
            (cancel-AllOn (record b.md.book { calls = [] }) id r.side r.p r.q 0 refl trading own))
  where
    id : ℕ
    id = combined_order_id r.client_id r.order_id

    l3 : L3Book
    l3 = update_l3 (record b.md.book { calls = [] }) cancelled id r.side r.p r.q 0
