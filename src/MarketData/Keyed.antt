-- ===== src/MarketData/Keyed.antt =====
-- src/MarketDataServer.cpp: an update of a server's book keeps its keys the prices of its levels,
-- best first.
use electronic_exchange_simu.Prelude.{
  ℕ, ◌&&◌, ◌||◌, Bool, true, false, none, List, [], ◌∷◌, ◌≡◌, refl, sym, ap, ◌∙◌, if◌then◌else◌,
  if_elim, Bool-cases, inl, inr, subst,
}
use electronic_exchange_simu.Prelude.Int.{ℤ, eq_ℤ, eq_ℤ_iff}
use electronic_exchange_simu.Wire.{Side, buy, sell, no_side, side_eq, ExecType}
use electronic_exchange_simu.OrderBook.Handlers.{is_some}
use electronic_exchange_simu.Feed.L3Book.{L3Book, LevelCall, book_side, update_l3}
use electronic_exchange_simu.Feed.MdOrderBook.{MdOrderBook, take_calls, on_level_updated}
use electronic_exchange_simu.MarketData.ServerBook.{
  ServerBook, insert_key, erase_key, touch, touch_calls, update_book,
}
use electronic_exchange_simu.MarketData.Covered.{called, update_l3-levels}
use electronic_exchange_simu.MarketData.Keys.{
  has_key, IsOrdered, IsOrdered-insert_key, IsOrdered-erase_key, has_key-insert_key,
  has_key-erase_key,
}

-- The keys of each side are in its order, and are the prices of its levels.
pub record IsKeyed (b : ServerBook) : Type 0 where
  pub ordered : (s : Side) → IsOrdered s (b.keys s)
  pub exact :
      (s : Side) (p : ℤ)
      → side_eq s no_side ≡ false
      → has_key p (b.keys s) ≡ is_some (b.md.book.levels s p)

abbrev AllOrdered : (Side → List ℤ) → Type 0
AllOrdered keys = (s : Side) → IsOrdered s (keys s)

module _ (book : L3Book) where
  touch_one :
      (side : Side) (p : ℤ) (qs : List ℤ)
      → IsOrdered side qs
      → IsOrdered side
          (if is_some (book.levels side p) then insert_key side p qs else erase_key p qs)
  touch_one side p qs h =
      if_elim (λ l. IsOrdered side l) (is_some (book.levels side p))
        (λ _. IsOrdered-insert_key side p qs h) (λ _. IsOrdered-erase_key side p qs h)

  touch-AllOrdered :
      (side : Side) (p : ℤ) (keys : Side → List ℤ)
      → AllOrdered keys
      → AllOrdered (touch book side p keys)
  unfolding touch
  touch-AllOrdered buy p keys h buy = touch_one buy p (keys buy) (h buy)
  touch-AllOrdered buy p keys h sell = h sell
  touch-AllOrdered buy p keys h no_side = h no_side
  touch-AllOrdered sell p keys h buy = h buy
  touch-AllOrdered sell p keys h sell = touch_one sell p (keys sell) (h sell)
  touch-AllOrdered sell p keys h no_side = h no_side
  touch-AllOrdered no_side p keys h buy = h buy
  touch-AllOrdered no_side p keys h sell = h sell
  touch-AllOrdered no_side p keys h no_side = touch_one no_side p (keys no_side) (h no_side)

  touched_key :
      (side : Side) (p r : ℤ) (qs : List ℤ)
      → IsOrdered side qs
      → has_key r (if is_some (book.levels side p) then insert_key side p qs else erase_key p qs)
        ≡ (if eq_ℤ p r then is_some (book.levels side r) else has_key r qs)
  touched_key side p r qs h = elim (Bool-cases (is_some (book.levels side p))) [
    | inl there ↦ rw there (has_key-insert_key side p r qs ∙ at_p true there)
    | inr gone ↦ rw gone (has_key-erase_key side p r qs h ∙ at_p false gone)
  ]
    where
      at_p :
          (v : Bool)
          → is_some (book.levels side p) ≡ v
          → (if eq_ℤ p r then v else has_key r qs)
            ≡ (if eq_ℤ p r then is_some (book.levels side r) else has_key r qs)
      at_p v e = elim (Bool-cases (eq_ℤ p r)) [
        | inl here ↦
            rw here (sym (subst (λ x. is_some (book.levels side x) ≡ v) ((eq_ℤ_iff p r).0 here) e))
        | inr other ↦ rw other
      ]

  touch_keys :
      (side : Side) (p : ℤ) (keys : Side → List ℤ) (s : Side) (r : ℤ)
      → AllOrdered keys
      → has_key r (touch book side p keys s)
        ≡ (if side_eq side s && eq_ℤ p r then is_some (book.levels s r) else has_key r (keys s))
  unfolding touch
  touch_keys buy p keys buy r h = touched_key buy p r (keys buy) (h buy)
  touch_keys buy p keys sell r h = refl
  touch_keys buy p keys no_side r h = refl
  touch_keys sell p keys buy r h = refl
  touch_keys sell p keys sell r h = touched_key sell p r (keys sell) (h sell)
  touch_keys sell p keys no_side r h = refl
  touch_keys no_side p keys buy r h = refl
  touch_keys no_side p keys sell r h = refl
  touch_keys no_side p keys no_side r h = touched_key no_side p r (keys no_side) (h no_side)

  touch_calls-AllOrdered :
      (cs : List LevelCall) (keys : Side → List ℤ)
      → AllOrdered keys
      → AllOrdered (touch_calls book cs keys)
  touch_calls-AllOrdered [] keys h = h
  touch_calls-AllOrdered (c ∷ cs) keys h =
      touch-AllOrdered (book_side c.side) c.price (touch_calls book cs keys)
        (touch_calls-AllOrdered cs keys h)

  if_or : (a b x y : Bool) → (if a then x else (if b then x else y)) ≡ (if a || b then x else y)
  if_or true b x y = refl
  if_or false b x y = refl

  touch_calls_keys :
      (cs : List LevelCall) (keys : Side → List ℤ) (s : Side) (r : ℤ)
      → AllOrdered keys
      → has_key r (touch_calls book cs keys s)
        ≡ (if called s r cs then is_some (book.levels s r) else has_key r (keys s))
  touch_calls_keys [] keys s r h = refl
  touch_calls_keys (c ∷ cs) keys s r h =
      touch_keys (book_side c.side) c.price (touch_calls book cs keys) s r
        (touch_calls-AllOrdered cs keys h)
      ∙ (ap
            (λ x.
              if side_eq (book_side c.side) s && eq_ℤ c.price r
              then is_some (book.levels s r)
              else x)
            (touch_calls_keys cs keys s r h)
          ∙ if_or (side_eq (book_side c.side) s && eq_ℤ c.price r) (called s r cs)
              (is_some (book.levels s r)) (has_key r (keys s)))

on_level_updated-book :
    (b : MdOrderBook) (side : Side) (p : ℤ) (q : ℕ) → (on_level_updated b side p q).book ≡ b.book
unfolding on_level_updated
on_level_updated-book b buy p q = refl
on_level_updated-book b sell p q = refl
on_level_updated-book b no_side p q = refl

take_calls-book : (b : MdOrderBook) (cs : List LevelCall) → (take_calls b cs).book ≡ b.book
take_calls-book b [] = refl
take_calls-book b (c ∷ cs) =
    on_level_updated-book (take_calls b cs) c.side c.price c.total_qty ∙ take_calls-book b cs

module _ (b : ServerBook) (type : ExecType) (order_id : ℕ) (side : Side) (price : ℤ)
    (qty q_rem : ℕ) where
  abbrev l3 : L3Book
  l3 = update_l3 (record b.md.book { calls = [] }) type order_id side price qty q_rem

  abbrev after_update : ServerBook
  after_update = update_book b type order_id side price qty q_rem

  pub update_book_levels : after_update.md.book.levels ≡ l3.levels
  unfolding update_book
  update_book_levels = ap (λ m. m.levels) (take_calls-book _ l3.calls)

  pub update_book_keys :
      after_update.keys
      ≡ (if side_eq side no_side then (λ s. []) else touch_calls l3 l3.calls b.keys)
  unfolding update_book
  update_book_keys = refl

  cleared_levels : side_eq side no_side ≡ true → (s : Side) (p : ℤ) → l3.levels s p ≡ none
  unfolding update_l3
  cleared_levels e s p = rw e

  -- An update of the server's book keeps its keys those of its levels, bids from the highest and
  -- asks from the lowest, each once. They are before.
  pub update_book-IsKeyed : IsKeyed b → IsKeyed (update_book b type order_id side price qty q_rem)
  update_book-IsKeyed h = elim (Bool-cases (side_eq side no_side)) [
    | inl e ↦ record {
      ordered = λ s. rw (update_book_keys, e) tt;
      exact =
          λ s p trading. rw (update_book_keys, e, update_book_levels, cleared_levels e s p) refl;
    }
    | inr e ↦ record {
      ordered =
          λ s. rw (update_book_keys, e) (touch_calls-AllOrdered l3 l3.calls b.keys h.ordered s);
      exact = λ s p trading.
          rw (update_book_keys, e, update_book_levels)
            (touch_calls_keys l3 l3.calls b.keys s p h.ordered
              ∙ (elim (Bool-cases (called s p l3.calls)) [
                | inl yes_called ↦ rw yes_called
                | inr not_called ↦ rw not_called (
                    h.exact s p trading
                    ∙ ap is_some (
                        sym (
                          update_l3-levels (record b.md.book { calls = [] }) type order_id side
                            price qty q_rem s p trading e not_called)))
              ]));
    }
  ]
