-- ===== src/OrderBook/Fifo.antt =====
-- The inner loop of OrderBook::match against an independent description: the quantity goes to the
-- orders of the level first come, first served.
use electronic_exchange_simu.Prelude.{
  ℕ, ◌-◌, ◌<◌, ◌≤◌, ◌%◌, min, Option, none, List, [], ◌∷◌, ◌≡◌, refl, ap, ap₂, true, ◌∙◌, arith,
  leb, if◌then◌else◌, update, length, sum_by, All, u64_mod, sub64-mod,
}
use electronic_exchange_simu.Prelude.Int.{ℤ}
use electronic_exchange_simu.Wire.{Side}
use electronic_exchange_simu.OrderBook.State.{Order, PriceLevel, OrderBook}
use electronic_exchange_simu.OrderBook.Rounds.{next_round, match_level_rule}
use electronic_exchange_simu.OrderBook.Match.{Matching, fill_one, drop_maker, take_qty, match_level}

abbrev pub rem_sum : List Order → ℕ
rem_sum = sum_by (λ o. o.qty_remaining)

-- What remains of an order is at most its quantity, which fits uint64_t.
abbrev pub IsSized : Order → Type 0
IsSized o = (o.qty_remaining ≤ o.qty_original) × (o.qty_original < u64_mod)

abbrev pub IsLive : Order → Type 0
IsLive o = (0 < o.qty_remaining) × IsSized o

-- What is left of a queue after `q` was taken from it, and the ids of the orders that are filled.
abbrev pub after_taking : ℕ → List Order → List Order
after_taking q [] = []
after_taking q (o ∷ os) =
    if leb o.qty_remaining q then after_taking (q - o.qty_remaining) os else take_qty o q ∷ os

abbrev pub filled_ids : ℕ → List Order → List ℕ
filled_ids q [] = []
filled_ids q (o ∷ os) =
    if leb o.qty_remaining q then o.order_id ∷ filled_ids (q - o.qty_remaining) os else []

abbrev pub forget_ids : List ℕ → (ℕ → Option ℕ) → ℕ → Option ℕ
forget_ids [] f = f
forget_ids (id ∷ ids) f = forget_ids ids (update f id none)

le→leb : {a b : ℕ} → a ≤ b → leb a b ≡ true
le→leb h = ground arith

after_taking-zero : (os : List Order) → All IsLive os → after_taking 0 os ≡ os
after_taking-zero [] h = refl
after_taking-zero (o ∷ os) h = ground arith

filled_ids-zero : (os : List Order) → All IsLive os → filled_ids 0 os ≡ []
filled_ids-zero [] h = refl
filled_ids-zero (o ∷ os) h = ground arith

-- A level's counters agree with its orders, as uint64_t.
pub record IsCounted (pl : PriceLevel) : Type 0 where
  pub counted : pl.order_count ≡ length pl.orders % u64_mod
  pub totalled : pl.total_qty ≡ rem_sum pl.orders % u64_mod

-- What the inner loop makes of the state `m` whose level holds `os`.
pub record LevelMatched (os : List Order) (m r : Matching) : Type 0 where
  pub queue : m.level.orders ≡ os → r.level.orders ≡ after_taking m.taker.qty_remaining os
  pub left : r.taker.qty_remaining ≡ m.taker.qty_remaining - rem_sum os
  pub same_taker :
      (q : ℕ) → record r.taker { qty_remaining = q } ≡ record m.taker { qty_remaining = q }
  pub active :
      r.book.active_orders ≡ forget_ids (filled_ids m.taker.qty_remaining os) m.book.active_orders
  pub counts : m.level.orders ≡ os → IsCounted m.level → IsCounted r.level
  pub better : r.level.better ≡ m.level.better
  pub worse : r.level.worse ≡ m.level.worse

-- The rest of the book is only reported to.
pub record SameBook (b r : OrderBook) : Type 0 where
  pub same_array : r.price_array ≡ b.price_array
  pub same_best : r.best_levels ≡ b.best_levels
  pub same_keys : r.active_levels ≡ b.active_levels
  pub same_step : r.min_step ≡ b.min_step
  pub same_offset : r.price_index_offset ≡ b.price_index_offset
  pub same_size : r.max_price_levels ≡ b.max_price_levels

module _ (s : Side) (p : ℤ) (o : Order) (os : List Order) (m : Matching) where
  active_orders-fill_one : (fill_one s p o os m).book.active_orders ≡ m.book.active_orders
  unfolding fill_one
  active_orders-fill_one = ground arith

  next_round-SameBook : SameBook m.book (next_round s p o os m).book
  unfolding fill_one drop_maker
  next_round-SameBook = ground arith

  fill_one-SameBook : SameBook m.book (fill_one s p o os m).book
  unfolding fill_one
  fill_one-SameBook = ground arith

SameBook-trans : {a b c : OrderBook} → SameBook a b → SameBook b c → SameBook a c
SameBook-trans h k = record {
  same_array = k.same_array ∙ h.same_array;
  same_best = k.same_best ∙ h.same_best;
  same_keys = k.same_keys ∙ h.same_keys;
  same_step = k.same_step ∙ h.same_step;
  same_offset = k.same_offset ∙ h.same_offset;
  same_size = k.same_size ∙ h.same_size;
}

SameBook-refl : (b : OrderBook) → SameBook b b
SameBook-refl b = record {
  same_array = refl;
  same_best = refl;
  same_keys = refl;
  same_step = refl;
  same_offset = refl;
  same_size = refl;
}

LevelMatched-nil : (m : Matching) → LevelMatched [] m m
LevelMatched-nil m = record {
  queue = λ e. e;
  left = omega arith;
  same_taker = λ q. refl;
  active = refl;
  counts = λ e c. c;
  better = refl;
  worse = refl;
}

LevelMatched-done :
    (o : Order) (os : List Order) (m : Matching)
    → m.taker.qty_remaining ≡ 0
    → All IsLive (o ∷ os)
    → LevelMatched (o ∷ os) m m
LevelMatched-done o os m z h = record {
  queue = λ e. ground (arith, e, after_taking-zero (o ∷ os) h);
  left = omega arith;
  same_taker = λ q. refl;
  active = ground (arith, filled_ids-zero (o ∷ os) h);
  counts = λ e c. c;
  better = refl;
  worse = refl;
}

module _ (s : Side) (p : ℤ) where
  LevelMatched-part :
      (o : Order) (os : List Order) (m : Matching)
      → 0 < m.taker.qty_remaining
      → m.taker.qty_remaining < o.qty_remaining
      → LevelMatched (o ∷ os) m (fill_one s p o os m)
  unfolding fill_one
  LevelMatched-part o os m z h = record {
    queue = λ e. ground arith;
    left = ground arith;
    same_taker = λ q. refl;
    active = ground (arith, active_orders-fill_one s p o os m);
    counts = λ e c. record {
      counted = ground (arith, c.counted, ap length e);
      totalled =
          sub64-mod m.level.total_qty _ (min o.qty_remaining m.taker.qty_remaining)
            (omega (arith, c.totalled, ap rem_sum e));
    };
    better = refl;
    worse = refl;
  }

  LevelMatched-whole :
      (o : Order) (os : List Order) (m r : Matching)
      → 0 < m.taker.qty_remaining
      → o.qty_remaining ≤ m.taker.qty_remaining
      → LevelMatched os (next_round s p o os m) r
      → LevelMatched (o ∷ os) m r
  unfolding fill_one drop_maker
  LevelMatched-whole o os m r z h ih = record {
    queue = λ e. ground (arith, ih.queue refl);
    left = ground arith;
    same_taker = λ q. ih.same_taker q;
    active = rw (le→leb h) (
        ih.active
        ∙ ap₂ (λ ids f. forget_ids ids (update f o.order_id none))
            (ap (λ n. filled_ids (m.taker.qty_remaining - n) os) (omega arith))
            (active_orders-fill_one s p o os m));
    counts = λ e c. ih.counts refl (record {
      counted = sub64-mod m.level.order_count _ 1 (omega (arith, c.counted, ap length e));
      totalled =
          sub64-mod m.level.total_qty _ (min o.qty_remaining m.taker.qty_remaining)
            (omega (arith, c.totalled, ap rem_sum e));
    });
    better = ih.better;
    worse = ih.worse;
  }

  pub match_level-LevelMatched :
      (os : List Order) (m : Matching) → All IsLive os → LevelMatched os m (match_level s p os m)
  match_level-LevelMatched =
      match_level_rule s p (λ os m r. All IsLive os → LevelMatched os m r)
        (λ m _. LevelMatched-nil m) LevelMatched-done (λ o os m z h _. LevelMatched-part o os m z h)
        (λ o os m r z h ih live. LevelMatched-whole o os m r z h (ih live.1))

  pub match_level-SameBook :
      (os : List Order) (m : Matching) → SameBook m.book (match_level s p os m).book
  match_level-SameBook =
      match_level_rule s p (λ os m r. SameBook m.book r.book) (λ m. SameBook-refl m.book)
        (λ o os m z. SameBook-refl m.book) (λ o os m z h. fill_one-SameBook s p o os m)
        (λ o os m r z h. SameBook-trans (next_round-SameBook s p o os m))
