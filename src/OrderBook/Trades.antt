-- ===== src/OrderBook/Trades.antt =====
-- What OrderBook::match reports: fills alone, each at the price of a level within the taker's limit.
use electronic_exchange_simu.Prelude.{
  ℕ, zero, suc, ◌<◌, min, true, ◌||◌, not, List, ◌∷◌, ◌≡◌, refl, ◌∙◌, arith, ◌==◌, if_elim,
  Option-cases, inl, inr, All, length,
}
use electronic_exchange_simu.Prelude.Int.{ℤ}
use electronic_exchange_simu.Wire.{Side, ExecType, RejectCode, no_reject, OrderResponse}
use electronic_exchange_simu.OrderBook.State.{Order, OrderBook, opposite, set_level}
use electronic_exchange_simu.OrderBook.Price.{pl_to_price}
use electronic_exchange_simu.OrderBook.Response.{response, send_response}
use electronic_exchange_simu.OrderBook.Levels.{remove_price_level, get_or_create_price_level}
use electronic_exchange_simu.OrderBook.Match.{
  Matching, fill_type, take_qty, report_fill, fill_one, drop_maker, match_level, crossed,
  match_step, match_loop, next_level, finish_match, rest_order, match_order,
}
use electronic_exchange_simu.OrderBook.Rounds.{match_level_rule, next_round}
use electronic_exchange_simu.OrderBook.Valid.{IsValid, IsTrading}
use electronic_exchange_simu.OrderBook.MatchStep.{match_step-IsValid}
use electronic_exchange_simu.OrderBook.Taken.{next_level_found}
use electronic_exchange_simu.OrderBook.MatchLoop.{next_level-mem}
use electronic_exchange_simu.OrderBook.Fifo.{IsLive, match_level-SameBook}

-- The journal, newest record first, was added to by records with a property.
pub data Extends {ℓ} (P : OrderResponse → Type ℓ) (old : List OrderResponse)
    : List OrderResponse → Type ℓ where
  same : Extends P old old
  record_of :
      (r : OrderResponse) (j : List OrderResponse) → P r → Extends P old j → Extends P old (r ∷ j)

Extends-trans {ℓ} :
    (P : OrderResponse → Type ℓ) (a b c : List OrderResponse)
    → Extends P a b
    → Extends P b c
    → Extends P a c
Extends-trans P a b c h same = h
Extends-trans P a b c h (record_of r j e k) = record_of r j e (Extends-trans P a b j h k)

Extends-map {ℓ κ} :
    (P : OrderResponse → Type ℓ) (Q : OrderResponse → Type κ) (a b : List OrderResponse)
    → ((r : OrderResponse) → P r → Q r)
    → Extends P a b
    → Extends Q a b
Extends-map P Q a b f same = same
Extends-map P Q a b f (record_of r j e k) = record_of r j (f r e) (Extends-map P Q a j f k)

-- A report of a fill at a price: of some quantity, and a Fill just if nothing is left.
pub record IsFill (p : ℤ) (r : OrderResponse) : Type 0 where
  pub price : r.p ≡ p
  pub some_qty : 0 < r.q
  pub kind : r.exec_type ≡ fill_type r.q_rem

-- A response adds at most its record.
send_response-Extends {ℓ} :
    (P : OrderResponse → Type ℓ) (b : OrderBook) (e : ExecType) (id x : ℕ) (s : Side) (p : ℤ)
    (q r : ℕ) (c : RejectCode)
    → P (response b e id x s p q r c)
    → Extends P b.journal (send_response b e id x s p q r c).journal
unfolding send_response
send_response-Extends P b e id x s p q r c h =
    if_elim (λ (d : OrderBook). Extends P b.journal d.journal)
      (b.recover_mode || not b.response_ring) (λ _. same) (λ _. record_of _ _ h same)

module _ (s : Side) (p : ℤ) where
  report_fill-Extends :
      (b : OrderBook) (t m : Order) (q : ℕ)
      → 0 < q
      → Extends (IsFill p) b.journal (report_fill b t m s p q).journal
  unfolding report_fill response
  report_fill-Extends b t m q h =
      let x = b.gen 0 in
      let b1 = record b { gen = λ n. b.gen (suc n) } in
      let b2 =
        send_response b1 (fill_type t.qty_remaining) t.order_id x s p q t.qty_remaining no_reject in
      Extends-trans (IsFill p) b.journal b2.journal _
        (send_response-Extends (IsFill p) b1 _ t.order_id x s p q t.qty_remaining no_reject
          (record { price = refl; some_qty = h; kind = refl }))
        (send_response-Extends (IsFill p) b2 _ m.order_id x (opposite s) p q m.qty_remaining
          no_reject (record { price = refl; some_qty = h; kind = refl }))

  fill_one-Extends :
      (o : Order) (os : List Order) (m : Matching)
      → 0 < o.qty_remaining
      → 0 < m.taker.qty_remaining
      → Extends (IsFill p) m.book.journal (fill_one s p o os m).book.journal
  unfolding fill_one
  fill_one-Extends o os m h k =
      let q = min o.qty_remaining m.taker.qty_remaining in
      report_fill-Extends m.book (take_qty m.taker q) (take_qty o q) q (omega arith)

  next_round-Extends :
      (o : Order) (os : List Order) (m : Matching)
      → 0 < o.qty_remaining
      → 0 < m.taker.qty_remaining
      → Extends (IsFill p) m.book.journal (next_round s p o os m).book.journal
  unfolding drop_maker
  next_round-Extends o os m h k = fill_one-Extends o os m h k

  match_level-Extends :
      (os : List Order) (m : Matching)
      → All IsLive os
      → Extends (IsFill p) m.book.journal (match_level s p os m).book.journal
  match_level-Extends =
      match_level_rule s p
        (λ os m r. All IsLive os → Extends (IsFill p) m.book.journal r.book.journal) (λ m _. same)
        (λ o os m z _. same) (λ o os m z h live. fill_one-Extends o os m live.0.0 z)
        (λ o os m r z h ih live.
          Extends-trans (IsFill p) _ _ _ (next_round-Extends o os m live.0.0 z) (ih live.1))

-- A report of a match of a taker on side `s` that reaches as far as the index `px`: a fill at the
-- price of a level within that reach.
pub data IsTrade (b : OrderBook) (s : Side) (px : ℕ) (r : OrderResponse) : Type 0 where
  trade_at : (i : ℕ) → crossed s px i ≡ true → IsFill (pl_to_price b i) r → IsTrade b s px r

-- The price of a level depends on the constants of the book only.
IsTrade-same :
    (b c : OrderBook) (s : Side) (px : ℕ) (r : OrderResponse)
    → c.min_step ≡ b.min_step
    → c.price_index_offset ≡ b.price_index_offset
    → IsTrade c s px r
    → IsTrade b s px r
unfolding pl_to_price
IsTrade-same b c s px r e f (trade_at i h k) = trade_at i h (rw (← e, ← f) k)

remove_price_level-same :
    (b : OrderBook) (i : ℕ) (s : Side)
    → let r = remove_price_level b i s in
      (r.journal ≡ b.journal)
      × (r.min_step ≡ b.min_step)
      × (r.price_index_offset ≡ b.price_index_offset)
unfolding remove_price_level
remove_price_level-same b i s = ground arith

module _ (s : Side) (px : ℕ) where
  -- What a round or the loop does to the journal and the constants, from the book `b` on.
  record Traded (b c : OrderBook) : Type 0 where
    trades : Extends (IsTrade b s px) b.journal c.journal
    same_step : c.min_step ≡ b.min_step
    same_offset : c.price_index_offset ≡ b.price_index_offset

  Traded-trans : (a b c : OrderBook) → Traded a b → Traded b c → Traded a c
  Traded-trans a b c h k = record {
    trades = Extends-trans (IsTrade a s px) a.journal b.journal c.journal h.trades (
        Extends-map (IsTrade b s px) (IsTrade a s px) b.journal c.journal
          (λ r. IsTrade-same a b s px r h.same_step h.same_offset) k.trades);
    same_step = k.same_step ∙ h.same_step;
    same_offset = k.same_offset ∙ h.same_offset;
  }

  -- A change of the book that reports nothing and keeps the constants.
  Traded-quiet :
      (a b c : OrderBook)
      → Traded a b
      → (c.journal ≡ b.journal)
        × (c.min_step ≡ b.min_step)
        × (c.price_index_offset ≡ b.price_index_offset)
      → Traded a c
  Traded-quiet a b c h e = record {
    trades = rw (e.0) h.trades;
    same_step = e.1 ∙ h.same_step;
    same_offset = e.2 ∙ h.same_offset;
  }

  match_step-Traded :
      (i : ℕ) (t : Order) (b : OrderBook)
      → All IsLive (b.price_array i).orders
      → crossed s px i ≡ true
      → Traded b (match_step s i t b).1
  unfolding match_step
  match_step-Traded i t b live h =
      if_elim (λ (c : OrderBook). Traded b c) (m.level.order_count == 0)
        (λ _. Traded-quiet b b1 _ told (remove_price_level-same b1 i (opposite s))) (λ _. told)
    where
      start : Matching
      start = record { taker = t; level = b.price_array i; book = b }

      m : Matching
      m = match_level s (pl_to_price b i) (b.price_array i).orders start

      b1 : OrderBook
      b1 = set_level m.book i m.level

      told : Traded b b1
      told =
          let e = match_level-SameBook s (pl_to_price b i) (b.price_array i).orders start in
          record {
            trades =
                Extends-map (IsFill (pl_to_price b i)) (IsTrade b s px) b.journal m.book.journal
                  (λ r. trade_at i h)
                  (match_level-Extends s (pl_to_price b i) (b.price_array i).orders start live);
            same_step = e.same_step;
            same_offset = e.same_offset;
          }

  match_loop-Traded :
      (fuel : ℕ) (t : Order) (b : OrderBook)
      → IsTrading s
      → IsValid b s
      → Traded b (match_loop fuel s px t b).1
  unfolding match_loop
  match_loop-Traded zero t b trading v = record {
    trades = same;
    same_step = refl;
    same_offset = refl;
  }
  match_loop-Traded (suc fuel) t b trading v = elim (Option-cases (next_level s px t b)) [
    | inl e ↦ rw (e, match_loop) (record { trades = same; same_step = refl; same_offset = refl })
    | inr (i, e) ↦
        let there = next_level-mem s trading px t b i v e in
        let (t', b') = match_step s i t b in
        rw (e, match_loop)
          (Traded-trans b b' _
            (match_step-Traded i t b (v.live i) (next_level_found s px i t b e).2)
            (match_loop-Traded fuel t' b' trading (match_step-IsValid b s v trading t i there)))
  ]

  finish_match-same : (t : Order) (b : OrderBook) → (finish_match s px t b).journal ≡ b.journal
  unfolding finish_match rest_order get_or_create_price_level
  finish_match-same t b = ground arith

  -- Every record that matching adds to the journal reports a fill, of a positive quantity, at the
  -- price of a level that the taker's index reaches. The taker's side is Buy or Sell, and the book
  -- is valid.
  pub match_order-IsTrade :
      (taker : Order) (b : OrderBook)
      → IsTrading s
      → IsValid b s
      → Extends (IsTrade b s px) b.journal (match_order taker s px b).journal
  unfolding match_order
  match_order-IsTrade taker b trading v =
      let fuel = suc (length (b.active_levels (opposite s))) in
      let (t', b') = match_loop fuel s px taker b in
      rw (finish_match-same t' b') (match_loop-Traded fuel taker b trading v).trades
