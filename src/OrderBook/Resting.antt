-- ===== src/OrderBook/Resting.antt =====
-- The end of OrderBook::match: what is left of the taker rests at its price, and the book is valid.
use electronic_exchange_simu.Prelude.{
  ℕ, suc, ◌<◌, true, false, none, ◌≡◌, refl, ap, subst, ◌∙◌, arith, ltb, ◌==◌, update, Bool-cases,
  ==_iff, inl, inr, length, u64_mod,
}
use electronic_exchange_simu.Wire.{Side}
use electronic_exchange_simu.OrderBook.State.{Order, OrderBook, opposite}
use electronic_exchange_simu.OrderBook.Levels.{get_or_create_price_level}
use electronic_exchange_simu.OrderBook.Match.{
  crossed, next_level, match_loop, rest_order, finish_match, match_order,
}
use electronic_exchange_simu.OrderBook.Keys.{has}
use electronic_exchange_simu.OrderBook.Linked.{
  keys_of, keys-create, get_or_create_price_level-IsLinked,
}
use electronic_exchange_simu.OrderBook.Pointers.{SameOrders, create-SameOrders, create-keys}
use electronic_exchange_simu.OrderBook.Valid.{
  IsValid, IsTrading, HasRoom, IsValid-same, create-frame, set_side_ne,
}
use electronic_exchange_simu.OrderBook.Emptied.{crossed_self, SameOrders-IsCounted}
use electronic_exchange_simu.OrderBook.Fifo.{IsLive, IsSized}
use electronic_exchange_simu.OrderBook.Taken.{eq_self, ==_false}
use electronic_exchange_simu.OrderBook.MatchLoop.{
  match_loop-IsValid, match_loop-stops, match_loop-HasRoom, match_loop-IsSized, next_level-none,
}
use electronic_exchange_simu.OrderBook.Stored.{IsReady, stored, stored-IsValid, count-has_orders}

module _ (b : OrderBook) (s : Side) (trading : IsTrading s) (v : IsValid b s) (px : ℕ)
    (clear : (k : ℕ) → keys_of b (opposite s) k ≡ true → crossed s px k ≡ false) where
  -- A price that reaches no level of the other side is no key of that side.
  not_facing : keys_of b (opposite s) px ≡ false
  not_facing = ground (arith, clear px, crossed_self s px)

  found-IsReady : ltb 0 (b.price_array px).order_count ≡ true → IsReady b s px
  found-IsReady h = record {
    own = v.own;
    facing = v.facing;
    uncrossed = v.uncrossed;
    counted = v.counted;
    live = v.live;
    there = ground (
      arith,
      count-has_orders (b.price_array px) (v.counted px) (v.short px),
      h,
      v.occupied px,
      not_facing,
    );
    occupied = λ i n. v.occupied i;
    short = v.short;
  }

  module _ (h : ltb 0 (b.price_array px).order_count ≡ false) where
    absent : keys_of b s px ≡ false
    absent = ground (
      arith,
      count-has_orders (b.price_array px) (v.counted px) (v.short px),
      h,
      v.occupied px,
      not_facing,
    )

    abbrev created : OrderBook
    created = get_or_create_price_level b px s

    created-own : keys_of created s ≡ update (keys_of b s) px true
    created-own = keys-create b px s v.own absent h

    created-facing : keys_of created (opposite s) ≡ keys_of b (opposite s)
    created-facing = ap has (
        ap (λ f. f (opposite s)) (create-keys b px s h)
        ∙ set_side_ne b.active_levels s (opposite s) _ trading)

    same : (k : ℕ) → SameOrders (b.price_array k) (created.price_array k)
    same k = create-SameOrders b px s k

    created-IsReady : IsReady created s px
    created-IsReady = record {
      own = get_or_create_price_level-IsLinked b px s v.own absent h;
      facing = create-frame b px s (opposite s) trading v.own v.facing apart absent not_facing h;
      uncrossed = λ i j hi hj. elim (Bool-cases (px == i)) [
        | inl e ↦
            subst (λ x. crossed s x j ≡ false) ((==_iff px i).0 e)
              (clear j (subst (λ K. K j ≡ true) created-facing hj))
        | inr e ↦
            v.uncrossed i j (ground (arith, subst (λ K. K i ≡ true) created-own hi, e))
              (subst (λ K. K j ≡ true) created-facing hj)
      ];
      counted = λ k. SameOrders-IsCounted (same k) (v.counted k);
      live = λ k. rw ((same k).orders) (v.live k);
      there = rw (created-own, eq_self px);
      occupied =
          λ k n. rw ((same k).orders, created-own, created-facing, ==_false n) (v.occupied k);
      short = λ k. rw ((same k).orders) (v.short k);
    }
      where
        apart : (k : ℕ) → keys_of b (opposite s) k ≡ true → keys_of b s k ≡ false
        apart k e = ground (arith, v.uncrossed k k, crossed_self s k)

found :
    (b : OrderBook) (px : ℕ) (s : Side)
    → ltb 0 (b.price_array px).order_count ≡ true
    → get_or_create_price_level b px s ≡ b
unfolding get_or_create_price_level
found b px s h = rw h

-- What is left of the taker rests in a valid book.
pub rest_order-IsValid :
    (b : OrderBook) (s : Side) (px : ℕ) (o : Order)
    → IsTrading s
    → IsValid b s
    → ((k : ℕ) → keys_of b (opposite s) k ≡ true → crossed s px k ≡ false)
    → IsLive o
    → suc (length (b.price_array px).orders) < u64_mod
    → IsValid (rest_order s px o b) s
unfolding rest_order
rest_order-IsValid b s px o trading v clear alive room =
    elim (Bool-cases (ltb 0 (b.price_array px).order_count)) [
      | inl h ↦ rw (found b px s h) (
          IsValid-same (stored b s px (found-IsReady b s trading v px clear h) o alive room) _ s
            (stored-IsValid b s px (found-IsReady b s trading v px clear h) o alive room) refl refl
            refl)
      | inr h ↦
          let ready = created-IsReady b s trading v px clear h in
          let roomy : suc (length ((get_or_create_price_level b px s).price_array px).orders)
              < u64_mod =
            rw ((create-SameOrders b px s px).orders) room in
          IsValid-same (stored (get_or_create_price_level b px s) s px ready o alive roomy) _ s
            (stored-IsValid (get_or_create_price_level b px s) s px ready o alive roomy) refl refl
            refl
    ]

finish_match-IsValid :
    (b : OrderBook) (s : Side) (px : ℕ) (t : Order)
    → IsTrading s
    → IsValid b s
    → IsSized t
    → next_level s px t b ≡ none
    → HasRoom b
    → IsValid (finish_match s px t b) s
unfolding finish_match
finish_match-IsValid b s px t trading v sized stopped room =
    elim (Bool-cases (t.qty_remaining == 0)) [
      | inl e ↦ rw e (IsValid-same b _ s v refl refl refl)
      | inr e ↦ rw e (
          rest_order-IsValid b s px t trading v
            (next_level-none s px t b trading v.facing (ground arith) stopped) (ground arith, sized)
            (room px))
    ]

-- Matching an order and resting what is left of it keeps the book's invariant. The taker's side is
-- Buy or Sell, what remains of it is at most its quantity, which fits 64 bits, the book is valid,
-- and no level is so long that one more order overflows its count.
pub match_order-IsValid :
    (b : OrderBook) (s : Side) (px : ℕ) (taker : Order)
    → IsTrading s
    → IsValid b s
    → IsSized taker
    → HasRoom b
    → IsValid (match_order taker s px b) s
unfolding match_order
match_order-IsValid b s px taker trading v sized room =
    let fuel = suc (length (b.active_levels (opposite s))) in
    let (t', b') = match_loop fuel s px taker b in
    finish_match-IsValid b' s px t' trading (match_loop-IsValid s trading px fuel taker b v)
      (match_loop-IsSized s trading px fuel taker b v sized)
      (match_loop-stops s trading px fuel taker b v (omega arith))
      (match_loop-HasRoom s trading px fuel taker b v room)
