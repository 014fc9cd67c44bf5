-- ===== src/OrderBook/MatchStep.antt =====
-- One round of the outer loop of OrderBook::match keeps the book's invariant, and uses up the taker
-- or the level.
use electronic_exchange_simu.Prelude.{
  ℕ, suc, ◌<◌, ◌≤◌, ◌-◌, true, false, not, List, [], ◌≡◌, refl, sym, ap, subst, ◌∙◌, ◌⊎◌, arith,
  ◌==◌, if◌then◌else◌, Bool-cases, ==_iff, inl, inr, All, length, u64_mod,
}
use electronic_exchange_simu.Wire.{Side}
use electronic_exchange_simu.OrderBook.State.{Order, OrderBook, set_level, opposite}
use electronic_exchange_simu.OrderBook.Price.{pl_to_price}
use electronic_exchange_simu.OrderBook.Levels.{erase_key, remove_price_level}
use electronic_exchange_simu.OrderBook.Match.{Matching, match_level, match_step}
use electronic_exchange_simu.OrderBook.Keys.{has, length-erase_key}
use electronic_exchange_simu.OrderBook.Pointers.{remove-SameOrders, remove-keys}
use electronic_exchange_simu.OrderBook.Linked.{IsLinked, keys_of, set_side_self}
use electronic_exchange_simu.OrderBook.Valid.{IsValid, IsTrading, IsLinked-frame, has_orders}
use electronic_exchange_simu.OrderBook.Emptied.{IsValidBut, kept-IsValid, removed-IsValid}
use electronic_exchange_simu.OrderBook.Fifo.{
  IsCounted, IsLive, rem_sum, after_taking, LevelMatched, match_level-LevelMatched, SameBook,
  match_level-SameBook,
}
use electronic_exchange_simu.OrderBook.Taken.{
  length-after_taking, after_taking-IsLive, after_taking-full, has_orders-length, eq_self, ==_false,
}

module _ (b : OrderBook) (s : Side) (v : IsValid b s) (trading : IsTrading s) (t : Order) (i : ℕ)
    (there : keys_of b (opposite s) i ≡ true) where
  -- The inner loop's state before and after, and the book with the level written back.
  abbrev pub start : Matching
  start = record { taker = t; level = b.price_array i; book = b }

  abbrev pub matched : Matching
  matched = match_level s (pl_to_price b i) (b.price_array i).orders start

  abbrev pub written : OrderBook
  written = set_level matched.book i matched.level

  matched-LevelMatched : LevelMatched (b.price_array i).orders start matched
  matched-LevelMatched =
      match_level-LevelMatched s (pl_to_price b i) (b.price_array i).orders start (v.live i)

  pub matched-SameBook : SameBook b matched.book
  matched-SameBook = match_level-SameBook s (pl_to_price b i) (b.price_array i).orders start

  pub level_orders : matched.level.orders ≡ after_taking t.qty_remaining (b.price_array i).orders
  level_orders = matched-LevelMatched.queue refl

  written-IsCounted : (k : ℕ) → IsCounted (written.price_array k)
  written-IsCounted k = elim (Bool-cases (i == k)) [
    | inl e ↦ rw e (matched-LevelMatched.counts refl (v.counted i))
    | inr e ↦ rw (e, matched-SameBook.same_array) (v.counted k)
  ]

  written-IsLive : (k : ℕ) → All IsLive (written.price_array k).orders
  written-IsLive k = elim (Bool-cases (i == k)) [
    | inl e ↦
        rw (e, level_orders)
          (after_taking-IsLive t.qty_remaining (b.price_array i).orders (v.live i))
    | inr e ↦ rw (e, matched-SameBook.same_array) (v.live k)
  ]

  written-short : (k : ℕ) → length (written.price_array k).orders < u64_mod
  written-short k = elim (Bool-cases (i == k)) [
    | inl e ↦
        rw (e, level_orders)
          (omega (arith, length-after_taking t.qty_remaining (b.price_array i).orders, v.short i))
    | inr e ↦ rw (e, matched-SameBook.same_array) (v.short k)
  ]

  written-IsLinked : (u : Side) → IsLinked b u → IsLinked written u
  written-IsLinked u l =
      IsLinked-frame b written u l (ap (λ f. f u) matched-SameBook.same_keys)
        (ap (λ f. f u) matched-SameBook.same_best)
        (λ k e. elim (Bool-cases (i == k)) [
          | inl q ↦
              rw q (
                matched-LevelMatched.better ∙ ap (λ j. (b.price_array j).better) ((==_iff i k).0 q))
          | inr q ↦ rw (q, matched-SameBook.same_array)
        ])
        (λ k e. elim (Bool-cases (i == k)) [
          | inl q ↦
              rw q
                (matched-LevelMatched.worse ∙ ap (λ j. (b.price_array j).worse) ((==_iff i k).0 q))
          | inr q ↦ rw (q, matched-SameBook.same_array)
        ])

  abbrev pub left_orders : ℕ → List Order
  left_orders k =
      if i == k
      then after_taking t.qty_remaining (b.price_array i).orders
      else (b.price_array k).orders

  pub left_self : left_orders i ≡ after_taking t.qty_remaining (b.price_array i).orders
  left_self = rw (eq_self i)

  no_orders : has_orders matched.level.orders ≡ false → matched.level.orders ≡ []
  no_orders h = ground (arith, h)

  -- The count is 0 just if no order is left.
  count_zero : (matched.level.order_count == 0) ≡ not (has_orders matched.level.orders)
  count_zero = ground (
    arith,
    has_orders-length matched.level.orders,
    (matched-LevelMatched.counts refl (v.counted i)).counted,
    ap length level_orders,
    length-after_taking t.qty_remaining (b.price_array i).orders,
    v.short i,
  )

  pub written-keys : (u : Side) → keys_of written u ≡ keys_of b u
  written-keys u = ap (λ f. has (f u)) matched-SameBook.same_keys

  written-IsValidBut : IsValidBut written s i
  written-IsValidBut = record {
    own = written-IsLinked s v.own;
    facing = written-IsLinked (opposite s) v.facing;
    uncrossed = rw (written-keys s, written-keys (opposite s)) v.uncrossed;
    counted = written-IsCounted;
    live = written-IsLive;
    there = rw (written-keys (opposite s)) there;
    occupied = λ k n.
        rw (written-keys s, written-keys (opposite s), ==_false n, matched-SameBook.same_array)
          (v.occupied k);
    short = written-short;
  }

  -- The round, by whether the level keeps an order.
  pub match_step-kept :
      has_orders matched.level.orders ≡ true → match_step s i t b ≡ (matched.taker, written)
  unfolding match_step
  match_step-kept h = ground (arith, count_zero, h)

  pub match_step-emptied :
      has_orders matched.level.orders ≡ false
      → match_step s i t b ≡ (matched.taker, remove_price_level written i (opposite s))
  unfolding match_step
  match_step-emptied h = ground (arith, count_zero, h)

  written_orders : (k : ℕ) → (written.price_array k).orders ≡ left_orders k
  written_orders k = elim (Bool-cases (i == k)) [
    | inl e ↦ rw e level_orders
    | inr e ↦ rw (e, matched-SameBook.same_array)
  ]

  -- The queues after the round.
  pub match_step-orders : (k : ℕ) → ((match_step s i t b).1.price_array k).orders ≡ left_orders k
  match_step-orders k = elim (Bool-cases (has_orders matched.level.orders)) [
    | inl h ↦ rw (match_step-kept h) (written_orders k)
    | inr h ↦
        rw (match_step-emptied h)
          ((remove-SameOrders written i (opposite s) k).orders ∙ written_orders k)
  ]

  -- The keys of the other side after the round: a level without orders has left them.
  pub match_step-keys :
      ((match_step s i t b).1.active_levels (opposite s) ≡ b.active_levels (opposite s))
      ⊎ (((match_step s i t b).1.active_levels (opposite s)
            ≡ erase_key i (b.active_levels (opposite s)))
          × (left_orders i ≡ []))
  match_step-keys = elim (Bool-cases (has_orders matched.level.orders)) [
    | inl h ↦ inl (rw (match_step-kept h) (ap (λ f. f (opposite s)) matched-SameBook.same_keys))
    | inr h ↦ inr (
      rw (match_step-emptied h, remove-keys written i (opposite s), set_side_self)
          (ap (λ f. erase_key i (f (opposite s))) matched-SameBook.same_keys),
      rw (eq_self i) (sym level_orders ∙ no_orders h),
    )
  ]

  -- The round keeps the invariant.
  pub match_step-IsValid : IsValid (match_step s i t b).1 s
  match_step-IsValid = elim (Bool-cases (has_orders matched.level.orders)) [
    | inl h ↦
        rw (match_step-kept h)
          (kept-IsValid written s trading i written-IsValidBut (rw (eq_self i) h))
    | inr h ↦
        rw (match_step-emptied h)
          (removed-IsValid written s trading i written-IsValidBut (rw (eq_self i) h))
  ]

  taker-match_step : (match_step s i t b).0 ≡ matched.taker
  unfolding match_step
  taker-match_step = refl

  used_up : has_orders matched.level.orders ≡ true → matched.taker.qty_remaining ≡ 0
  used_up h = ground (
    arith,
    level_orders,
    matched-LevelMatched.left,
    after_taking-full t.qty_remaining (b.price_array i).orders,
  )

  fewer :
      suc (length ((remove_price_level written i (opposite s)).active_levels (opposite s)))
      ≡ length (b.active_levels (opposite s))
  fewer =
      rw (remove-keys written i (opposite s), set_side_self)
        (length-erase_key i (written.active_levels (opposite s))
            (rw (written-keys (opposite s)) there)
          ∙ ap (λ f. length (f (opposite s))) matched-SameBook.same_keys)

  -- It uses up the taker or one level of the side that it matches against.
  pub match_step-progress :
      ((match_step s i t b).0.qty_remaining ≡ 0)
      ⊎ (suc (length ((match_step s i t b).1.active_levels (opposite s)))
          ≡ length (b.active_levels (opposite s)))
  match_step-progress = elim (Bool-cases (has_orders matched.level.orders)) [
    | inl h ↦ rw (match_step-kept h) (inl (used_up h))
    | inr h ↦ rw (match_step-emptied h) (inr fewer)
  ]

  -- The taker changes in its remaining quantity only, and loses what the level's orders lose.
  pub match_step-taker :
      ((match_step s i t b).0.qty_remaining ≡ t.qty_remaining - rem_sum (b.price_array i).orders)
      × ((q : ℕ)
          → record (match_step s i t b).0 { qty_remaining = q } ≡ record t { qty_remaining = q })
  match_step-taker =
      rw taker-match_step (matched-LevelMatched.left, matched-LevelMatched.same_taker)

  -- No queue gets longer.
  pub length-match_step :
      (k : ℕ)
      → length ((match_step s i t b).1.price_array k).orders ≤ length (b.price_array k).orders
  length-match_step k = elim (Bool-cases (has_orders matched.level.orders)) [
    | inl h ↦ rw (match_step-kept h) (shorter k)
    | inr h ↦
        rw (match_step-emptied h, (remove-SameOrders written i (opposite s) k).orders) (shorter k)
  ]
    where
      shorter : (j : ℕ) → length (written.price_array j).orders ≤ length (b.price_array j).orders
      shorter j = elim (Bool-cases (i == j)) [
        | inl e ↦
            rw (e, level_orders)
              (subst
                (λ x.
                  length (after_taking t.qty_remaining (b.price_array i).orders)
                  ≤ length (b.price_array x).orders)
                ((==_iff i j).0 e) (length-after_taking t.qty_remaining (b.price_array i).orders))
        | inr e ↦ rw (e, matched-SameBook.same_array) (omega arith)
      ]
