-- ===== src/OrderBook/Stored.antt =====
-- A level of a linked book gets one more order, and the book is valid.
use electronic_exchange_simu.Prelude.{
  ℕ, suc, ◌<◌, true, false, ◌||◌, List, [], ◌∷◌, ◌++◌, ◌≡◌, refl, sym, ap, subst, ◌∙◌, ◌≢◌, arith,
  ltb, ◌==◌, Bool-cases, ==_iff, inl, inr, length, length-append, sum_by-append, All, All-append,
  u64_mod, add64-mod,
}
use electronic_exchange_simu.Wire.{Side}
use electronic_exchange_simu.OrderBook.State.{Order, PriceLevel, OrderBook, opposite, set_level}
use electronic_exchange_simu.OrderBook.Levels.{insert_order_to_level}
use electronic_exchange_simu.OrderBook.Match.{crossed}
use electronic_exchange_simu.OrderBook.Linked.{IsLinked, keys_of}
use electronic_exchange_simu.OrderBook.Valid.{IsValid, IsLinked-frame, has_orders}
use electronic_exchange_simu.OrderBook.Fifo.{IsCounted, IsLive, rem_sum}
use electronic_exchange_simu.OrderBook.Taken.{has_orders-length}

has_orders-append : (os : List Order) (o : Order) → has_orders (os ++ o ∷ []) ≡ true
has_orders-append [] o = refl
has_orders-append (x ∷ os) o = refl

-- The level with one more order.
insert-IsCounted :
    (pl : PriceLevel) (o : Order) → IsCounted pl → IsCounted (insert_order_to_level pl o)
unfolding insert_order_to_level
insert-IsCounted pl o c = record {
  counted =
      add64-mod pl.order_count (length pl.orders) 1 c.counted
      ∙ rw (length-append pl.orders (o ∷ []));
  totalled =
      add64-mod pl.total_qty (rem_sum pl.orders) o.qty_remaining c.totalled
      ∙ rw (sum_by-append (λ o. o.qty_remaining) pl.orders (o ∷ [])) (omega arith);
}

-- A book whose chains are right and hold the level `px` of side `s`, which is yet to get an order.
pub record IsReady (b : OrderBook) (s : Side) (px : ℕ) : Type 0 where
  pub own : IsLinked b s
  pub facing : IsLinked b (opposite s)
  pub uncrossed :
      (i j : ℕ) → keys_of b s i ≡ true → keys_of b (opposite s) j ≡ true → crossed s i j ≡ false
  pub counted : (i : ℕ) → IsCounted (b.price_array i)
  pub live : (i : ℕ) → All IsLive (b.price_array i).orders
  pub there : keys_of b s px ≡ true
  pub occupied :
      (i : ℕ)
      → px ≢ i
      → has_orders (b.price_array i).orders ≡ (keys_of b s i || keys_of b (opposite s) i)
  pub short : (i : ℕ) → length (b.price_array i).orders < u64_mod

module _ (b : OrderBook) (s : Side) (px : ℕ) (v : IsReady b s px) (o : Order) (alive : IsLive o)
    (room : suc (length (b.price_array px).orders) < u64_mod) where
  abbrev pub stored : OrderBook
  stored = set_level b px (insert_order_to_level (b.price_array px) o)

  stored-IsLinked : (u : Side) → IsLinked b u → IsLinked stored u
  unfolding insert_order_to_level
  stored-IsLinked u l =
      IsLinked-frame b stored u l refl refl
        (λ k e. elim (Bool-cases (px == k)) [
          | inl q ↦ rw q (ap (λ j. (b.price_array j).better) ((==_iff px k).0 q))
          | inr q ↦ rw q
        ])
        (λ k e. elim (Bool-cases (px == k)) [
          | inl q ↦ rw q (ap (λ j. (b.price_array j).worse) ((==_iff px k).0 q))
          | inr q ↦ rw q
        ])

  pub stored-IsValid : IsValid stored s
  unfolding insert_order_to_level
  stored-IsValid = record {
    own = stored-IsLinked s v.own;
    facing = stored-IsLinked (opposite s) v.facing;
    uncrossed = v.uncrossed;
    counted = λ k. elim (Bool-cases (px == k)) [
      | inl q ↦ rw q (insert-IsCounted (b.price_array px) o (v.counted px))
      | inr q ↦ rw q (v.counted k)
    ];
    live = λ k. elim (Bool-cases (px == k)) [
      | inl q ↦ rw q (All-append IsLive (b.price_array px).orders (o ∷ []) (v.live px) (alive, tt))
      | inr q ↦ rw q (v.live k)
    ];
    occupied = λ k. elim (Bool-cases (px == k)) [
      | inl q ↦
          rw (q, has_orders-append)
            (sym (
              subst (λ x. (keys_of b s x || keys_of b (opposite s) x) ≡ true) ((==_iff px k).0 q)
                (rw v.there)))
      | inr q ↦ rw q (v.occupied k (λ e. ground arith))
    ];
    short = λ k. elim (Bool-cases (px == k)) [
      | inl q ↦ rw (q, length-append) (omega (arith, room))
      | inr q ↦ rw q (v.short k)
    ];
  }

-- The count of a level tells whether it has orders.
pub count-has_orders :
    (pl : PriceLevel)
    → IsCounted pl
    → length pl.orders < u64_mod
    → ltb 0 pl.order_count ≡ has_orders pl.orders
count-has_orders pl c h = rw has_orders-length (ground (arith, c.counted))
