-- ===== src/OrderBook/Amend.antt =====
-- Shrinking an order where it stands, as handleModifyOrder does.
use electronic_exchange_simu.Prelude.{
  ℕ, ◌<◌, ◌+◌, ◌-◌, false, some, List, [], ◌∷◌, ◌≡◌, refl, ap, ◌∙◌, arith, leb, ◌==◌, Bool-cases,
  ==_iff, inl, inr, length, All, sub64, sub64-mod,
}
use electronic_exchange_simu.Prelude.Int.{sub_ℕ}
use electronic_exchange_simu.Wire.{Side}
use electronic_exchange_simu.OrderBook.State.{Order, OrderBook, opposite}
use electronic_exchange_simu.OrderBook.Handlers.{
  find_order, set_order, resized, add_diff, modify_in_place,
}
use electronic_exchange_simu.OrderBook.Linked.{IsLinked}
use electronic_exchange_simu.OrderBook.Valid.{IsValid, IsLinked-frame, has_orders}
use electronic_exchange_simu.OrderBook.Fifo.{IsCounted, IsLive, rem_sum}

length-set_order : (o : Order) (os : List Order) → length (set_order o os) ≡ length os
unfolding set_order
length-set_order o [] = refl
length-set_order o (x ∷ os) = ground (arith, length-set_order o os)

has_orders-set_order : (o : Order) (os : List Order) → has_orders (set_order o os) ≡ has_orders os
unfolding set_order
has_orders-set_order o [] = refl
has_orders-set_order o (x ∷ os) = ground arith

set_order-IsLive :
    (o : Order) (os : List Order) → IsLive o → All IsLive os → All IsLive (set_order o os)
unfolding set_order
set_order-IsLive o [] h a = tt
set_order-IsLive o (x ∷ os) h a = ground (arith, set_order-IsLive o os h a.1)

rem_sum-set_order :
    (id : ℕ) (o n : Order) (os : List Order)
    → n.order_id ≡ id
    → find_order id os ≡ some o
    → rem_sum (set_order n os) + o.qty_remaining ≡ rem_sum os + n.qty_remaining
unfolding find_order set_order
rem_sum-set_order id o n [] e h = cc
rem_sum-set_order id o n (x ∷ os) e h = ground (arith, rem_sum-set_order id o n os e)

lt→leb : {a b : ℕ} → a < b → leb b a ≡ false
lt→leb h = ground arith

-- The addition of a negative difference.
add_diff-sub64 : (t qty old : ℕ) → qty < old → add_diff t (sub_ℕ qty old) ≡ sub64 t (old - qty)
add_diff-sub64 t qty old lt = rw (lt→leb lt) (ap (sub64 t) (omega arith))

module _ (b : OrderBook) (s : Side) (v : IsValid b s) (i : ℕ) (o : Order) (qty rem : ℕ)
    (found : find_order o.order_id (b.price_array i).orders ≡ some o)
    (smaller : qty < o.qty_original) (less : rem + (o.qty_original - qty) ≡ o.qty_remaining)
    (alive : IsLive (resized o qty rem)) where
  shrunk-IsCounted : IsCounted (record (b.price_array i) {
    orders = set_order (resized o qty rem) (b.price_array i).orders;
    total_qty = add_diff (b.price_array i).total_qty (sub_ℕ qty o.qty_original);
  })
  shrunk-IsCounted = record {
    counted = rw length-set_order ((v.counted i).counted);
    totalled =
        add_diff-sub64 (b.price_array i).total_qty qty o.qty_original smaller
        ∙ sub64-mod (b.price_array i).total_qty _ (o.qty_original - qty) (
            omega (
              arith,
              (v.counted i).totalled,
              rem_sum-set_order o.order_id o (resized o qty rem) (b.price_array i).orders refl
                  found,
              less,
            ));
  }

  -- Shrinking an order where it stands keeps the book's invariant. The level holds the order, its
  -- new quantity is less than before, and its new remaining quantity is positive, at most its new
  -- quantity, which fits 64 bits, and below the old one by as much, and the book is valid.
  pub modify_in_place-IsValid : IsValid (modify_in_place b i o qty rem) s
  unfolding modify_in_place
  modify_in_place-IsValid = record {
    own = linked s v.own;
    facing = linked (opposite s) v.facing;
    uncrossed = v.uncrossed;
    counted = λ k. elim (Bool-cases (i == k)) [
      | inl q ↦ rw q shrunk-IsCounted
      | inr q ↦ rw q (v.counted k)
    ];
    live = λ k. elim (Bool-cases (i == k)) [
      | inl q ↦
          rw q (set_order-IsLive (resized o qty rem) (b.price_array i).orders alive (v.live i))
      | inr q ↦ rw q (v.live k)
    ];
    occupied = λ k. elim (Bool-cases (i == k)) [
      | inl q ↦ rw (q, has_orders-set_order, (==_iff i k).0 q) (v.occupied k)
      | inr q ↦ rw q (v.occupied k)
    ];
    short = λ k. elim (Bool-cases (i == k)) [
      | inl q ↦ rw (q, length-set_order) (v.short i)
      | inr q ↦ rw q (v.short k)
    ];
  }
    where
      linked : (u : Side) → IsLinked b u → IsLinked (modify_in_place b i o qty rem) u
      linked u l =
          IsLinked-frame b (modify_in_place b i o qty rem) u l refl refl
            (λ k e. elim (Bool-cases (i == k)) [
              | inl q ↦ rw q (ap (λ j. (b.price_array j).better) ((==_iff i k).0 q))
              | inr q ↦ rw q
            ])
            (λ k e. elim (Bool-cases (i == k)) [
              | inl q ↦ rw q (ap (λ j. (b.price_array j).worse) ((==_iff i k).0 q))
              | inr q ↦ rw q
            ])
