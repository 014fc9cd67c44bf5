-- ===== src/Feed/Told.antt =====
-- src/L3Book.cpp: an update of an L3 book reports each total that it changes.
use electronic_exchange_simu.Prelude.{
  ℕ, ◌==◌, ◌&&◌, ltb, true, false, Option, none, some, [], ◌∷◌, ◌≡◌, refl, sym, ap, ◌∙◌, subst,
  arith, if◌then◌else◌, if_elim, Bool-cases, inl, inr, ==_iff, update,
}
use electronic_exchange_simu.Prelude.Int.{ℤ, eq_ℤ, eq_ℤ_iff, sub_ℕ}
use electronic_exchange_simu.Wire.{
  Side, no_side, side_eq, ExecType, exec_new, partial_fill, fill, rejected, cancelled, replaced,
  order_status, complete,
}
use electronic_exchange_simu.OrderBook.Handlers.{add_diff}
use electronic_exchange_simu.Feed.L3Book.{
  L3Book, L3Order, L3PriceLevel, book_side, level_or_new, push_order, erase_node, level_of_queue,
  less_qty, call, set_l3_level, remove_found, remove_from_queues, rem_diff, is_replaced,
  needs_requeue, requeue_order, update_in_place, update_found, update_side, update_l3,
}
use electronic_exchange_simu.Feed.Pending.{latest}
use electronic_exchange_simu.Feed.Latest.{value_or}
use electronic_exchange_simu.Feed.Levels.{
  book_side-trading, level_of_queue-total, less_qty-all, add_diff-all, side_eq-true,
  set_l3_level-at, total_qty_at, IsSummed,
}

module _ (s : Side) (p : ℤ) (trading : side_eq s no_side ≡ false) (base : ℕ) where
  -- The latest call for the price, or the base if there was none, is the total of the level.
  abbrev pub Told : L3Book → Type 0
  Told b = value_or (latest b.calls s p none) base ≡ total_qty_at b s p

  push_order-Told :
      (b : L3Book) (order_id : ℕ) (side : Side) (price : ℤ) (qty q_rem : ℕ)
      → side_eq side no_side ≡ false
      → Told b
      → Told (push_order b order_id side price qty q_rem)
  unfolding push_order
  push_order-Told b order_id side price qty q_rem sided h = ground arith

  call-Told :
      (b : L3Book) (t : Side) (x : ℤ) (v : ℕ)
      → side_eq t no_side ≡ false
      → total_qty_at b t x ≡ v
      → Told b
      → Told (call b t x v)
  call-Told b t x v sided same h = elim (Bool-cases (side_eq t s && eq_ℤ x p)) [
    | inl e ↦ rw e (
        subst (λ u. v ≡ total_qty_at b u p) (side_eq-true t s (ground arith))
          (subst (λ y. v ≡ total_qty_at b t y) ((eq_ℤ_iff x p).0 (ground arith)) (sym same)))
    | inr e ↦ rw e h
  ]

  -- The level is changed, and its new total is reported.
  report-Told :
      (b b1 : L3Book) (t : Side) (x : ℤ) (level : Option L3PriceLevel) (v : ℕ)
      → b1.levels ≡ (set_l3_level b t x level).levels
      → b1.calls ≡ record { side = t; price = x; total_qty = v } ∷ b.calls
      → (level_or_new level).total_qty ≡ v
      → Told b
      → Told b1
  report-Told b b1 t x level v levels calls same h =
      subst (λ cs. value_or (latest cs s p none) base ≡ total_qty_at b1 s p) (sym calls)
        (subst
          (λ l.
            value_or (latest (record { side = t; price = x; total_qty = v } ∷ b.calls) s p none)
              base
            ≡ (level_or_new l).total_qty)
          (sym (ap (λ f. f s p) levels ∙ set_l3_level-at b t x level s p))
          (elim (Bool-cases (side_eq t s && eq_ℤ x p)) [
            | inl e ↦ rw e (sym same)
            | inr e ↦ rw e h
          ]))

  remove_found-Told : (b : L3Book) (o : L3Order) → IsSummed b o → Told b → Told (remove_found b o)
  unfolding remove_found
  remove_found-Told b o summed h = found (b.levels o.side o.price) refl
    where
      after : L3PriceLevel → L3Book
      after l =
          call
            (set_l3_level b o.side o.price
              (level_of_queue (less_qty l.total_qty o.qty_rem) (erase_node o.queue_pos l.queue)))
            o.side o.price (less_qty l.total_qty o.qty_rem)

      found :
          (l : Option L3PriceLevel)
          → b.levels o.side o.price ≡ l
          → Told (elim l [ none ↦ call b o.side o.price 0 | some l ↦ after l ])
      found none e =
          call-Told b o.side o.price 0 summed.trading (ap (λ l. (level_or_new l).total_qty) e) h
      found (some l) e =
          report-Told b (after l) o.side o.price
            (level_of_queue (less_qty l.total_qty o.qty_rem) (erase_node o.queue_pos l.queue))
            (less_qty l.total_qty o.qty_rem) refl refl
            (level_of_queue-total (less_qty l.total_qty o.qty_rem) (erase_node o.queue_pos l.queue)
              (λ z. less_qty-all l.total_qty o.qty_rem (
                ap (λ l. (level_or_new l).total_qty) (sym e)
                ∙ summed.alone (ap (λ l. erase_node o.queue_pos (level_or_new l).queue) e ∙ z))))
            h

  remove_from_queues-Told :
      (b : L3Book) (order_id : ℕ)
      → ((o : L3Order) → b.orders order_id ≡ some o → IsSummed b o)
      → Told b
      → Told (remove_from_queues b order_id)
  unfolding remove_from_queues
  remove_from_queues-Told b order_id summed h = found (b.orders order_id) refl
    where
      found :
          (x : Option L3Order)
          → b.orders order_id ≡ x
          → Told (elim x [ none ↦ b | some o ↦ remove_found b o ])
      found none e = h
      found (some o) e = remove_found-Told b o (summed o e) h

  update_order-Told :
      (b : L3Book) (o : L3Order) (orders : ℕ → Option L3Order) (left : Option L3PriceLevel)
      (total : ℕ)
      → side_eq o.side no_side ≡ false
      → (level_or_new left).total_qty ≡ total
      → Told b
      → Told (record (call (set_l3_level b (book_side o.side) o.price left) o.side o.price total) {
        orders = orders;
      })
  update_order-Told b o orders left total sided same h =
      report-Told b
        (record (call (set_l3_level b (book_side o.side) o.price left) o.side o.price total) {
          orders = orders;
        })
        o.side o.price left total
        (ap (λ u. (set_l3_level b u o.price left).levels) (book_side-trading o.side sided)) refl
        same h

  update_in_place-Told :
      (b : L3Book) (type : ExecType) (o : L3Order) (order_id qty q_rem : ℕ)
      → IsSummed b o
      → Told b
      → Told (update_in_place b type o order_id qty q_rem)
  unfolding update_in_place
  update_in_place-Told b type o order_id qty q_rem summed h =
      update_order-Told b o (update b.orders order_id (if q_rem == 0 then none else some o'))
        (if q_rem == 0
          then level_of_queue total (erase_node o.queue_pos level.queue)
          else some (record { total_qty = total; queue = level.queue }))
        total summed.trading
        (if_elim (λ l. (level_or_new l).total_qty ≡ total) (q_rem == 0)
          (λ z. level_of_queue-total total (erase_node o.queue_pos level.queue) (none_left z))
          (λ _. refl))
        h
    where
      o' : L3Order
      o' = record o { qty_rem = q_rem; qty_req = if is_replaced type then qty else o.qty_req }

      level : L3PriceLevel
      level = level_or_new (b.levels (book_side o.side) o.price)

      total : ℕ
      total = add_diff level.total_qty (rem_diff q_rem o)

      none_left :
          q_rem == 0 ≡ true
          → erase_node o.queue_pos level.queue ≡ []
          → add_diff level.total_qty (rem_diff q_rem o) ≡ 0
      none_left z =
          subst
            (λ q.
              erase_node o.queue_pos level.queue ≡ []
              → add_diff level.total_qty (sub_ℕ q o.qty_rem) ≡ 0)
            (sym ((==_iff q_rem 0).0 z))
            (rw (book_side-trading o.side summed.trading)
              (λ a. add_diff-all (total_qty_at b o.side o.price) o.qty_rem (summed.alone a)))

  requeue_order-Told :
      (b : L3Book) (o : L3Order) (order_id : ℕ) (side : Side) (price : ℤ) (qty q_rem : ℕ)
      → side_eq side no_side ≡ false
      → ((o : L3Order) → b.orders order_id ≡ some o → IsSummed b o)
      → Told b
      → Told (requeue_order b o order_id side price qty q_rem)
  unfolding requeue_order
  requeue_order-Told b o order_id side price qty q_rem sided summed h =
      if_elim Told (ltb 0 q_rem)
        (λ _.
          push_order-Told (remove_from_queues b order_id) order_id side price qty q_rem sided
            (remove_from_queues-Told b order_id summed h))
        (λ _. remove_from_queues-Told b order_id summed h)

  update_found-Told :
      (b : L3Book) (type : ExecType) (order_id : ℕ) (side : Side) (price : ℤ) (qty q_rem : ℕ)
      → side_eq side no_side ≡ false
      → ((o : L3Order) → b.orders order_id ≡ some o → IsSummed b o)
      → Told b
      → Told (update_found b type order_id side price qty q_rem)
  unfolding update_found
  update_found-Told b type order_id side price qty q_rem sided summed h =
      found (b.orders order_id) refl
    where
      found :
          (x : Option L3Order)
          → b.orders order_id ≡ x
          → Told (elim x [
            | none ↦ b
            | some o ↦
                if needs_requeue type price q_rem o
                then requeue_order b o order_id side price qty q_rem
                else update_in_place b type o order_id qty q_rem
          ])
      found none e = h
      found (some o) e =
          if_elim Told (needs_requeue type price q_rem o)
            (λ _. requeue_order-Told b o order_id side price qty q_rem sided summed h)
            (λ _. update_in_place-Told b type o order_id qty q_rem (summed o e) h)

  update_side-Told :
      (b : L3Book) (type : ExecType) (order_id : ℕ) (side : Side) (price : ℤ) (qty q_rem : ℕ)
      → side_eq side no_side ≡ false
      → ((o : L3Order) → b.orders order_id ≡ some o → IsSummed b o)
      → Told b
      → Told (update_side b type order_id side price qty q_rem)
  update_side-Told b rejected order_id side price qty q_rem sided summed h = h
  update_side-Told b exec_new order_id side price qty q_rem sided summed h =
      push_order-Told b order_id side price qty q_rem sided h
  update_side-Told b partial_fill order_id side price qty q_rem sided summed h =
      update_found-Told b partial_fill order_id side price qty q_rem sided summed h
  update_side-Told b fill order_id side price qty q_rem sided summed h =
      update_found-Told b fill order_id side price qty q_rem sided summed h
  update_side-Told b cancelled order_id side price qty q_rem sided summed h =
      update_found-Told b cancelled order_id side price qty q_rem sided summed h
  update_side-Told b replaced order_id side price qty q_rem sided summed h =
      update_found-Told b replaced order_id side price qty q_rem sided summed h
  update_side-Told b order_status order_id side price qty q_rem sided summed h =
      update_found-Told b order_status order_id side price qty q_rem sided summed h
  update_side-Told b complete order_id side price qty q_rem sided summed h =
      update_found-Told b complete order_id side price qty q_rem sided summed h

  pub update_l3-Told :
      (b : L3Book) (type : ExecType) (order_id : ℕ) (side : Side) (price : ℤ) (qty q_rem : ℕ)
      → side_eq side no_side ≡ false
      → ((o : L3Order) → b.orders order_id ≡ some o → IsSummed b o)
      → Told b
      → Told (update_l3 b type order_id side price qty q_rem)
  unfolding update_l3
  update_l3-Told b type order_id side price qty q_rem sided summed h =
      rw sided (update_side-Told b type order_id side price qty q_rem sided summed h)
