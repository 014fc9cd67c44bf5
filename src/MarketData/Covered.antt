-- ===== src/MarketData/Covered.antt =====
-- src/L3Book.cpp: an update changes the levels at the prices that it reports, and no others.
use electronic_exchange_simu.Prelude.{
  ℕ, ◌&&◌, ◌||◌, Bool, false, none, some, List, [], ◌∷◌, ◌≡◌, refl, arith, if◌then◌else◌, if_elim,
}
use electronic_exchange_simu.Prelude.Int.{ℤ, eq_ℤ}
use electronic_exchange_simu.Wire.{
  Side, no_side, side_eq, ExecType, exec_new, partial_fill, fill, rejected, cancelled, replaced,
  order_status, complete,
}
use electronic_exchange_simu.Feed.L3Book.{
  L3Book, L3Order, LevelCall, book_side, needs_requeue, push_order, remove_found,
  remove_from_queues, requeue_order, update_in_place, update_found, update_side, update_l3,
}

-- Some call reports the price p of the side s.
abbrev pub called : Side → ℤ → List LevelCall → Bool
called s p [] = false
called s p (c ∷ cs) = (side_eq (book_side c.side) s && eq_ℤ c.price p) || called s p cs

abbrev LevelsStay : L3Book → L3Book → Side → ℤ → Type 0
LevelsStay b b' s p =
    called s p b'.calls ≡ false → (called s p b.calls ≡ false) × (b'.levels s p ≡ b.levels s p)

module _ (s : Side) (p : ℤ) (trading : side_eq s no_side ≡ false) where
  push_order-LevelsStay :
      (b : L3Book) (order_id : ℕ) (side : Side) (price : ℤ) (qty q_rem : ℕ)
      → LevelsStay b (push_order b order_id side price qty q_rem) s p
  unfolding push_order
  push_order-LevelsStay b order_id side price qty q_rem h = ground arith

  remove_found-LevelsStay : (b : L3Book) (o : L3Order) → LevelsStay b (remove_found b o) s p
  unfolding remove_found
  remove_found-LevelsStay b o h = ground arith

  remove_from_queues-LevelsStay :
      (b : L3Book) (order_id : ℕ) → LevelsStay b (remove_from_queues b order_id) s p
  unfolding remove_from_queues
  remove_from_queues-LevelsStay b order_id =
      elim (b.orders order_id)
        as (λ o. LevelsStay b (elim o [ none ↦ b | some x ↦ remove_found b x ]) s p) [
          | none ↦ λ h. (h, refl)
          | some o ↦ remove_found-LevelsStay b o
        ]

  update_in_place-LevelsStay :
      (b : L3Book) (type : ExecType) (o : L3Order) (order_id qty q_rem : ℕ)
      → LevelsStay b (update_in_place b type o order_id qty q_rem) s p
  unfolding update_in_place
  update_in_place-LevelsStay b type o order_id qty q_rem h = ground arith

  requeue_order-LevelsStay :
      (b : L3Book) (o : L3Order) (order_id : ℕ) (side : Side) (price : ℤ) (qty q_rem : ℕ)
      → LevelsStay b (requeue_order b o order_id side price qty q_rem) s p
  unfolding requeue_order
  requeue_order-LevelsStay b o order_id side price qty q_rem h = ground (
    arith,
    push_order-LevelsStay (remove_from_queues b order_id) order_id side price qty q_rem,
    remove_from_queues-LevelsStay b order_id,
  )

  update_found-LevelsStay :
      (b : L3Book) (type : ExecType) (order_id : ℕ) (side : Side) (price : ℤ) (qty q_rem : ℕ)
      → LevelsStay b (update_found b type order_id side price qty q_rem) s p
  unfolding update_found
  update_found-LevelsStay b type order_id side price qty q_rem =
      elim (b.orders order_id)
        as (λ o.
          LevelsStay b
            (elim o [
              | none ↦ b
              | some x ↦
                  if needs_requeue type price q_rem x
                  then requeue_order b x order_id side price qty q_rem
                  else update_in_place b type x order_id qty q_rem
            ])
            s p) [ none ↦ λ h. (h, refl) | some o ↦ stays o ]
    where
      stays :
          (o : L3Order)
          → LevelsStay b
              (if needs_requeue type price q_rem o
                then requeue_order b o order_id side price qty q_rem
                else update_in_place b type o order_id qty q_rem)
              s
              p
      stays o =
          if_elim (λ b'. LevelsStay b b' s p) (needs_requeue type price q_rem o)
            (λ _. requeue_order-LevelsStay b o order_id side price qty q_rem)
            (λ _. update_in_place-LevelsStay b type o order_id qty q_rem)

  update_side-LevelsStay :
      (b : L3Book) (type : ExecType) (order_id : ℕ) (side : Side) (price : ℤ) (qty q_rem : ℕ)
      → LevelsStay b (update_side b type order_id side price qty q_rem) s p
  update_side-LevelsStay b rejected order_id side price qty q_rem h = (h, refl)
  update_side-LevelsStay b exec_new order_id side price qty q_rem h =
      push_order-LevelsStay b order_id side price qty q_rem h
  update_side-LevelsStay b partial_fill order_id side price qty q_rem h =
      update_found-LevelsStay b partial_fill order_id side price qty q_rem h
  update_side-LevelsStay b fill order_id side price qty q_rem h =
      update_found-LevelsStay b fill order_id side price qty q_rem h
  update_side-LevelsStay b cancelled order_id side price qty q_rem h =
      update_found-LevelsStay b cancelled order_id side price qty q_rem h
  update_side-LevelsStay b replaced order_id side price qty q_rem h =
      update_found-LevelsStay b replaced order_id side price qty q_rem h
  update_side-LevelsStay b order_status order_id side price qty q_rem h =
      update_found-LevelsStay b order_status order_id side price qty q_rem h
  update_side-LevelsStay b complete order_id side price qty q_rem h =
      update_found-LevelsStay b complete order_id side price qty q_rem h

-- An update of a side leaves a level that it does not report as it was.
pub update_l3-levels :
    (b : L3Book) (type : ExecType) (order_id : ℕ) (side : Side) (price : ℤ) (qty q_rem : ℕ)
    (s : Side) (p : ℤ)
    → side_eq s no_side ≡ false
    → side_eq side no_side ≡ false
    → called s p (update_l3 b type order_id side price qty q_rem).calls ≡ false
    → (update_l3 b type order_id side price qty q_rem).levels s p ≡ b.levels s p
unfolding update_l3
update_l3-levels b type order_id side price qty q_rem s p trading sided h =
    rw sided
      (update_side-LevelsStay s p trading b type order_id side price qty q_rem
        (rw (sided, update_l3) at h)).1
