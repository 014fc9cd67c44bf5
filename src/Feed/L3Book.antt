-- ===== src/Feed/L3Book.antt =====
-- src/L3Book.cpp with include/client/L3Book.hpp: the orders of a book as market data shows them.
use electronic_exchange_simu.Prelude.{
  ℕ, suc, ltb, leb, ◌==◌, ◌&&◌, ◌||◌, not, Bool, true, false, Option, none, some, List, [], ◌∷◌,
  ◌++◌, if◌then◌else◌, update, add64, sub64,
}
use electronic_exchange_simu.Prelude.Int.{ℤ, pos, sub_ℕ, eq_ℤ, ltb_ℤ}
use electronic_exchange_simu.Wire.{
  Side, buy, sell, no_side, side_eq, ExecType, exec_new, rejected, replaced,
}
use electronic_exchange_simu.OrderBook.State.{set_side}
use electronic_exchange_simu.OrderBook.Handlers.{add_diff}
use electronic_exchange_simu.Feed.L2Book.{set_price}

-- `queue_pos` is the node of the list that the iterator points at.
pub record L3Order : Type 0 where
  pub order_id : ℕ
  pub side : Side
  pub price : ℤ
  pub qty_req : ℕ
  pub qty_rem : ℕ
  pub queue_pos : ℕ

pub record QueueNode : Type 0 where
  pub node : ℕ
  pub order_id : ℕ

pub record L3PriceLevel : Type 0 where
  pub total_qty : ℕ
  pub queue : List QueueNode

-- A call of the virtual member on_level_updated.
pub record LevelCall : Type 0 where
  pub side : Side
  pub price : ℤ
  pub total_qty : ℕ

-- `levels` are the maps bids and asks, `next_node` numbers the list nodes as they are made, and
-- `calls` are the calls of on_level_updated so far, newest first.
pub record L3Book : Type 0 where
  pub orders : ℕ → Option L3Order
  pub levels : Side → ℤ → Option L3PriceLevel
  pub next_node : ℕ
  pub calls : List LevelCall

-- `(side == Side_Buy) ? bids : asks`
abbrev pub book_side : Side → Side
book_side buy = buy
book_side _ = sell

-- `level[price]`, which makes an empty level where there is none.
abbrev pub level_or_new : Option L3PriceLevel → L3PriceLevel
level_or_new none = record { total_qty = 0; queue = [] }
level_or_new (some l) = l

abbrev pub set_l3_level : L3Book → Side → ℤ → Option L3PriceLevel → L3Book
set_l3_level b s price l = record b {
  levels = set_side b.levels s (set_price (b.levels s) price l);
}

abbrev pub call : L3Book → Side → ℤ → ℕ → L3Book
call b side price total_qty = record b {
  calls = record { side = side; price = price; total_qty = total_qty } ∷ b.calls;
}

-- The order goes to the end of the queue at its price, and the level is reported.
unfoldable pub push_order : L3Book → ℕ → Side → ℤ → ℕ → ℕ → L3Book
push_order b order_id side price qty q_rem =
    let s = book_side side in
    let level = level_or_new (b.levels s price) in
    let total = add64 level.total_qty q_rem in
    let node : QueueNode = record { node = b.next_node; order_id = order_id } in
    let b1 =
      set_l3_level b s price
        (some (record { total_qty = total; queue = level.queue ++ node ∷ [] })) in
    let b2 = record b1 {
      orders = update b.orders order_id (
          some (record {
            order_id = order_id;
            side = side;
            price = price;
            qty_req = qty;
            qty_rem = q_rem;
            queue_pos = b.next_node;
          }));
      next_node = suc b.next_node;
    } in
    call b2 side price total

-- `queue.erase(queue_pos)`
unfoldable pub erase_node : ℕ → List QueueNode → List QueueNode
erase_node n [] = []
erase_node n (x ∷ xs) = if x.node == n then xs else x ∷ erase_node n xs

-- A level whose queue is empty leaves its map.
abbrev pub level_of_queue : ℕ → List QueueNode → Option L3PriceLevel
level_of_queue total [] = none
level_of_queue total (x ∷ xs) = some (record { total_qty = total; queue = x ∷ xs })

-- The level without the remaining quantity of an order, which is taken off down to 0.
abbrev pub less_qty : ℕ → ℕ → ℕ
less_qty total q = if leb q total then sub64 total q else 0

-- L3Book::remove_from_queues for an order that was found, on its side.
unfoldable pub remove_found : L3Book → L3Order → L3Book
unfolding erase_node
remove_found b o = elim (b.levels o.side o.price) [
  | none ↦ call b o.side o.price 0
  | some l ↦
      let total = less_qty l.total_qty o.qty_rem in
      call (set_l3_level b o.side o.price (level_of_queue total (erase_node o.queue_pos l.queue)))
        o.side o.price total
]

unfoldable pub remove_from_queues : L3Book → ℕ → L3Book
unfolding remove_found
remove_from_queues b order_id = elim (b.orders order_id) [ none ↦ b | some o ↦ remove_found b o ]

-- `static_cast<int64_t>(q_rem) - static_cast<int64_t>(order.qty_rem)`
abbrev pub rem_diff : ℕ → L3Order → ℤ
rem_diff q_rem o = sub_ℕ q_rem o.qty_rem

abbrev pub is_replaced : ExecType → Bool
is_replaced replaced = true
is_replaced _ = false

abbrev pub needs_requeue : ExecType → ℤ → ℕ → L3Order → Bool
needs_requeue type price q_rem o =
    is_replaced type && (not (eq_ℤ price o.price) || ltb_ℤ (pos 0) (rem_diff q_rem o))

unfoldable pub requeue_order : L3Book → L3Order → ℕ → Side → ℤ → ℕ → ℕ → L3Book
unfolding remove_from_queues push_order
requeue_order b o order_id side price qty q_rem =
    let b1 = remove_from_queues b order_id in
    if ltb 0 q_rem
    then push_order b1 order_id side price qty q_rem
    else record b1 { orders = update b1.orders order_id none }

-- The update in place, and the removal of an order that has nothing left.
unfoldable pub update_in_place : L3Book → ExecType → L3Order → ℕ → ℕ → ℕ → L3Book
unfolding erase_node
update_in_place b type o order_id qty q_rem =
    let s = book_side o.side in
    let level = level_or_new (b.levels s o.price) in
    let total = add_diff level.total_qty (rem_diff q_rem o) in
    let o' = record o { qty_rem = q_rem; qty_req = if is_replaced type then qty else o.qty_req } in
    let left =
      if q_rem == 0
      then level_of_queue total (erase_node o.queue_pos level.queue)
      else some (record { total_qty = total; queue = level.queue }) in
    let b1 = call (set_l3_level b s o.price left) o.side o.price total in
    record b1 { orders = update b.orders order_id (if q_rem == 0 then none else some o') }

-- L3Book::update on a side of the book, from the search for the order on.
unfoldable pub update_found : L3Book → ExecType → ℕ → Side → ℤ → ℕ → ℕ → L3Book
unfolding requeue_order update_in_place
update_found b type order_id side price qty q_rem = elim (b.orders order_id) [
  | none ↦ b
  | some o ↦
      if needs_requeue type price q_rem o
      then requeue_order b o order_id side price qty q_rem
      else update_in_place b type o order_id qty q_rem
]

-- L3Book::clear without the lock.
unfoldable pub clear_l3 : L3Book → L3Book
clear_l3 b = record b { orders = λ id. none; levels = λ s p. none }

abbrev pub update_side : L3Book → ExecType → ℕ → Side → ℤ → ℕ → ℕ → L3Book
update_side b rejected order_id side price qty q_rem = b
update_side b exec_new order_id side price qty q_rem = push_order b order_id side price qty q_rem
update_side b type order_id side price qty q_rem = update_found b type order_id side price qty q_rem

unfoldable pub update_l3 : L3Book → ExecType → ℕ → Side → ℤ → ℕ → ℕ → L3Book
unfolding push_order update_found clear_l3
update_l3 b type order_id side price qty q_rem =
    if side_eq side no_side then clear_l3 b else update_side b type order_id side price qty q_rem
