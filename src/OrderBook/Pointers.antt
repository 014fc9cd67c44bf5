-- ===== src/OrderBook/Pointers.antt =====
-- What removePriceLevel and GetOrCreatePriceLevel write: each pointer of each level afterwards.
use electronic_exchange_simu.Prelude.{
  ℕ, Bool, false, Option, none, some, ◌≡◌, ◌≢◌, arith, ◌==◌, ltb, if◌then◌else◌,
}
use electronic_exchange_simu.Wire.{Side, buy, sell, no_side, side_eq}
use electronic_exchange_simu.OrderBook.State.{PriceLevel, OrderBook, set_side}
use electronic_exchange_simu.OrderBook.Levels.{
  erase_key, insert_key, neighbours, remove_price_level, get_or_create_price_level,
}

-- The pointer is that index.
abbrev pub points : Option ℕ → ℕ → Bool
points none k = false
points (some j) k = j == k

abbrev pub or_best : Option ℕ → Option ℕ → Option ℕ → Option ℕ
or_best none new old = new
or_best (some p) new old = old

module _ (b : OrderBook) (i : ℕ) (s : Side) where
  -- removePriceLevel at a level whose neighbours are `ahead` and `behind`.
  pub remove-better :
      (ahead behind : Option ℕ)
      → (b.price_array i).better ≡ ahead
      → (b.price_array i).worse ≡ behind
      → ahead ≢ some i
      → (k : ℕ)
      → ((remove_price_level b i s).price_array k).better
        ≡ (if points behind k then ahead else (b.price_array k).better)
  unfolding remove_price_level
  remove-better none none e f n k = ground arith
  remove-better none (some q) e f n k = ground arith
  remove-better (some p) none e f n k = ground arith
  remove-better (some p) (some q) e f n k = ground arith

  pub remove-worse :
      (ahead behind : Option ℕ)
      → (b.price_array i).better ≡ ahead
      → (b.price_array i).worse ≡ behind
      → ahead ≢ some i
      → (k : ℕ)
      → ((remove_price_level b i s).price_array k).worse
        ≡ (if points ahead k then behind else (b.price_array k).worse)
  unfolding remove_price_level
  remove-worse none none e f n k = ground arith
  remove-worse none (some q) e f n k = ground arith
  remove-worse (some p) none e f n k = ground arith
  remove-worse (some p) (some q) e f n k = ground arith

  pub remove-keys :
      (remove_price_level b i s).active_levels
      ≡ set_side b.active_levels s (erase_key i (b.active_levels s))
  unfolding remove_price_level
  remove-keys = ground arith

  pub create-keys :
      ltb 0 (b.price_array i).order_count ≡ false
      → (get_or_create_price_level b i s).active_levels
        ≡ set_side b.active_levels s (insert_key i (b.active_levels s))
  unfolding get_or_create_price_level
  create-keys e = ground arith

-- A new level whose neighbours are to be `ahead` and `behind`.
module _ (b : OrderBook) (i : ℕ) (s : Side)
    (fresh : ltb 0 (b.price_array i).order_count ≡ false) where
  pub create-better :
      (ahead behind : Option ℕ)
      → neighbours s i (b.active_levels s) ≡ (ahead, behind)
      → ahead ≢ some i
      → behind ≢ some i
      → (k : ℕ)
      → ((get_or_create_price_level b i s).price_array k).better
        ≡ (if i == k then ahead else if points behind k then some i else (b.price_array k).better)
  unfolding get_or_create_price_level
  create-better none none e n m k = ground arith
  create-better none (some q) e n m k = ground arith
  create-better (some p) none e n m k = ground arith
  create-better (some p) (some q) e n m k = ground arith

  pub create-worse :
      (ahead behind : Option ℕ)
      → neighbours s i (b.active_levels s) ≡ (ahead, behind)
      → ahead ≢ some i
      → behind ≢ some i
      → (k : ℕ)
      → ((get_or_create_price_level b i s).price_array k).worse
        ≡ (if i == k then behind else if points ahead k then some i else (b.price_array k).worse)
  unfolding get_or_create_price_level
  create-worse none none e n m k = ground arith
  create-worse none (some q) e n m k = ground arith
  create-worse (some p) none e n m k = ground arith
  create-worse (some p) (some q) e n m k = ground arith

-- The pointers to the best levels.
pub remove-best :
    (b : OrderBook) (i : ℕ) (s : Side)
    → (remove_price_level b i s).best_levels s
      ≡ or_best (b.price_array i).better (b.price_array i).worse (b.best_levels s)
unfolding remove_price_level
remove-best b i buy = ground arith
remove-best b i sell = ground arith
remove-best b i no_side = ground arith

pub remove-best_ne :
    (b : OrderBook) (i : ℕ) (s t : Side)
    → side_eq s t ≡ false
    → (remove_price_level b i s).best_levels t ≡ b.best_levels t
unfolding remove_price_level
remove-best_ne b i s t h = ground arith

pub create-best :
    (b : OrderBook) (i : ℕ) (s : Side) (ahead behind : Option ℕ)
    → ltb 0 (b.price_array i).order_count ≡ false
    → neighbours s i (b.active_levels s) ≡ (ahead, behind)
    → (get_or_create_price_level b i s).best_levels s ≡ or_best ahead (some i) (b.best_levels s)
unfolding get_or_create_price_level
create-best b i buy ahead behind fresh e = ground arith
create-best b i sell ahead behind fresh e = ground arith
create-best b i no_side ahead behind fresh e = ground arith

pub create-best_ne :
    (b : OrderBook) (i : ℕ) (s t : Side)
    → side_eq s t ≡ false
    → (get_or_create_price_level b i s).best_levels t ≡ b.best_levels t
unfolding get_or_create_price_level
create-best_ne b i s t h = ground arith

-- Relinking a level leaves its orders and counters.
pub record SameOrders (pl r : PriceLevel) : Type 0 where
  pub orders : r.orders ≡ pl.orders
  pub order_count : r.order_count ≡ pl.order_count
  pub total_qty : r.total_qty ≡ pl.total_qty

pub remove-SameOrders :
    (b : OrderBook) (i : ℕ) (s : Side) (k : ℕ)
    → SameOrders (b.price_array k) ((remove_price_level b i s).price_array k)
unfolding remove_price_level
remove-SameOrders b i s k = ground arith

pub create-SameOrders :
    (b : OrderBook) (i : ℕ) (s : Side) (k : ℕ)
    → SameOrders (b.price_array k) ((get_or_create_price_level b i s).price_array k)
unfolding get_or_create_price_level
create-SameOrders b i s k = ground arith
