-- ===== src/OrderBook/Fresh.antt =====
-- The book that the constructor makes.
use electronic_exchange_simu.Prelude.{
  ℕ, ◌<◌, ◌^◌, ◌%◌, ◌≡◌, refl, arith, Bool, false, some, none, [], sym, subst, leb, ◌==◌, ◌||◌,
  Bool-cases, inl, inr,
}
use electronic_exchange_simu.Prelude.Int.{ℤ, pos_part}
use mathlib.Core.Option.{some-injective}
use electronic_exchange_simu.Wire.{Side}
use electronic_exchange_simu.OrderBook.State.{OrderBook, init, empty_level}
use electronic_exchange_simu.OrderBook.Linked.{IsLinked}
use electronic_exchange_simu.OrderBook.Valid.{IsValid, HasRoom}

-- A book with no key, no best level and empty levels.
module _ (b : OrderBook) where
  bare : OrderBook
  bare = record b {
    price_array = λ i. empty_level;
    best_levels = λ s. none;
    active_levels = λ s. [];
  }

  bare-IsLinked : (s : Side) → IsLinked bare s
  unfolding bare
  bare-IsLinked s = record {
    ascending = tt;
    best = λ j. refl;
    better = λ k h. cc;
    worse = λ k h. cc;
  }

  bare-IsValid : (s : Side) → IsValid bare s
  unfolding bare
  bare-IsValid s = record {
    own = bare-IsLinked s;
    facing = bare-IsLinked _;
    uncrossed = λ i j h k. cc;
    counted = λ i. omega arith;
    live = λ i. tt;
    occupied = λ i. refl;
    short = λ i. omega arith;
  }

bare-HasRoom : (b : OrderBook) → HasRoom (bare b)
unfolding bare
bare-HasRoom b i = omega arith

-- What the constructor makes, where it does not throw.
init-made :
    (symbol_id : ℕ) (min_step offset : ℤ) (levels : ℕ) (ring : Bool) (gen : ℕ → ℕ) (b : OrderBook)
    → init symbol_id min_step offset levels ring gen ≡ some b
    → (b ≡ bare b) × (0 < b.min_step) × (0 < b.max_price_levels)
unfolding init bare
init-made symbol_id min_step offset levels ring gen b made =
    elim (Bool-cases (leb (pos_part min_step) 0 || levels == 0)) [
      | inl e ↦ cc (made, e)
      | inr e ↦
          subst (λ (c : OrderBook). (c ≡ bare c) × (0 < c.min_step) × (0 < c.max_price_levels))
            (some-injective made_book b (rw e at made)) (refl, ground arith, ground arith)
    ]
  where
    made_book : OrderBook
    made_book = record {
      symbol_id = symbol_id % 2 ^ 32;
      min_step = pos_part min_step;
      price_index_offset = offset;
      max_price_levels = levels;
      response_ring = ring;
      recover_mode = false;
      price_array = λ i. empty_level;
      active_orders = λ id. none;
      best_levels = λ s. none;
      active_levels = λ s. [];
      journal = [];
      gen = gen;
    }

-- Where the constructor does not throw, its book is valid from both sides and has room, its price
-- step is positive and it has a level.
pub init-IsValid :
    (symbol_id : ℕ) (min_step offset : ℤ) (levels : ℕ) (ring : Bool) (gen : ℕ → ℕ) (b : OrderBook)
    (s : Side)
    → init symbol_id min_step offset levels ring gen ≡ some b
    → IsValid b s × HasRoom b × (0 < b.min_step) × (0 < b.max_price_levels)
init-IsValid symbol_id min_step offset levels ring gen b s made =
    let (e, step, level) = init-made symbol_id min_step offset levels ring gen b made in
    (
      subst (λ (c : OrderBook). IsValid c s) (sym e) (bare-IsValid b s),
      subst HasRoom (sym e) (bare-HasRoom b),
      step,
      level,
    )
