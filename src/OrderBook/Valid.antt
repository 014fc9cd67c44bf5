-- ===== src/OrderBook/Valid.antt =====
-- The representation invariant of the order book, seen from one of its two sides, and the changes
-- that leave one side's chain alone.
use electronic_exchange_simu.Prelude.{
  ℕ, suc, ◌<◌, Bool, true, false, not, ◌||◌, Option, none, some, List, [], ◌∷◌, ◌≡◌, refl, ap, ◌∙◌,
  ◌≢◌, arith, ◌==◌, ltb, All, length, u64_mod,
}
use electronic_exchange_simu.Wire.{Side, side_eq}
use electronic_exchange_simu.OrderBook.State.{Order, OrderBook, set_side, opposite}
use electronic_exchange_simu.OrderBook.Levels.{
  neighbours, remove_price_level, get_or_create_price_level,
}
use electronic_exchange_simu.OrderBook.Match.{crossed}
use electronic_exchange_simu.OrderBook.Nearest.{IsNearest, nearest-mem}
use electronic_exchange_simu.OrderBook.Pointers.{
  points, remove-better, remove-worse, remove-best_ne, remove-keys, create-better, create-worse,
  create-keys, create-best_ne,
}
use electronic_exchange_simu.OrderBook.Linked.{
  IsLinked, dir, keys_of, ahead_ne, neighbours-IsNearest,
}
use electronic_exchange_simu.OrderBook.Fifo.{IsCounted, IsLive}

abbrev pub has_orders : List Order → Bool
has_orders [] = false
has_orders (o ∷ os) = true

-- A side of the book, not the frame marker.
abbrev pub IsTrading : Side → Type 0
IsTrading s = side_eq s (opposite s) ≡ false

pub record IsValid (b : OrderBook) (s : Side) : Type 0 where
  -- both chains lead through their keys in the order of prices
  pub own : IsLinked b s
  pub facing : IsLinked b (opposite s)
  -- no bid reaches an ask
  pub uncrossed :
      (i j : ℕ) → keys_of b s i ≡ true → keys_of b (opposite s) j ≡ true → crossed s i j ≡ false
  -- the counters of a level agree with its orders, and none is used up
  pub counted : (i : ℕ) → IsCounted (b.price_array i)
  pub live : (i : ℕ) → All IsLive (b.price_array i).orders
  -- the levels with orders are those in a chain
  pub occupied :
      (i : ℕ) → has_orders (b.price_array i).orders ≡ (keys_of b s i || keys_of b (opposite s) i)
  pub short : (i : ℕ) → length (b.price_array i).orders < u64_mod

-- No level is so long that one more order would overflow its 64-bit count.
abbrev pub HasRoom : OrderBook → Type 0
HasRoom b = (i : ℕ) → suc (length (b.price_array i).orders) < u64_mod

-- A side whose keys, best level and pointers are as before is still linked.
pub IsLinked-frame :
    (b b' : OrderBook) (t : Side)
    → IsLinked b t
    → b'.active_levels t ≡ b.active_levels t
    → b'.best_levels t ≡ b.best_levels t
    → ((k : ℕ) → keys_of b t k ≡ true → (b'.price_array k).better ≡ (b.price_array k).better)
    → ((k : ℕ) → keys_of b t k ≡ true → (b'.price_array k).worse ≡ (b.price_array k).worse)
    → IsLinked b' t
IsLinked-frame b b' t v ek eb e f = record {
  ascending = rw ek v.ascending;
  best = rw (ek, eb) v.best;
  better = λ k h. let h' : keys_of b t k ≡ true = rw (← ek) h in rw (ek, e k h') (v.better k h');
  worse = λ k h. let h' : keys_of b t k ≡ true = rw (← ek) h in rw (ek, f k h') (v.worse k h');
}

pub set_side_ne {ℓ} :
    {A : Type ℓ} (f : Side → A) (s t : Side) (v : A) → side_eq s t ≡ false → set_side f s v t ≡ f t
set_side_ne f s t v h = rw h

-- A neighbour is a key of its side, and no key of the other one.
no_points :
    (d : Bool) (K : ℕ → Bool) (i k : ℕ) (r : Option ℕ)
    → IsNearest d K i r
    → K k ≡ false
    → points r k ≡ false
no_points d K i k none n h = refl
no_points d K i k (some p) n h = ground (arith, nearest-mem d K i p n)

module _ (b : OrderBook) (i : ℕ) (s t : Side) (other : side_eq s t ≡ false) (v : IsLinked b s)
    (w : IsLinked b t) (apart : (k : ℕ) → keys_of b t k ≡ true → keys_of b s k ≡ false) where
  -- removePriceLevel on one side leaves the other side's chain alone.
  pub remove_price_level-frame : keys_of b s i ≡ true → IsLinked (remove_price_level b i s) t
  remove_price_level-frame h =
      IsLinked-frame b (remove_price_level b i s) t w
        (ap (λ f. f t) (remove-keys b i s) ∙ set_side_ne b.active_levels s t _ other)
        (remove-best_ne b i s t other)
        (λ k e.
          remove-better b i s _ _ refl refl (ahead_ne (dir s) (keys_of b s) i _ (v.better i h)) k
          ∙ rw (no_points (not (dir s)) (keys_of b s) i k _ (v.worse i h) (apart k e)))
        (λ k e.
          remove-worse b i s _ _ refl refl (ahead_ne (dir s) (keys_of b s) i _ (v.better i h)) k
          ∙ rw (no_points (dir s) (keys_of b s) i k _ (v.better i h) (apart k e)))

  -- So does GetOrCreatePriceLevel.
  pub create-frame :
      keys_of b s i ≡ false
      → keys_of b t i ≡ false
      → ltb 0 (b.price_array i).order_count ≡ false
      → IsLinked (get_or_create_price_level b i s) t
  create-frame h h' fresh =
      IsLinked-frame b (get_or_create_price_level b i s) t w
        (ap (λ f. f t) (create-keys b i s fresh) ∙ set_side_ne b.active_levels s t _ other)
        (create-best_ne b i s t other)
        (λ k e.
          create-better b i s fresh _ _ refl alone.0 alone.1 k
          ∙ rw (outside k e, no_points (not (dir s)) (keys_of b s) i k _ near.1 (apart k e)))
        (λ k e.
          create-worse b i s fresh _ _ refl alone.0 alone.1 k
          ∙ rw (outside k e, no_points (dir s) (keys_of b s) i k _ near.0 (apart k e)))
    where
      near :
          IsNearest (dir s) (keys_of b s) i (neighbours s i (b.active_levels s)).0
          × IsNearest (not (dir s)) (keys_of b s) i (neighbours s i (b.active_levels s)).1
      near = neighbours-IsNearest s i (b.active_levels s) v.ascending h

      alone :
          ((neighbours s i (b.active_levels s)).0 ≢ some i)
          × ((neighbours s i (b.active_levels s)).1 ≢ some i)
      alone = (
        ahead_ne (dir s) (keys_of b s) i _ near.0,
        ahead_ne (not (dir s)) (keys_of b s) i _ near.1,
      )

      outside : (k : ℕ) → keys_of b t k ≡ true → (i == k) ≡ false
      outside k e = ground (arith, ap (keys_of b t), e)

-- The invariant is about the levels, the keys and the best levels only.
pub IsValid-same :
    (b b' : OrderBook) (s : Side)
    → IsValid b s
    → b'.price_array ≡ b.price_array
    → b'.best_levels ≡ b.best_levels
    → b'.active_levels ≡ b.active_levels
    → IsValid b' s
IsValid-same b b' s v ea eb ek = record {
  own = linked s v.own;
  facing = linked (opposite s) v.facing;
  uncrossed = rw ek v.uncrossed;
  counted = rw ea v.counted;
  live = rw ea v.live;
  occupied = rw (ea, ek) v.occupied;
  short = rw ea v.short;
}
  where
    linked : (u : Side) → IsLinked b u → IsLinked b' u
    linked u l =
        IsLinked-frame b b' u l (ap (λ f. f u) ek) (ap (λ f. f u) eb)
          (λ k e. ap (λ f. (f k).better) ea) (λ k e. ap (λ f. (f k).worse) ea)
