-- ===== src/OrderBook/Emptied.antt =====
-- A book that is valid but for one level, whose orders have been taken out: it is valid once the
-- level is removed if it is empty, and as it is if it is not.
use electronic_exchange_simu.Prelude.{
  ℕ, ◌<◌, true, false, ◌||◌, ◌≡◌, refl, ap, subst, ◌∙◌, ◌≢◌, arith, ◌==◌, update, Bool-cases,
  ==_iff, inl, inr, All, length, u64_mod,
}
use electronic_exchange_simu.Wire.{Side, buy, sell, no_side, side_eq}
use electronic_exchange_simu.OrderBook.State.{PriceLevel, OrderBook, opposite}
use electronic_exchange_simu.OrderBook.Levels.{remove_price_level}
use electronic_exchange_simu.OrderBook.Match.{crossed}
use electronic_exchange_simu.OrderBook.Keys.{has}
use electronic_exchange_simu.OrderBook.Pointers.{SameOrders, remove-SameOrders, remove-keys}
use electronic_exchange_simu.OrderBook.Linked.{
  IsLinked, keys_of, keys-remove, remove_price_level-IsLinked,
}
use electronic_exchange_simu.OrderBook.Valid.{
  IsValid, IsTrading, remove_price_level-frame, has_orders, set_side_ne,
}
use electronic_exchange_simu.OrderBook.Fifo.{IsCounted, IsLive}

-- The level `i` belongs to the side that faces `s`.
pub record IsValidBut (b : OrderBook) (s : Side) (i : ℕ) : Type 0 where
  pub own : IsLinked b s
  pub facing : IsLinked b (opposite s)
  pub uncrossed :
      (j k : ℕ) → keys_of b s j ≡ true → keys_of b (opposite s) k ≡ true → crossed s j k ≡ false
  pub counted : (k : ℕ) → IsCounted (b.price_array k)
  pub live : (k : ℕ) → All IsLive (b.price_array k).orders
  pub there : keys_of b (opposite s) i ≡ true
  pub occupied :
      (k : ℕ)
      → i ≢ k
      → has_orders (b.price_array k).orders ≡ (keys_of b s k || keys_of b (opposite s) k)
  pub short : (k : ℕ) → length (b.price_array k).orders < u64_mod

pub crossed_self : (s : Side) (i : ℕ) → crossed s i i ≡ true
crossed_self buy i = ground arith
crossed_self sell i = ground arith
crossed_self no_side i = ground arith

side_eq-opposite : (s : Side) → side_eq (opposite s) s ≡ side_eq s (opposite s)
side_eq-opposite buy = refl
side_eq-opposite sell = refl
side_eq-opposite no_side = refl

pub SameOrders-IsCounted : {pl r : PriceLevel} → SameOrders pl r → IsCounted pl → IsCounted r
SameOrders-IsCounted e c = ground (arith, e, c, ap length e.orders)

module _ (b : OrderBook) (s : Side) (trading : IsTrading s) (i : ℕ) (v : IsValidBut b s i) where
  pub kept-IsValid : has_orders (b.price_array i).orders ≡ true → IsValid b s
  kept-IsValid h = record {
    own = v.own;
    facing = v.facing;
    uncrossed = v.uncrossed;
    counted = v.counted;
    live = v.live;
    occupied = λ k. elim (Bool-cases (i == k)) [
      | inl e ↦
          subst
            (λ x. has_orders (b.price_array x).orders ≡ (keys_of b s x || keys_of b (opposite s) x))
            ((==_iff i k).0 e) (ground (arith, h, v.there))
      | inr e ↦ v.occupied k (λ q. ground arith)
    ];
    short = v.short;
  }

  -- No key is on both sides.
  apart : (k : ℕ) → keys_of b s k ≡ true → keys_of b (opposite s) k ≡ false
  apart k h = ground (arith, v.uncrossed k k h, crossed_self s k)

  own-keys : keys_of (remove_price_level b i (opposite s)) s ≡ keys_of b s
  own-keys = ap has (
      ap (λ f. f s) (remove-keys b i (opposite s))
      ∙ set_side_ne b.active_levels (opposite s) s _ (side_eq-opposite s ∙ trading))

  facing-keys :
      keys_of (remove_price_level b i (opposite s)) (opposite s)
      ≡ update (keys_of b (opposite s)) i false
  facing-keys = keys-remove b i (opposite s) v.facing v.there

  pub removed-IsValid :
      has_orders (b.price_array i).orders ≡ false → IsValid (remove_price_level b i (opposite s)) s
  removed-IsValid h = record {
    own =
        remove_price_level-frame b i (opposite s) s (side_eq-opposite s ∙ trading) v.facing v.own
          apart v.there;
    facing = remove_price_level-IsLinked b i (opposite s) v.facing v.there;
    uncrossed = λ j k hj hk.
        v.uncrossed j k (subst (λ K. K j ≡ true) own-keys hj)
          (ground (arith, subst (λ K. K k ≡ true) facing-keys hk));
    counted = λ k. SameOrders-IsCounted (remove-SameOrders b i (opposite s) k) (v.counted k);
    live = λ k. rw ((remove-SameOrders b i (opposite s) k).orders) (v.live k);
    occupied =
        λ k. rw ((remove-SameOrders b i (opposite s) k).orders, own-keys, facing-keys) (busy k);
    short = λ k. rw ((remove-SameOrders b i (opposite s) k).orders) (v.short k);
  }
    where
      busy :
          (k : ℕ)
          → has_orders (b.price_array k).orders
            ≡ (keys_of b s k || update (keys_of b (opposite s)) i false k)
      busy k = elim (Bool-cases (i == k)) [
        | inl e ↦ ground (
          arith,
          ap (λ x. (b.price_array x).orders) ((==_iff i k).0 e),
          apart k,
          h,
          e,
          ap (keys_of b (opposite s)) ((==_iff i k).0 e),
          v.there,
        )
        | inr e ↦ rw e (v.occupied k (λ q. ground arith))
      ]
