-- ===== src/Feed/L2Book.antt =====
-- include/client/L2Book.hpp: the quantity at each price, as a client keeps it.
use electronic_exchange_simu.Prelude.{ℕ, ◌==◌, Option, none, some, List, [], ◌∷◌, if◌then◌else◌}
use electronic_exchange_simu.Prelude.Int.{ℤ, eq_ℤ}
use electronic_exchange_simu.Wire.{Side, buy, sell, no_side}

-- A map from prices, changed at one of them.
abbrev pub set_price {ℓ} : {A : Type ℓ} → (ℤ → A) → ℤ → A → ℤ → A
set_price f p v x = if eq_ℤ p x then v else f x

pub record L2Book : Type 0 where
  pub symbol_id : ℕ
  pub bids : ℤ → Option ℕ
  pub asks : ℤ → Option ℕ

-- What `update` puts at a price: no entry for the quantity 0.
abbrev pub entry : ℕ → Option ℕ
entry qty = if qty == 0 then none else some qty

-- L2Book::update; its warning of a crossed book is output only.
unfoldable pub update_l2 : L2Book → Side → ℤ → ℕ → L2Book
update_l2 b no_side price qty = record b { bids = λ p. none; asks = λ p. none }
update_l2 b buy price qty = record b { bids = set_price b.bids price (entry qty) }
update_l2 b sell price qty = record b { asks = set_price b.asks price (entry qty) }

-- The table L2Update of fbs/exchange.fbs.
pub record L2Update : Type 0 where
  pub side : Side
  pub p : ℤ
  pub q : ℕ

-- A batch is applied one update after the other.
unfoldable pub apply_l2 : L2Book → List L2Update → L2Book
unfolding update_l2
apply_l2 b [] = b
apply_l2 b (u ∷ us) = apply_l2 (update_l2 b u.side u.p u.q) us

-- The quantity at a price, 0 where there is no entry.
abbrev pub qty_or_0 : Option ℕ → ℕ
qty_or_0 none = 0
qty_or_0 (some q) = q

abbrev pub quantity : L2Book → Side → ℤ → ℕ
quantity b buy p = qty_or_0 (b.bids p)
quantity b sell p = qty_or_0 (b.asks p)
quantity b no_side p = 0
