-- ===== src/Feed/Levels.antt =====
-- src/L3Book.cpp: the totals of the levels of an L3 book, and what becomes of them where an order
-- leaves.
use electronic_exchange_simu.Prelude.{
  ℕ, ◌&&◌, true, false, Option, List, [], ◌∷◌, ◌≡◌, refl, sym, ap, arith, if◌then◌else◌, Bool-cases,
  inl, inr, add64, sub64,
}
use electronic_exchange_simu.Prelude.Int.{ℤ, eq_ℤ, sub_ℕ}
use electronic_exchange_simu.Wire.{Side, buy, sell, no_side, side_eq}
use electronic_exchange_simu.OrderBook.Handlers.{add_diff}
use electronic_exchange_simu.Feed.L3Book.{
  L3Book, L3Order, L3PriceLevel, QueueNode, book_side, level_or_new, erase_node, level_of_queue,
  less_qty, set_l3_level,
}

pub book_side-trading : (s : Side) → side_eq s no_side ≡ false → book_side s ≡ s
book_side-trading buy h = refl
book_side-trading sell h = refl
book_side-trading no_side h = cc

-- The total of a level, 0 where there is none.
abbrev pub total_qty_at : L3Book → Side → ℤ → ℕ
total_qty_at b s p = (level_or_new (b.levels s p)).total_qty

-- An order that is alone at its level has the level's whole total, and a side.
pub record IsSummed (b : L3Book) (o : L3Order) : Type 0 where
  pub trading : side_eq o.side no_side ≡ false
  pub alone :
      erase_node o.queue_pos (level_or_new (b.levels o.side o.price)).queue ≡ []
      → total_qty_at b o.side o.price ≡ o.qty_rem

pub level_of_queue-total :
    (total : ℕ) (queue : List QueueNode)
    → (queue ≡ [] → total ≡ 0)
    → (level_or_new (level_of_queue total queue)).total_qty ≡ total
level_of_queue-total total [] h = sym (h refl)
level_of_queue-total total (x ∷ xs) h = refl

pub less_qty-all : (n m : ℕ) → n ≡ m → less_qty n m ≡ 0
unfolding sub64
less_qty-all n m e = ground arith

pub add_diff-all : (n m : ℕ) → n ≡ m → add_diff n (sub_ℕ 0 m) ≡ 0
unfolding add64 sub64
add_diff-all n m e = ground arith

pub side_eq-true : (t s : Side) → side_eq t s ≡ true → t ≡ s
side_eq-true buy buy h = refl
side_eq-true sell sell h = refl
side_eq-true no_side no_side h = refl
side_eq-true buy sell h = cc
side_eq-true buy no_side h = cc
side_eq-true sell buy h = cc
side_eq-true sell no_side h = cc
side_eq-true no_side buy h = cc
side_eq-true no_side sell h = cc

pub set_l3_level-at :
    (b : L3Book) (t : Side) (x : ℤ) (level : Option L3PriceLevel) (s : Side) (p : ℤ)
    → (set_l3_level b t x level).levels s p
      ≡ (if side_eq t s && eq_ℤ x p then level else b.levels s p)
set_l3_level-at b t x level s p = elim (Bool-cases (side_eq t s)) [
  | inl e ↦ rw e (ap (λ u. if eq_ℤ x p then level else b.levels u p) (side_eq-true t s e))
  | inr e ↦ rw e refl
]
