-- ===== src/OrderBook/Rounds.antt =====
-- The rounds of the inner loop of OrderBook::match, and an induction rule for them.
use electronic_exchange_simu.Prelude.{
  ◌<◌, ◌≤◌, List, [], ◌∷◌, ◌≡◌, refl, arith, leb, ◌==◌, inl, inr, Bool-cases,
}
use electronic_exchange_simu.Prelude.Int.{ℤ}
use electronic_exchange_simu.Wire.{Side}
use electronic_exchange_simu.OrderBook.State.{Order}
use electronic_exchange_simu.OrderBook.Match.{Matching, fill_one, drop_maker, match_level}

module _ (s : Side) (p : ℤ) where
  -- One round of the loop, with the branch that it takes.
  abbrev pub next_round : Order → List Order → Matching → Matching
  next_round o os m = drop_maker o os (fill_one s p o os m)

  match_level-nil : (m : Matching) → match_level s p [] m ≡ m
  unfolding match_level
  match_level-nil m = refl

  match_level-done :
      (o : Order) (os : List Order) (m : Matching)
      → m.taker.qty_remaining ≡ 0
      → match_level s p (o ∷ os) m ≡ m
  unfolding match_level
  match_level-done o os m h = ground arith

  match_level-part :
      (o : Order) (os : List Order) (m : Matching)
      → 0 < m.taker.qty_remaining
      → m.taker.qty_remaining < o.qty_remaining
      → match_level s p (o ∷ os) m ≡ fill_one s p o os m
  unfolding match_level
  match_level-part o os m h k = ground arith

  match_level-whole :
      (o : Order) (os : List Order) (m : Matching)
      → 0 < m.taker.qty_remaining
      → o.qty_remaining ≤ m.taker.qty_remaining
      → match_level s p (o ∷ os) m ≡ match_level s p os (next_round o os m)
  unfolding match_level
  match_level-whole o os m h k = ground arith

  -- Induction over the rounds.
  pub match_level_rule {ℓ} :
      (P : List Order → Matching → Matching → Type ℓ)
      → ((m : Matching) → P [] m m)
      → ((o : Order) (os : List Order) (m : Matching) → m.taker.qty_remaining ≡ 0 → P (o ∷ os) m m)
      → ((o : Order) (os : List Order) (m : Matching)
          → 0 < m.taker.qty_remaining
          → m.taker.qty_remaining < o.qty_remaining
          → P (o ∷ os) m (fill_one s p o os m))
      → ((o : Order) (os : List Order) (m r : Matching)
          → 0 < m.taker.qty_remaining
          → o.qty_remaining ≤ m.taker.qty_remaining
          → P os (next_round o os m) r
          → P (o ∷ os) m r)
      → (os : List Order) (m : Matching) → P os m (match_level s p os m)
  match_level_rule P empty done part whole [] m = rw match_level-nil (empty m)
  match_level_rule P empty done part whole (o ∷ os) m =
      elim (Bool-cases (m.taker.qty_remaining == 0)) [
        | inl e ↦ rw (match_level-done o os m (ground arith)) (done o os m (ground arith))
        | inr e ↦ elim (Bool-cases (leb o.qty_remaining m.taker.qty_remaining)) [
          | inl fits ↦ rw (match_level-whole o os m (ground arith) (ground arith)) (
              whole o os m _ (ground arith) (ground arith)
                (match_level_rule P empty done part whole os (next_round o os m)))
          | inr more ↦
              rw (match_level-part o os m (ground arith) (ground arith))
                (part o os m (ground arith) (ground arith))
        ]
      ]
