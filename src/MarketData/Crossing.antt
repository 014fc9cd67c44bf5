-- ===== src/MarketData/Crossing.antt =====
-- src/MarketDataServer.cpp: the prices at which an order crosses a server's book.
use electronic_exchange_simu.Prelude.{
  true, false, some, List, [], ◌∷◌, ◌≡◌, ◌⊎◌, ◌↔◌, refl, sym, ◌∙◌, arith, Bool-cases, inl, inr,
  subst, All,
}
use electronic_exchange_simu.Prelude.Int.{ℤ, pos, eq_ℤ, eq_ℤ_iff, ◌≤ℤ◌}
use electronic_exchange_simu.Wire.{Side, buy, sell, no_side, side_eq, OrderResponse}
use electronic_exchange_simu.OrderBook.Handlers.{is_some}
use electronic_exchange_simu.MarketData.ServerBook.{
  ServerBook, goes_before, first_key, reaches, other_side, crosses, new_book,
}
use electronic_exchange_simu.MarketData.Server.{updated}
use electronic_exchange_simu.MarketData.Keys.{has_key, IsOrdered}
use electronic_exchange_simu.MarketData.Keyed.{IsKeyed, update_book-IsKeyed}

-- The book after the updates of reports in turn.
abbrev pub after_reports : ServerBook → List OrderResponse → ServerBook
after_reports b [] = b
after_reports b (r ∷ rs) = after_reports (updated b r) rs

updated-IsKeyed : (b : ServerBook) (r : OrderResponse) → IsKeyed b → IsKeyed (updated b r)
unfolding updated
updated-IsKeyed b r h =
    let k = update_book-IsKeyed b r.exec_type _ r.side r.p r.q r.q_rem h in
    record { ordered = k.ordered; exact = k.exact }

after_reports-IsKeyed :
    (b : ServerBook) (rs : List OrderResponse) → IsKeyed b → IsKeyed (after_reports b rs)
after_reports-IsKeyed b [] h = h
after_reports-IsKeyed b (r ∷ rs) h = after_reports-IsKeyed (updated b r) rs (updated-IsKeyed b r h)

new_book-IsKeyed : IsKeyed new_book
new_book-IsKeyed = record { ordered = λ s. tt; exact = λ s p h. refl }

-- A buy order meets the asks up to its price, a sell order the bids from its price up, and an order
-- with price 0 meets every level.
abbrev pub Meets : Side → ℤ → ℤ → Type 0
Meets buy price p = (price ≡ pos 0) ⊎ (p ≤ℤ price)
Meets sell price p = (price ≡ pos 0) ⊎ (price ≤ℤ p)
Meets no_side price p = ⊥

reaches-Meets :
    (side : Side) (price p : ℤ) → (reaches side price (some p) ≡ true) ↔ Meets side price p
reaches-Meets buy price p = ground (arith, (eq_ℤ_iff price (pos 0)).0, (eq_ℤ_iff price (pos 0)).1)
reaches-Meets sell price p = ground (arith, (eq_ℤ_iff price (pos 0)).0, (eq_ℤ_iff price (pos 0)).1)
reaches-Meets no_side price p = ground arith

Meets-better :
    (side : Side) (price p q : ℤ)
    → goes_before (other_side side) q p ≡ true
    → Meets side price p
    → Meets side price q
Meets-better buy price p q h m = ground arith
Meets-better sell price p q h m = ground arith
Meets-better no_side price p q h m = m

All-has_key : (P : ℤ → Type 0) (p : ℤ) (qs : List ℤ) → All P qs → has_key p qs ≡ true → P p
All-has_key P p [] h k = cc
All-has_key P p (q ∷ qs) h k = elim (Bool-cases (eq_ℤ q p)) [
  | inl e ↦ subst P ((eq_ℤ_iff q p).0 e) h.0
  | inr e ↦ All-has_key P p qs h.1 (rw e at k)
]

module _ (side : Side) (price : ℤ) where
  first-Meets :
      (qs : List ℤ)
      → reaches side price (first_key qs) ≡ true
      → (p : ℤ) × (has_key p qs ≡ true) × Meets side price p
  first-Meets [] h = cc
  first-Meets (q ∷ qs) h = (q, rw ((eq_ℤ_iff q q).1 refl) refl, (reaches-Meets side price q).0 h)

  Meets-first :
      (qs : List ℤ) (p : ℤ)
      → IsOrdered (other_side side) qs
      → has_key p qs ≡ true
      → Meets side price p
      → reaches side price (first_key qs) ≡ true
  Meets-first [] p ordered k m = cc
  Meets-first (q ∷ qs) p ordered k m =
      (reaches-Meets side price q).1 (elim (Bool-cases (eq_ℤ q p)) [
        | inl e ↦ subst (Meets side price) (sym ((eq_ℤ_iff q p).0 e)) m
        | inr e ↦
            Meets-better side price p q
              (All-has_key (λ r. goes_before (other_side side) q r ≡ true) p qs ordered.0
                (rw e at k))
              m
      ])

  other_trading : side_eq (other_side side) no_side ≡ false
  other_trading = by_side side
    where
      by_side : (s : Side) → side_eq (other_side s) no_side ≡ false
      by_side buy = refl
      by_side sell = refl
      by_side no_side = refl

  -- After any reports to a new book, crosses says yes to a side and a price exactly where some
  -- level of the other side meets the price: an ask at or below it for a bid, a bid at or above it
  -- for an ask, and any level for the price 0. The side is Buy or Sell, and so is that of each
  -- report.
  pub crosses-levels :
      (rs : List OrderResponse)
      → let b = after_reports new_book rs in
        (crosses side price b ≡ true)
        ↔ ((p : ℤ) × (is_some (b.md.book.levels (other_side side) p) ≡ true) × Meets side price p)
  unfolding crosses
  crosses-levels rs =
      let b = after_reports new_book rs in
      let keyed = after_reports-IsKeyed new_book rs new_book-IsKeyed in
      let keys = b.keys (other_side side) in
      (
        λ h.
            let (p, k, m) = first-Meets keys h in
            (p, sym (keyed.exact (other_side side) p other_trading) ∙ k, m),
        λ x.
            Meets-first keys x.0 (keyed.ordered (other_side side))
              (keyed.exact (other_side side) x.0 other_trading ∙ x.1) x.2,
      )
