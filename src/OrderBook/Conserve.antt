-- ===== src/OrderBook/Conserve.antt =====
-- Matching moves quantity and makes or loses none: what the taker is filled is what the levels of
-- the other side lose.
use electronic_exchange_simu.Prelude.{
  ℕ, zero, suc, ◌+◌, ◌-◌, true, false, List, [], ◌∷◌, ◌≡◌, refl, ap, fun_ext, ◌∙◌, arith, ◌==◌,
  Bool-cases, Option-cases, inl, inr, ◌≢◌, sum_by, ==_iff,
}
use electronic_exchange_simu.Wire.{Side}
use electronic_exchange_simu.OrderBook.State.{Order, OrderBook, opposite}
use electronic_exchange_simu.OrderBook.Levels.{erase_key}
use electronic_exchange_simu.OrderBook.Match.{match_step, match_loop, next_level}
use electronic_exchange_simu.OrderBook.Keys.{has, Ascending, Above-has}
use electronic_exchange_simu.OrderBook.Linked.{keys_of}
use electronic_exchange_simu.OrderBook.Valid.{IsValid, IsTrading}
use electronic_exchange_simu.OrderBook.MatchStep.{
  left_orders, left_self, match_step-orders, match_step-keys, match_step-taker, match_step-IsValid,
}
use electronic_exchange_simu.OrderBook.Taken.{==_false}
use electronic_exchange_simu.OrderBook.MatchLoop.{next_level-mem}
use electronic_exchange_simu.OrderBook.Fifo.{rem_sum, after_taking}

-- What rests on a side of the book.
abbrev pub level_qty : OrderBook → ℕ → ℕ
level_qty b i = rem_sum (b.price_array i).orders

abbrev pub side_qty : OrderBook → Side → ℕ
side_qty b s = sum_by (level_qty b) (b.active_levels s)

-- Sums over keys of which one is changed or erased.
sum-same :
    (f g : ℕ → ℕ) (i : ℕ) (ks : List ℕ)
    → ((k : ℕ) → i ≢ k → g k ≡ f k)
    → has ks i ≡ false
    → sum_by g ks ≡ sum_by f ks
sum-same f g i [] h n = refl
sum-same f g i (k ∷ ks) h n = ground (arith, sum-same f g i ks h, h k)

sum-changed :
    (f g : ℕ → ℕ) (i : ℕ) (ks : List ℕ)
    → ((k : ℕ) → i ≢ k → g k ≡ f k)
    → Ascending ks
    → has ks i ≡ true
    → sum_by g ks + f i ≡ sum_by f ks + g i
sum-changed f g i [] h a m = cc
sum-changed f g i (k ∷ ks) h a m = elim (Bool-cases (k == i)) [
  | inl e ↦ omega (
    arith,
    sum-same f g i ks h (ground (arith, Above-has k ks i a.0, e)),
    ap f ((==_iff k i).0 e),
    ap g ((==_iff k i).0 e),
  )
  | inr e ↦ ground (arith, sum-changed f g i ks h a.1, h k, e)
]

sum-erased :
    (f : ℕ → ℕ) (i : ℕ) (ks : List ℕ)
    → has ks i ≡ true
    → sum_by f (erase_key i ks) + f i ≡ sum_by f ks
unfolding erase_key
sum-erased f i [] m = cc
sum-erased f i (k ∷ ks) m = ground (arith, sum-erased f i ks, ap f)

-- What one level loses, the taker is filled.
rem_sum-after_taking :
    (q : ℕ) (os : List Order) → rem_sum (after_taking q os) + q ≡ rem_sum os + (q - rem_sum os)
rem_sum-after_taking q [] = omega arith
rem_sum-after_taking q (o ∷ os) = ground (arith, rem_sum-after_taking (q - o.qty_remaining) os)

module _ (s : Side) (trading : IsTrading s) where
  module _ (t : Order) (b : OrderBook) (v : IsValid b s) (i : ℕ)
      (there : keys_of b (opposite s) i ≡ true) where
    abbrev left : ℕ → ℕ
    left k = rem_sum (left_orders b s v trading t i there k)

    left-changed :
        sum_by left (b.active_levels (opposite s)) + rem_sum (b.price_array i).orders
        ≡ side_qty b (opposite s) + left i
    left-changed =
        sum-changed (level_qty b) left i (b.active_levels (opposite s))
          (λ k n. ap rem_sum (rw (==_false n))) v.facing.ascending there

    -- A level that leaves the keys holds nothing.
    keys-match_step :
        sum_by left ((match_step s i t b).1.active_levels (opposite s))
        ≡ sum_by left (b.active_levels (opposite s))
    keys-match_step = elim (match_step-keys b s v trading t i there) [
      | inl e ↦ ap (sum_by left) e
      | inr (e, empty) ↦ omega (
        arith,
        ap (sum_by left) e,
        sum-erased left i (b.active_levels (opposite s)) there,
        ap rem_sum empty,
      )
    ]

    side_qty-match_step :
        side_qty (match_step s i t b).1 (opposite s) ≡ sum_by left (b.active_levels (opposite s))
    side_qty-match_step =
        ap (λ f. sum_by f ((match_step s i t b).1.active_levels (opposite s)))
          (fun_ext (λ k. ap rem_sum (match_step-orders b s v trading t i there k)))
        ∙ keys-match_step

    -- One round.
    match_step-conserves :
        side_qty (match_step s i t b).1 (opposite s) + t.qty_remaining
        ≡ side_qty b (opposite s) + (match_step s i t b).0.qty_remaining
    match_step-conserves = omega (
      arith,
      side_qty-match_step,
      left-changed,
      rem_sum-after_taking t.qty_remaining (b.price_array i).orders,
      (match_step-taker b s v trading t i there).0,
      ap rem_sum (left_self b s v trading t i there),
    )

  -- Matching takes from the other side of the book exactly what the taker is filled: what rests on
  -- that side and what remains of the taker have the same difference afterwards. The taker's side
  -- is Buy or Sell, and the book is valid.
  pub match_loop-conserves :
      (px fuel : ℕ) (t : Order) (b : OrderBook)
      → IsValid b s
      → let (t', b') = match_loop fuel s px t b in
        side_qty b' (opposite s) + t.qty_remaining ≡ side_qty b (opposite s) + t'.qty_remaining
  unfolding match_loop
  match_loop-conserves px zero t b v = refl
  match_loop-conserves px (suc fuel) t b v = elim (Option-cases (next_level s px t b)) [
    | inl e ↦ rw (e, match_loop)
    | inr (i, e) ↦
        let there = next_level-mem s trading px t b i v e in
        let (t', b') = match_step s i t b in
        rw (e, match_loop)
          (omega (
            arith,
            match_loop-conserves px fuel t' b' (match_step-IsValid b s v trading t i there),
            match_step-conserves t b v i there,
          ))
  ]
