-- ===== src/OrderBook/MatchLoop.antt =====
-- The outer loop of OrderBook::match: it keeps the invariant, its fuel is enough, and it leaves the
-- price uncrossed or the taker used up.
use electronic_exchange_simu.Prelude.{
  ℕ, zero, suc, ◌<◌, ◌≤◌, Bool, true, false, none, some, ◌≡◌, refl, ap, subst, ◌∙◌, arith,
  Option-cases, inl, inr, length,
}
use electronic_exchange_simu.Wire.{Side, buy, sell, no_side}
use electronic_exchange_simu.OrderBook.State.{Order, OrderBook, opposite}
use electronic_exchange_simu.OrderBook.Match.{crossed, match_step, match_loop, next_level}
use electronic_exchange_simu.OrderBook.Nearest.{IsExtreme}
use electronic_exchange_simu.OrderBook.Linked.{IsLinked, dir, keys_of}
use electronic_exchange_simu.OrderBook.Valid.{IsValid, IsTrading, HasRoom}
use electronic_exchange_simu.OrderBook.Fifo.{IsSized}
use electronic_exchange_simu.OrderBook.MatchStep.{
  match_step-IsValid, match_step-progress, length-match_step, match_step-taker,
}
use electronic_exchange_simu.OrderBook.Taken.{next_level_found}

-- The best level is a key.
best-mem :
    (b : OrderBook) (s : Side) (i : ℕ)
    → IsLinked b s
    → b.best_levels s ≡ some i
    → keys_of b s i ≡ true
best-mem b s i v e = (subst (IsExtreme (dir s) (keys_of b s)) e v.best).0

module _ (s : Side) (trading : IsTrading s) (px : ℕ) where
  pub next_level-mem :
      (t : Order) (b : OrderBook) (i : ℕ)
      → IsValid b s
      → next_level s px t b ≡ some i
      → keys_of b (opposite s) i ≡ true
  next_level-mem t b i v e = best-mem b (opposite s) i v.facing (next_level_found s px i t b e).0

  pub match_loop-IsValid :
      (fuel : ℕ) (t : Order) (b : OrderBook) → IsValid b s → IsValid (match_loop fuel s px t b).1 s
  unfolding match_loop
  match_loop-IsValid zero t b v = v
  match_loop-IsValid (suc fuel) t b v = elim (Option-cases (next_level s px t b)) [
    | inl e ↦ rw (e, match_loop) v
    | inr (i, e) ↦
        rw (e, match_loop)
          (match_loop-IsValid fuel _ _
            (match_step-IsValid b s v trading t i (next_level-mem t b i v e)))
  ]

  next_level-used_up :
      (t : Order) (b : OrderBook) → t.qty_remaining ≡ 0 → next_level s px t b ≡ none
  unfolding next_level
  next_level-used_up t b h = ground arith

  match_loop-used_up :
      (fuel : ℕ) (t : Order) (b : OrderBook)
      → t.qty_remaining ≡ 0
      → match_loop fuel s px t b ≡ (t, b)
  unfolding match_loop
  match_loop-used_up zero t b h = refl
  match_loop-used_up (suc fuel) t b h = rw (next_level-used_up t b h, match_loop)

  -- The outer loop ends by its own test: where the fuel is above the number of levels of the other
  -- side, no next level is left afterwards. The taker's side is Buy or Sell, and the book is valid.
  pub match_loop-stops :
      (fuel : ℕ) (t : Order) (b : OrderBook)
      → IsValid b s
      → length (b.active_levels (opposite s)) < fuel
      → let (t', b') = match_loop fuel s px t b in next_level s px t' b' ≡ none
  unfolding match_loop
  match_loop-stops zero t b v h = absurd (omega arith)
  match_loop-stops (suc fuel) t b v h = elim (Option-cases (next_level s px t b)) [
    | inl e ↦ rw (e, match_loop) e
    | inr (i, e) ↦
        let there = next_level-mem t b i v e in
        let (t', b') = match_step s i t b in
        rw (e, match_loop)
          (elim (match_step-progress b s v trading t i there) [
            | inl used ↦ rw (match_loop-used_up fuel t' b' used) (next_level-used_up t' b' used)
            | inr fewer ↦
                match_loop-stops fuel t' b' (match_step-IsValid b s v trading t i there)
                  (omega (arith, fewer))
          ])
  ]

  pub match_loop-HasRoom :
      (fuel : ℕ) (t : Order) (b : OrderBook)
      → IsValid b s
      → HasRoom b
      → HasRoom (match_loop fuel s px t b).1
  unfolding match_loop
  match_loop-HasRoom zero t b v room = room
  match_loop-HasRoom (suc fuel) t b v room = elim (Option-cases (next_level s px t b)) [
    | inl e ↦ rw (e, match_loop) room
    | inr (i, e) ↦
        let there = next_level-mem t b i v e in
        let (t', b') = match_step s i t b in
        rw (e, match_loop)
          (match_loop-HasRoom fuel t' b' (match_step-IsValid b s v trading t i there)
            λ k. omega (arith, length-match_step b s v trading t i there k, room k))
  ]

  -- The taker keeps everything but its remaining quantity.
  pub match_loop-taker :
      (fuel : ℕ) (t : Order) (b : OrderBook)
      → IsValid b s
      → ((match_loop fuel s px t b).0.qty_remaining ≤ t.qty_remaining)
        × ((q : ℕ)
            → record (match_loop fuel s px t b).0 { qty_remaining = q }
              ≡ record t { qty_remaining = q })
  unfolding match_loop
  match_loop-taker zero t b v = (omega arith, λ q. refl)
  match_loop-taker (suc fuel) t b v = elim (Option-cases (next_level s px t b)) [
    | inl e ↦ rw (e, match_loop) (omega arith, λ q. refl)
    | inr (i, e) ↦
        let there = next_level-mem t b i v e in
        let (t', b') = match_step s i t b in
        let ih = match_loop-taker fuel t' b' (match_step-IsValid b s v trading t i there) in
        let one = match_step-taker b s v trading t i there in
        rw (e, match_loop) (omega (arith, ih.0, one.0), λ q. ih.1 q ∙ one.1 q)
  ]

  pub match_loop-IsSized :
      (fuel : ℕ) (t : Order) (b : OrderBook)
      → IsValid b s
      → IsSized t
      → IsSized (match_loop fuel s px t b).0
  match_loop-IsSized fuel t b v h =
      let (less, same) = match_loop-taker fuel t b v in
      omega (arith, ap (λ o. o.qty_original) (same 0))

-- A price that does not reach the best level of the other side reaches none of them.
unreached :
    (s : Side) (px k : ℕ) (K : ℕ → Bool) (p : ℕ)
    → IsTrading s
    → IsExtreme (dir (opposite s)) K (some p)
    → crossed s px p ≡ false
    → K k ≡ true
    → crossed s px k ≡ false
unreached buy px k K p trading x h hk = grind arith
unreached sell px k K p trading x h hk = grind arith
unreached no_side px k K p trading x h hk = cc

next_level-crossed :
    (s : Side) (px p : ℕ) (t : Order) (b : OrderBook)
    → 0 < t.qty_remaining
    → next_level s px t b ≡ none
    → b.best_levels (opposite s) ≡ some p
    → crossed s px p ≡ false
unfolding next_level
next_level-crossed buy px p t b h e q = ground arith
next_level-crossed sell px p t b h e q = ground arith
next_level-crossed no_side px p t b h e q = ground arith

-- Where the outer loop ends with a taker that is not used up, no level of the other side is within
-- the taker's price. The taker's side is Buy or Sell, and the chain of the other side is linked.
pub next_level-none :
    (s : Side) (px : ℕ) (t : Order) (b : OrderBook)
    → IsTrading s
    → IsLinked b (opposite s)
    → 0 < t.qty_remaining
    → next_level s px t b ≡ none
    → (k : ℕ) → keys_of b (opposite s) k ≡ true
    → crossed s px k ≡ false
next_level-none s px t b trading v h e k hk = elim (Option-cases (b.best_levels (opposite s))) [
  | inl q ↦ cc (subst (IsExtreme (dir (opposite s)) (keys_of b (opposite s))) q v.best k, hk)
  | inr (p, q) ↦
      unreached s px k (keys_of b (opposite s)) p trading
        (subst (IsExtreme (dir (opposite s)) (keys_of b (opposite s))) q v.best)
        (next_level-crossed s px p t b h e q) hk
]
