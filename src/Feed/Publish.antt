-- ===== src/Feed/Publish.antt =====
-- Publishing brings a client's L2 book to the pending totals.
use electronic_exchange_simu.Prelude.{
  ℕ, false, none, some, List, [], ◌≡◌, refl, sym, ap, subst, ◌∙◌, arith,
}
use electronic_exchange_simu.Prelude.Int.{ℤ}
use electronic_exchange_simu.Wire.{Side, buy, sell, no_side, side_eq}
use electronic_exchange_simu.Feed.MdOrderBook.{
  MdOrderBook, pending_updates, extract_pending_l2_updates,
}
use electronic_exchange_simu.Feed.L2Book.{L2Book, L2Update, apply_l2, quantity}
use electronic_exchange_simu.Feed.Pending.{find_pending, IsMap, pending_of}
use electronic_exchange_simu.Feed.Latest.{
  value_or, last_update-pending_updates, quantity-apply_l2, pending_updates-AllTrading,
}

-- What is published, and what is pending afterwards.
extracted :
    (b b' : MdOrderBook) (now throttle_ms : ℕ) (us : List L2Update)
    → extract_pending_l2_updates b now throttle_ms ≡ some (us, b')
    → (us ≡ pending_updates b) × (b'.pending_l2_bids ≡ []) × (b'.pending_l2_asks ≡ [])
unfolding extract_pending_l2_updates
extracted b b' now throttle_ms us e = ground (arith, e)

find_pending-none :
    (b : MdOrderBook) (s : Side) (p : ℤ)
    → b.pending_l2_bids ≡ []
    → b.pending_l2_asks ≡ []
    → find_pending (pending_of b s) p ≡ none
find_pending-none b buy p h k = rw h
find_pending-none b sell p h k = rw k
find_pending-none b no_side p h k = refl

-- Publishing brings a client up to date: where the pending updates of a book are extracted,
-- applying them to any L2 book leaves at each price of each side the pending total where there is
-- one and the quantity that was there elsewhere, and nothing is pending afterwards. The pending
-- maps have at most one entry for each price.
pub apply_l2-extract :
    (b b' : MdOrderBook) (now throttle_ms : ℕ) (us : List L2Update) (c : L2Book) (s : Side) (p : ℤ)
    → IsMap b.pending_l2_bids
    → IsMap b.pending_l2_asks
    → side_eq s no_side ≡ false
    → extract_pending_l2_updates b now throttle_ms ≡ some (us, b')
    → (quantity (apply_l2 c us) s p ≡ value_or (find_pending (pending_of b s) p) (quantity c s p))
      × (find_pending (pending_of b' s) p ≡ none)
apply_l2-extract b b' now throttle_ms us c s p h k side e =
    let (same, bids, asks) = extracted b b' now throttle_ms us e in
    (
      subst
          (λ xs.
            quantity (apply_l2 c xs) s p
            ≡ value_or (find_pending (pending_of b s) p) (quantity c s p))
          (sym same)
          (quantity-apply_l2 c (pending_updates b) s p (pending_updates-AllTrading b) side
            ∙ ap (λ o. value_or o (quantity c s p)) (last_update-pending_updates b s p h k)),
      find_pending-none b' s p bids asks,
    )
