-- ===== src/Feed/Latest.antt =====
-- What a batch of L2 updates does to a client's book, and what the pending totals are as a batch.
use electronic_exchange_simu.Prelude.{
  ℕ, ◌==◌, Bool, true, false, ◌&&◌, Option, none, some, List, [], ◌∷◌, ◌++◌, ◌≡◌, refl, sym, ap,
  subst, ◌∙◌, arith, if◌then◌else◌, Bool-cases, inl, inr,
}
use electronic_exchange_simu.Prelude.Int.{ℤ, eq_ℤ, eq_ℤ_iff}
use electronic_exchange_simu.Wire.{Side, buy, sell, no_side, side_eq}
use electronic_exchange_simu.Feed.L2Book.{L2Book, L2Update, update_l2, apply_l2, quantity}
use electronic_exchange_simu.Feed.Pending.{find_pending, IsAbsent, IsMap, pending_of}
use electronic_exchange_simu.Feed.MdOrderBook.{MdOrderBook, Pending, updates_of, pending_updates}

-- The later value where there is one.
abbrev pub or_else {ℓ} : {A : Type ℓ} → Option A → Option A → Option A
or_else none y = y
or_else (some x) y = some x

abbrev pub value_or : Option ℕ → ℕ → ℕ
value_or none d = d
value_or (some q) d = q

-- What one update says of a price of a side.
abbrev pub said : Side → ℤ → ℕ → Side → ℤ → Option ℕ
said side x q s p = if side_eq side s && eq_ℤ x p then some q else none

-- The last update of a batch to a price of a side.
abbrev pub last_update : List L2Update → Side → ℤ → Option ℕ
last_update [] s p = none
last_update (u ∷ us) s p = or_else (last_update us s p) (said u.side u.p u.q s p)

or_else_assoc {ℓ} :
    {A : Type ℓ} (x y z : Option A) → or_else (or_else x y) z ≡ or_else x (or_else y z)
or_else_assoc none y z = refl
or_else_assoc (some x) y z = refl

or_else-none {ℓ} : {A : Type ℓ} (x : Option A) → or_else x none ≡ x
or_else-none none = refl
or_else-none (some x) = refl

pub last_update-append :
    (xs ys : List L2Update) (s : Side) (p : ℤ)
    → last_update (xs ++ ys) s p ≡ or_else (last_update ys s p) (last_update xs s p)
last_update-append [] ys s p = sym (or_else-none (last_update ys s p))
last_update-append (x ∷ xs) ys s p =
    ap (λ o. or_else o (said x.side x.p x.q s p)) (last_update-append xs ys s p)
    ∙ or_else_assoc (last_update ys s p) (last_update xs s p) (said x.side x.p x.q s p)

-- Only sides of the market are published.
abbrev pub AllTrading : List L2Update → Type 0
AllTrading [] = Unit
AllTrading (u ∷ us) = (side_eq u.side no_side ≡ false) × AllTrading us

value_or-or_else : (x y : Option ℕ) (d : ℕ) → value_or (or_else x y) d ≡ value_or x (value_or y d)
value_or-or_else none y d = refl
value_or-or_else (some x) y d = refl

quantity-update_l2 :
    (b : L2Book) (side : Side) (x : ℤ) (q : ℕ) (s : Side) (p : ℤ)
    → side_eq side no_side ≡ false
    → side_eq s no_side ≡ false
    → quantity (update_l2 b side x q) s p ≡ value_or (said side x q s p) (quantity b s p)
unfolding update_l2
quantity-update_l2 b buy x q buy p h k = ground arith
quantity-update_l2 b buy x q sell p h k = refl
quantity-update_l2 b sell x q buy p h k = refl
quantity-update_l2 b sell x q sell p h k = ground arith
quantity-update_l2 b no_side x q s p h k = cc
quantity-update_l2 b buy x q no_side p h k = cc
quantity-update_l2 b sell x q no_side p h k = cc

pub quantity-apply_l2 :
    (b : L2Book) (us : List L2Update) (s : Side) (p : ℤ)
    → AllTrading us
    → side_eq s no_side ≡ false
    → quantity (apply_l2 b us) s p ≡ value_or (last_update us s p) (quantity b s p)
unfolding apply_l2
quantity-apply_l2 b [] s p h k = refl
quantity-apply_l2 b (u ∷ us) s p h k =
    quantity-apply_l2 (update_l2 b u.side u.p u.q) us s p h.1 k
    ∙ ap (value_or (last_update us s p)) (quantity-update_l2 b u.side u.p u.q s p h.0 k)
    ∙ sym (value_or-or_else (last_update us s p) (said u.side u.p u.q s p) (quantity b s p))

updates_of-AllTrading :
    (side : Side) (z : Bool) (xs : Pending)
    → side_eq side no_side ≡ false
    → AllTrading (updates_of side z xs)
unfolding updates_of
updates_of-AllTrading side z [] h = tt
updates_of-AllTrading side z ((p, q) ∷ xs) h = ground (arith, updates_of-AllTrading side z xs h)

pub AllTrading-append :
    (xs ys : List L2Update) → AllTrading xs → AllTrading ys → AllTrading (xs ++ ys)
AllTrading-append [] ys h k = k
AllTrading-append (x ∷ xs) ys h k = (h.0, AllTrading-append xs ys h.1 k)

-- The updates of one side say nothing of the other one.
updates_of-other :
    (side : Side) (z : Bool) (xs : Pending) (s : Side) (p : ℤ)
    → side_eq side s ≡ false
    → last_update (updates_of side z xs) s p ≡ none
unfolding updates_of
updates_of-other side z [] s p h = refl
updates_of-other side z ((x, q) ∷ xs) s p h = ground (arith, updates_of-other side z xs s p h)

updates_of-IsAbsent :
    (side : Side) (z : Bool) (xs : Pending) (p : ℤ)
    → IsAbsent p xs
    → last_update (updates_of side z xs) side p ≡ none
unfolding updates_of
updates_of-IsAbsent side z [] p h = refl
updates_of-IsAbsent side z ((x, q) ∷ xs) p h = ground (arith, updates_of-IsAbsent side z xs p h.1)

-- An entry is in the pass that its quantity says.
abbrev pub in_pass : Bool → Option ℕ → Option ℕ
in_pass z none = none
in_pass true (some q) = if q == 0 then some q else none
in_pass false (some q) = if q == 0 then none else some q

side_eq_self : (s : Side) → side_eq s s ≡ true
side_eq_self buy = refl
side_eq_self sell = refl
side_eq_self no_side = refl

last_update-updates_of :
    (side : Side) (z : Bool) (xs : Pending) (p : ℤ)
    → IsMap xs
    → last_update (updates_of side z xs) side p ≡ in_pass z (find_pending xs p)
unfolding updates_of
last_update-updates_of side z [] p h = refl
last_update-updates_of side z ((x, q) ∷ xs) p h = elim (Bool-cases (eq_ℤ x p)) [
  | inl e ↦ ground (
    arith,
    e,
    side_eq_self side,
    updates_of-IsAbsent side z xs p (subst (λ y. IsAbsent y xs) ((eq_ℤ_iff x p).0 e) h.0),
  )
  | inr e ↦ ground (arith, e, last_update-updates_of side z xs p h.1)
]

-- The two passes together.
passes : (o : Option ℕ) → or_else (in_pass false o) (in_pass true o) ≡ o
passes none = refl
passes (some q) = ground arith

four :
    (a b c d : List L2Update) (s : Side) (p : ℤ)
    → last_update (a ++ b ++ c ++ d) s p
      ≡ or_else
          (last_update d s p)
          (or_else (last_update c s p) (or_else (last_update b s p) (last_update a s p)))
four a b c d s p = rw (
  last_update-append (a ++ b ++ c) d s p,
  last_update-append (a ++ b) c s p,
  last_update-append a b s p,
)

pub last_update-pending_updates :
    (b : MdOrderBook) (s : Side) (p : ℤ)
    → IsMap b.pending_l2_bids
    → IsMap b.pending_l2_asks
    → last_update (pending_updates b) s p ≡ find_pending (pending_of b s) p
unfolding pending_updates
last_update-pending_updates b buy p h k =
    rw
      (
        four (updates_of buy true b.pending_l2_bids) (updates_of sell true b.pending_l2_asks)
            (updates_of buy false b.pending_l2_bids) (updates_of sell false b.pending_l2_asks) buy
            p,
        last_update-updates_of buy true b.pending_l2_bids p h,
        last_update-updates_of buy false b.pending_l2_bids p h,
        updates_of-other sell true b.pending_l2_asks buy p refl,
        updates_of-other sell false b.pending_l2_asks buy p refl,
      )
      (passes (find_pending b.pending_l2_bids p))
last_update-pending_updates b sell p h k =
    rw
      (
        four (updates_of buy true b.pending_l2_bids) (updates_of sell true b.pending_l2_asks)
            (updates_of buy false b.pending_l2_bids) (updates_of sell false b.pending_l2_asks) sell
            p,
        last_update-updates_of sell true b.pending_l2_asks p k,
        last_update-updates_of sell false b.pending_l2_asks p k,
        updates_of-other buy true b.pending_l2_bids sell p refl,
        updates_of-other buy false b.pending_l2_bids sell p refl,
      )
      (ap (or_else (in_pass false (find_pending b.pending_l2_asks p))) (or_else-none _)
        ∙ passes (find_pending b.pending_l2_asks p))
last_update-pending_updates b no_side p h k = rw (
  four (updates_of buy true b.pending_l2_bids) (updates_of sell true b.pending_l2_asks)
      (updates_of buy false b.pending_l2_bids) (updates_of sell false b.pending_l2_asks) no_side p,
  updates_of-other buy true b.pending_l2_bids no_side p refl,
  updates_of-other buy false b.pending_l2_bids no_side p refl,
  updates_of-other sell true b.pending_l2_asks no_side p refl,
  updates_of-other sell false b.pending_l2_asks no_side p refl,
)

pub pending_updates-AllTrading : (b : MdOrderBook) → AllTrading (pending_updates b)
unfolding pending_updates
pending_updates-AllTrading b =
    AllTrading-append _ (updates_of sell false b.pending_l2_asks)
      (AllTrading-append _ (updates_of buy false b.pending_l2_bids)
        (AllTrading-append _ (updates_of sell true b.pending_l2_asks)
          (updates_of-AllTrading buy true b.pending_l2_bids refl)
          (updates_of-AllTrading sell true b.pending_l2_asks refl))
        (updates_of-AllTrading buy false b.pending_l2_bids refl))
      (updates_of-AllTrading sell false b.pending_l2_asks refl)
