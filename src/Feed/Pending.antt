-- ===== src/Feed/Pending.antt =====
-- The pending totals of a market-data book are maps, with the latest total of each price.
use electronic_exchange_simu.Prelude.{
  ℕ, false, ◌&&◌, Option, none, some, List, [], ◌∷◌, ◌≡◌, refl, ap, ◌∙◌, arith, if◌then◌else◌,
  Bool-cases, inl, inr,
}
use electronic_exchange_simu.Prelude.Int.{ℤ, pos, negsuc, eq_ℤ, eq_ℤ_iff}
use electronic_exchange_simu.Wire.{Side, buy, sell, no_side, side_eq, ExecType}
use electronic_exchange_simu.Feed.L3Book.{LevelCall, L3Book, update_l3}
use electronic_exchange_simu.Feed.MdOrderBook.{
  MdOrderBook, Pending, put_pending, on_level_updated, take_calls, update_md,
}

-- What is pending at a price.
abbrev pub find_pending : Pending → ℤ → Option ℕ
find_pending [] p = none
find_pending ((x, q) ∷ xs) p = if eq_ℤ x p then some q else find_pending xs p

abbrev pub IsAbsent : ℤ → Pending → Type 0
IsAbsent p [] = Unit
IsAbsent p ((x, q) ∷ xs) = (eq_ℤ x p ≡ false) × IsAbsent p xs

-- Each price has at most one entry.
abbrev pub IsMap : Pending → Type 0
IsMap [] = Unit
IsMap ((x, q) ∷ xs) = IsAbsent x xs × IsMap xs

-- The map of a side.
abbrev pub pending_of : MdOrderBook → Side → Pending
pending_of b buy = b.pending_l2_bids
pending_of b sell = b.pending_l2_asks
pending_of b no_side = []

put_pending-IsAbsent :
    (xs : Pending) (p x : ℤ) (q : ℕ)
    → eq_ℤ p x ≡ false
    → IsAbsent x xs
    → IsAbsent x (put_pending xs p q)
unfolding put_pending
put_pending-IsAbsent [] p x q n h = (n, tt)
put_pending-IsAbsent ((y, r) ∷ xs) p x q n h = ground (arith, put_pending-IsAbsent xs p x q n h.1)

eq_ℤ_symm : (a b : ℤ) → eq_ℤ a b ≡ eq_ℤ b a
eq_ℤ_symm (pos a) (pos b) = ground arith
eq_ℤ_symm (pos a) (negsuc b) = refl
eq_ℤ_symm (negsuc a) (pos b) = refl
eq_ℤ_symm (negsuc a) (negsuc b) = ground arith

put_pending-IsMap : (xs : Pending) (p : ℤ) (q : ℕ) → IsMap xs → IsMap (put_pending xs p q)
unfolding put_pending
put_pending-IsMap [] p q h = (tt, tt)
put_pending-IsMap ((y, r) ∷ xs) p q h =
    ground (arith, put_pending-IsMap xs p q h.1, put_pending-IsAbsent xs p y q, eq_ℤ_symm y p, h)

-- The latest value is found at its price, the others stay.
find_pending-put_pending :
    (xs : Pending) (p : ℤ) (q : ℕ) (x : ℤ)
    → find_pending (put_pending xs p q) x ≡ (if eq_ℤ p x then some q else find_pending xs x)
unfolding put_pending
find_pending-put_pending [] p q x = refl
find_pending-put_pending ((y, r) ∷ xs) p q x = elim (Bool-cases (eq_ℤ y p)) [
  | inl e ↦ ground (arith, e, ap (λ z. eq_ℤ z x) ((eq_ℤ_iff y p).0 e))
  | inr e ↦ elim (Bool-cases (eq_ℤ y x)) [
    | inl f ↦ ground (arith, e, f, eq_ℤ_symm y p, ap (eq_ℤ p) ((eq_ℤ_iff y x).0 f))
    | inr f ↦ ground (arith, e, f, find_pending-put_pending xs p q x)
  ]
]

-- Both maps of a book.
abbrev pub AreMaps : MdOrderBook → Type 0
AreMaps b = IsMap b.pending_l2_bids × IsMap b.pending_l2_asks

-- The total of the latest call for a price of a side.
abbrev pub latest : List LevelCall → Side → ℤ → Option ℕ → Option ℕ
latest [] s p old = old
latest (c ∷ cs) s p old =
    if side_eq c.side s && eq_ℤ c.price p then some c.total_qty else latest cs s p old

on_level_updated-AreMaps :
    (b : MdOrderBook) (side : Side) (p : ℤ) (q : ℕ)
    → AreMaps b
    → AreMaps (on_level_updated b side p q)
unfolding on_level_updated
on_level_updated-AreMaps b buy p q h = (put_pending-IsMap b.pending_l2_bids p q h.0, h.1)
on_level_updated-AreMaps b sell p q h = (h.0, put_pending-IsMap b.pending_l2_asks p q h.1)
on_level_updated-AreMaps b no_side p q h = h

find_pending-on_level_updated :
    (b : MdOrderBook) (side : Side) (x : ℤ) (q : ℕ) (s : Side) (p : ℤ)
    → side_eq s no_side ≡ false
    → find_pending (pending_of (on_level_updated b side x q) s) p
      ≡ (if side_eq side s && eq_ℤ x p then some q else find_pending (pending_of b s) p)
unfolding on_level_updated
find_pending-on_level_updated b buy x q buy p h = find_pending-put_pending b.pending_l2_bids x q p
find_pending-on_level_updated b buy x q sell p h = refl
find_pending-on_level_updated b sell x q buy p h = refl
find_pending-on_level_updated b sell x q sell p h = find_pending-put_pending b.pending_l2_asks x q p
find_pending-on_level_updated b no_side x q s p h = ground arith
find_pending-on_level_updated b buy x q no_side p h = cc
find_pending-on_level_updated b sell x q no_side p h = cc

take_calls-AreMaps : (b : MdOrderBook) (cs : List LevelCall) → AreMaps b → AreMaps (take_calls b cs)
take_calls-AreMaps b [] h = h
take_calls-AreMaps b (c ∷ cs) h =
    on_level_updated-AreMaps (take_calls b cs) c.side c.price c.total_qty
      (take_calls-AreMaps b cs h)

find_pending-take_calls :
    (b : MdOrderBook) (cs : List LevelCall) (s : Side) (p : ℤ)
    → side_eq s no_side ≡ false
    → find_pending (pending_of (take_calls b cs) s) p
      ≡ latest cs s p (find_pending (pending_of b s) p)
find_pending-take_calls b [] s p h = refl
find_pending-take_calls b (c ∷ cs) s p h =
    find_pending-on_level_updated (take_calls b cs) c.side c.price c.total_qty s p h
    ∙ ap (λ o. if side_eq c.side s && eq_ℤ c.price p then some c.total_qty else o)
        (find_pending-take_calls b cs s p h)

pending_of-book :
    (b : MdOrderBook) (l3 : L3Book) (s : Side)
    → pending_of (record b { book = l3 }) s ≡ pending_of b s
pending_of-book b l3 buy = refl
pending_of-book b l3 sell = refl
pending_of-book b l3 no_side = refl

-- After an update of a market-data book, each price of each side has pending the total of the
-- latest call of on_level_updated that the update made for it, and what was pending before where it
-- made none; and the pending totals are maps still, if they were before.
pub update_md-latest :
    (b : MdOrderBook) (type : ExecType) (order_id : ℕ) (side : Side) (price : ℤ) (qty q_rem : ℕ)
    (s : Side) (p : ℤ)
    → AreMaps b
    → side_eq s no_side ≡ false
    → let b' = update_md b type order_id side price qty q_rem in
      let l3 = update_l3 (record b.book { calls = [] }) type order_id side price qty q_rem in
      AreMaps b'
      × (find_pending (pending_of b' s) p ≡ latest l3.calls s p (find_pending (pending_of b s) p))
unfolding update_md
update_md-latest b type order_id side price qty q_rem s p maps h =
    let l3 : L3Book = update_l3 (record b.book { calls = [] }) type order_id side price qty q_rem in
    let b1 : MdOrderBook = record b { book = record l3 { calls = [] } } in
    (
      take_calls-AreMaps b1 l3.calls maps,
      find_pending-take_calls b1 l3.calls s p h
          ∙ ap (λ xs. latest l3.calls s p (find_pending xs p))
              (pending_of-book b (record l3 { calls = [] }) s),
    )
