-- ===== src/MarketData/Waiting.antt =====
-- src/MarketDataServer.cpp: the order that waits for its fills crosses the book while it waits.
use electronic_exchange_simu.Prelude.{
  ℕ, ◌==◌, ◌&&◌, ◌||◌, not, Bool, true, false, Option, none, some, ◌≡◌, ◌⊎◌, refl, sym, ap, ◌∙◌,
  arith, if_elim, ==_iff, Bool-cases, inl, inr, subst,
}
use electronic_exchange_simu.Prelude.Int.{ℤ}
use electronic_exchange_simu.Wire.{Side, buy, sell, no_side, side_eq, exec_new, OrderResponse}
use electronic_exchange_simu.Feed.L3Book.{is_replaced}
use electronic_exchange_simu.Accounts.ClientDatabase.{is_ann}
use electronic_exchange_simu.MarketData.ServerBook.{ServerBook, crosses, reaches, best, other_side}
use electronic_exchange_simu.MarketData.Server.{
  MarketDataServer, set_book, book_of, get_or_create_book, update_server, is_resp, is_me, is_md,
  is_par, filled_pending, set_pending, fake_cancel, release_pending, finish_update, hold_back,
  process_market_update,
}
use electronic_exchange_simu.MarketData.Symbols.{
  Elsewhere, set_book-Elsewhere, update_server-Elsewhere, Elsewhere-trans, book_of-set_book_self,
  book_of-update_server_self,
}
use electronic_exchange_simu.MarketData.Cancelling.{OnItsSide, cancel_keys}

-- No order waits, or the one that waits crosses the book.
abbrev pub Waits : ServerBook → Type 0
Waits b = (b.pending_order.order_id ≡ 0) ⊎ (crosses b.pending_order.side b.pending_order.p b ≡ true)

abbrev pub AllWait : MarketDataServer → Type 0
AllWait s = (k : ℕ) → Waits (book_of s k)

AllWait-Elsewhere :
    (k : ℕ) (s s' : MarketDataServer)
    → Elsewhere k s s'
    → AllWait s
    → Waits (book_of s' k)
    → AllWait s'
AllWait-Elsewhere k s s' same h w j = elim (Bool-cases (k == j)) [
  | inl e ↦ subst (λ i. Waits (book_of s' i)) ((==_iff k j).0 e) w
  | inr e ↦ subst Waits (sym (same j e)) (h j)
]

Waits-set_book :
    (s : MarketDataServer) (k : ℕ) (b : ServerBook) → Waits b → Waits (book_of (set_book s k b) k)
Waits-set_book s k b w = subst Waits (sym (book_of-set_book_self s k b)) w

set_book-AllWait :
    (s : MarketDataServer) (k : ℕ) (b : ServerBook) → AllWait s → Waits b → AllWait (set_book s k b)
set_book-AllWait s k b h w =
    AllWait-Elsewhere k s (set_book s k b) (set_book-Elsewhere k s b) h (Waits-set_book s k b w)

by_test : (n : ℕ) (c : Bool) → ((n == 0) || c) ≡ true → (n ≡ 0) ⊎ (c ≡ true)
by_test n c h = ground arith

release_pending-AllWait :
    (s s1 : MarketDataServer) (k : ℕ) (pending : OrderResponse)
    → Elsewhere k s s1
    → AllWait s
    → AllWait (release_pending s1 k pending)
unfolding release_pending
release_pending-AllWait s s1 k pending same h =
    AllWait-Elsewhere k s (release_pending s1 k pending)
      (Elsewhere-trans k s s1 (release_pending s1 k pending) same (
        Elsewhere-trans k s1 (update_server s1 k pending) (release_pending s1 k pending)
          (update_server-Elsewhere k s1 pending)
          (set_book-Elsewhere k (update_server s1 k pending) _)))
      h (Waits-set_book (update_server s1 k pending) k _ (inl refl))

finish_update-AllWait :
    (s : MarketDataServer) (r : OrderResponse) → AllWait s → AllWait (finish_update s r)
unfolding finish_update release_pending
finish_update-AllWait s r h =
    if_elim AllWait
      ((b1.pending_order.order_id == 0) || crosses b1.pending_order.side b1.pending_order.p b1)
      (λ e.
        AllWait-Elsewhere k s s1 (update_server-Elsewhere k s r) h (
          by_test b1.pending_order.order_id (crosses b1.pending_order.side b1.pending_order.p b1)
            e))
      (λ _. release_pending-AllWait s s1 k b1.pending_order (update_server-Elsewhere k s r) h)
  where
    k : ℕ
    k = r.symbol_id

    s1 : MarketDataServer
    s1 = update_server s k r

    b1 : ServerBook
    b1 = book_of s1 k

reaches_no_side : (p : ℤ) (o : Option ℤ) → reaches no_side p o ≡ false
reaches_no_side p none = refl
reaches_no_side p (some q) = refl

crosses-side :
    (side : Side) (p : ℤ) (b : ServerBook) → crosses side p b ≡ true → side_eq side no_side ≡ false
unfolding crosses
crosses-side buy p b h = refl
crosses-side sell p b h = refl
crosses-side no_side p b h = cc (reaches_no_side p (best b buy))

crosses-keys :
    (side : Side) (p : ℤ) (b b' : ServerBook)
    → b'.keys (other_side side) ≡ b.keys (other_side side)
    → crosses side p b' ≡ crosses side p b
unfolding crosses
crosses-keys side p b b' e = rw e refl

hold_back-AllWait :
    (s : MarketDataServer) (r : OrderResponse)
    → (is_replaced r.exec_type ≡ true → OnItsSide (book_of s r.symbol_id) r)
    → crosses r.side r.p (book_of s r.symbol_id) ≡ true
    → AllWait s
    → AllWait (hold_back s r)
unfolding hold_back
hold_back-AllWait s r own c h =
    if_elim (λ s1. AllWait (held s1)) (is_replaced r.exec_type)
      (λ replacing.
        AllWait-Elsewhere k s (held cancelled_server)
          (Elsewhere-trans k s cancelled_server (held cancelled_server)
            (update_server-Elsewhere k s (fake_cancel r))
            (set_book-Elsewhere k cancelled_server
              (set_pending (book_of cancelled_server k) waiting)))
          h (Waits-set_book cancelled_server k _ (inr (still replacing))))
      (λ _. set_book-AllWait s k _ h (inr (crosses-keys r.side r.p (book_of s k) _ refl ∙ c)))
  where
    k : ℕ
    k = r.symbol_id

    waiting : OrderResponse
    waiting = record r { exec_type = exec_new }

    held : MarketDataServer → MarketDataServer
    held s1 = set_book s1 k (set_pending (book_of s1 k) waiting)

    cancelled_server : MarketDataServer
    cancelled_server = update_server s k (fake_cancel r)

    still :
        is_replaced r.exec_type ≡ true
        → crosses r.side r.p
            (set_pending (book_of cancelled_server k) (record r { exec_type = exec_new }))
          ≡ true
    still replacing =
        crosses-keys r.side r.p (book_of s k) _ (
          ap (λ b. b.keys (other_side r.side)) (book_of-update_server_self s k (fake_cancel r))
          ∙ cancel_keys (book_of s k) r (crosses-side r.side r.p (book_of s k) c) (own replacing))
        ∙ c

not-true : (a : Bool) → not a ≡ true → a ≡ false
not-true true h = cc
not-true false h = refl

both_true : (a c : Bool) → (a && c) ≡ true → c ≡ true
both_true true c h = h
both_true false c h = cc

some-injective : {a b : MarketDataServer} → some a ≡ some b → a ≡ b
some-injective e = cc

Waits-filled :
    (b : ServerBook) (r : OrderResponse)
    → (b.pending_order.order_id == 0) ≡ false
    → Waits b
    → Waits (set_pending b (filled_pending b.pending_order r))
Waits-filled b r waiting h =
    if_elim (λ o. Waits (set_pending b o)) (is_par r.exec_type)
      (λ _. elim h [
        | inl e ↦ absurd (ground arith)
        | inr c ↦ inr (crosses-keys b.pending_order.side b.pending_order.p b _ refl ∙ c)
      ])
      (λ _. inl refl)

get_or_create_book_lem :
    (s : MarketDataServer) (k : ℕ)
    → get_or_create_book s k ≡ (book_of s k, set_book s k (book_of s k))
unfolding get_or_create_book
get_or_create_book_lem s k = refl

-- After every report that is processed, an order that waits still crosses its book: none is held
-- back that could be shown. Before, each does; the report is processed without a throw; and a
-- replacement's order rests on the side that the report names, if at all.
pub process_market_update-AllWait :
    (s s' : MarketDataServer) (r : OrderResponse)
    → AllWait s
    → (is_replaced r.exec_type ≡ true → OnItsSide (book_of s r.symbol_id) r)
    → process_market_update s r ≡ some s'
    → AllWait s'
unfolding process_market_update get_or_create_book
process_market_update-AllWait s s' r h own =
    if_elim Ends (not (is_md r.exec_type)) (λ _. ends s h)
      (λ _.
        if_elim Ends (not (b.pending_order.order_id == 0))
          (λ waiting.
            if_elim Ends (is_resp r.exec_type) (λ _ e. cc)
              (λ _.
                if_elim Ends own_fill
                  (λ _. ends filled (
                    set_book-AllWait s1 k (set_pending b (filled_pending b.pending_order r)) created
                      (Waits-filled b r (not-true (b.pending_order.order_id == 0) waiting) (h k))))
                  (λ _. ends (finish_update s1 r) (finish_update-AllWait s1 r created))))
          (λ _.
            if_elim Ends (is_me r.exec_type && crosses r.side r.p b)
              (λ c. ends (hold_back s1 r) (
                hold_back-AllWait s1 r
                  (λ e. subst (λ x. OnItsSide x r) (sym (book_of-set_book_self s k b)) (own e))
                  (subst (λ x. crosses r.side r.p x ≡ true) (sym (book_of-set_book_self s k b))
                    (both_true (is_me r.exec_type) (crosses r.side r.p b) c))
                  created))
              (λ _. ends (finish_update s1 r) (finish_update-AllWait s1 r created))))
  where
    k : ℕ
    k = r.symbol_id

    b : ServerBook
    b = book_of s k

    s1 : MarketDataServer
    s1 = set_book s k b

    filled : MarketDataServer
    filled = set_book s1 k (set_pending b (filled_pending b.pending_order r))

    own_fill : Bool
    own_fill =
        (is_ann r.exec_type || is_par r.exec_type)
        && (r.order_id == b.pending_order.order_id)
        && (r.client_id == b.pending_order.client_id)

    Ends : Option MarketDataServer → Type 0
    Ends o = o ≡ some s' → AllWait s'

    ends : (t : MarketDataServer) → AllWait t → Ends (some t)
    ends t w e = subst AllWait (some-injective e) w

    created : AllWait s1
    created = set_book-AllWait s k b h (h k)
