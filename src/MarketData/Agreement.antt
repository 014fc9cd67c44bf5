-- ===== src/MarketData/Agreement.antt =====
-- src/MarketDataServer.cpp: the sets of clients and the subscriptions of each client agree.
use electronic_exchange_simu.Prelude.{
  ℕ, ◌==◌, Bool, true, false, some, List, [], ◌∷◌, ◌≡◌, refl, ap, ◌∙◌, arith, if◌then◌else◌,
  if_elim, ==_iff, subst, Bool-cases, Option-cases, inl, inr,
}
use electronic_exchange_simu.Feed.L2Book.{L2Update}
use electronic_exchange_simu.MarketData.ServerBook.{ServerBook}
use electronic_exchange_simu.MarketData.Server.{
  MdType, l1, l2, l3, MarketDataServer, get_or_create_book, book_of, set_book,
}
use electronic_exchange_simu.MarketData.Snapshots.{
  send_top_of_book, send_l2_snapshot, send_l3_snapshot, send_rest, rest_updates, l3_updates,
}
use electronic_exchange_simu.MarketData.Subscriptions.{
  SubType, single_snapshot, subscribe, unsubscribe, MarketDataRequest, has_client, insert_client,
  erase_client, tag_eq, has_tag, remove_tag, add_tag, set_clients, set_subs, register,
  send_snapshot, unsubscribe_client, subscribe_client, handle_market_data_request,
}
use electronic_exchange_simu.MarketData.Registered.{
  Distinct, Distinct-insert_client, Distinct-erase_client, has-insert_client, has-erase_client,
  has_tag-add_tag, has_tag-remove_tag,
}

abbrev pub is_l1 : MdType → Bool
is_l1 l1 = true
is_l1 _ = false

abbrev pub clients_of : MarketDataServer → MdType → ℕ → List ℕ
clients_of s l1 k = s.l1_clients k
clients_of s l2 k = s.l2_clients k
clients_of s l3 k = s.l3_clients k

-- The clients of a kind are those that have the subscription, each once.
pub record Agrees (s : MarketDataServer) (t : MdType) : Type 0 where
  pub distinct : (k : ℕ) → Distinct (clients_of s t k)
  pub matching : (c k : ℕ) → has_client c (clients_of s t k) ≡ has_tag (t, k) (s.subs c)

both : (a x : Bool) → x ≡ (if a then x else x)
both true x = refl
both false x = refl

pub clients_of-set_clients :
    (s : MarketDataServer) (u : MdType) (j : ℕ) (f : List ℕ → List ℕ) (t : MdType) (k : ℕ)
    → clients_of (set_clients s u j f) t k
      ≡ (if tag_eq (u, j) (t, k) then f (clients_of s t k) else clients_of s t k)
clients_of-set_clients s l1 j f l1 k = ground arith
clients_of-set_clients s l2 j f l2 k = ground arith
clients_of-set_clients s l3 j f l3 k = ground arith
clients_of-set_clients s l1 j f l2 k = refl
clients_of-set_clients s l1 j f l3 k = refl
clients_of-set_clients s l2 j f l1 k = refl
clients_of-set_clients s l2 j f l3 k = refl
clients_of-set_clients s l3 j f l1 k = refl
clients_of-set_clients s l3 j f l2 k = refl

-- A message that is sent, or a book that is made, changes no subscription.
record Same (s s' : MarketDataServer) : Type 0 where
  same_l1 : s'.l1_clients ≡ s.l1_clients
  same_l2 : s'.l2_clients ≡ s.l2_clients
  same_l3 : s'.l3_clients ≡ s.l3_clients
  same_subs : s'.subs ≡ s.subs

Same-Agrees : {s s' : MarketDataServer} {t : MdType} → Same s s' → Agrees s t → Agrees s' t
Same-Agrees {t = l1} e h = record {
  distinct = λ k. rw e.same_l1 (h.distinct k);
  matching = λ c k. rw (e.same_l1, e.same_subs) (h.matching c k);
}
Same-Agrees {t = l2} e h = record {
  distinct = λ k. rw e.same_l2 (h.distinct k);
  matching = λ c k. rw (e.same_l2, e.same_subs) (h.matching c k);
}
Same-Agrees {t = l3} e h = record {
  distinct = λ k. rw e.same_l3 (h.distinct k);
  matching = λ c k. rw (e.same_l3, e.same_subs) (h.matching c k);
}

pub clients_of-set_subs :
    (s : MarketDataServer) (client : ℕ) (g : List (MdType × ℕ) → List (MdType × ℕ)) (t : MdType)
    (k : ℕ)
    → clients_of (set_subs s client g) t k ≡ clients_of s t k
clients_of-set_subs s client g l1 k = refl
clients_of-set_subs s client g l2 k = refl
clients_of-set_subs s client g l3 k = refl

subs-set_clients :
    (s : MarketDataServer) (u : MdType) (j : ℕ) (f : List ℕ → List ℕ)
    → (set_clients s u j f).subs ≡ s.subs
subs-set_clients s l1 j f = refl
subs-set_clients s l2 j f = refl
subs-set_clients s l3 j f = refl

-- A change of one client at one tag, in its set and in its subscriptions.
module _ (client : ℕ) (u : MdType) (j : ℕ) (v : Bool) (f : List ℕ → List ℕ)
    (g : List (MdType × ℕ) → List (MdType × ℕ))
    (keeps : (cs : List ℕ) → Distinct cs → Distinct (f cs))
    (member : (c : ℕ) (cs : List ℕ)
      → Distinct cs
      → has_client c (f cs) ≡ (if client == c then v else has_client c cs))
    (tagged : (t : MdType × ℕ) (ts : List (MdType × ℕ))
      → has_tag t (g ts) ≡ (if tag_eq (u, j) t then v else has_tag t ts)) where
  changed : MarketDataServer → MarketDataServer
  changed s = set_subs (set_clients s u j f) client g

  clients_of-changed :
      (s : MarketDataServer) (t : MdType) (k : ℕ)
      → clients_of (changed s) t k
        ≡ (if tag_eq (u, j) (t, k) then f (clients_of s t k) else clients_of s t k)
  unfolding changed
  clients_of-changed s t k =
      clients_of-set_subs (set_clients s u j f) client g t k ∙ clients_of-set_clients s u j f t k

  subs_changed :
      (s : MarketDataServer) (c : ℕ) (t : MdType × ℕ)
      → has_tag t ((changed s).subs c) ≡ (
          if client == c
          then (if tag_eq (u, j) t then v else has_tag t (s.subs c))
          else has_tag t (s.subs c))
  unfolding changed
  subs_changed s c t = rw (subs-set_clients s u j f) (elim (Bool-cases (client == c)) [
    | inl e ↦ rw e (
        tagged t (s.subs client)
        ∙ ap (λ x. if tag_eq (u, j) t then v else has_tag t (s.subs x)) ((==_iff client c).0 e))
    | inr e ↦ rw e
  ])

  changed-Agrees : (s : MarketDataServer) (t : MdType) → Agrees s t → Agrees (changed s) t
  changed-Agrees s t h = record {
    distinct = λ k. rw (clients_of-changed s t k) (
        if_elim (λ l. Distinct l) (tag_eq (u, j) (t, k)) (λ _. keeps _ (h.distinct k))
          (λ _. h.distinct k));
    matching = λ c k.
        rw (clients_of-changed s t k, subs_changed s c (t, k))
          (elim (Bool-cases (tag_eq (u, j) (t, k))) [
            | inl e ↦ rw e (
                member c (clients_of s t k) (h.distinct k)
                ∙ ap (λ x. if client == c then v else x) (h.matching c k))
            | inr e ↦ rw e (h.matching c k ∙ both (client == c) (has_tag (t, k) (s.subs c)))
          ]);
  }

pub register-Agrees :
    (s : MarketDataServer) (client : ℕ) (u : MdType) (j : ℕ) (t : MdType)
    → Agrees s t
    → Agrees (register s client u j) t
unfolding changed
register-Agrees s client u j t =
    changed-Agrees client u j true (insert_client client) (add_tag (u, j))
      (Distinct-insert_client client) (λ c cs h. has-insert_client c client cs)
      (λ x ts. has_tag-add_tag x (u, j) ts) s t

unsubscribe_client-Agrees :
    (s : MarketDataServer) (client : ℕ) (u : MdType) (j : ℕ) (t : MdType)
    → Agrees s t
    → Agrees (unsubscribe_client s client u j) t
unfolding changed unsubscribe_client
unsubscribe_client-Agrees s client u j t =
    changed-Agrees client u j false (erase_client client) (remove_tag (u, j))
      (Distinct-erase_client client) (λ c cs h. has-erase_client c client cs h)
      (λ x ts. has_tag-remove_tag x (u, j) ts) s t

send_rest-Same :
    (s s' : MarketDataServer) (client k : ℕ) (us : List L2Update)
    → Same s s'
    → Same s (send_rest s' client k us)
send_rest-Same s s' client k [] h = h
send_rest-Same s s' client k (u ∷ us) h = record {
  same_l1 = h.same_l1;
  same_l2 = h.same_l2;
  same_l3 = h.same_l3;
  same_subs = h.same_subs;
}

Same-refl : (s : MarketDataServer) → Same s s
Same-refl s = record { same_l1 = refl; same_l2 = refl; same_l3 = refl; same_subs = refl }

some-injective : {a b : MarketDataServer} → some a ≡ some b → a ≡ b
some-injective e = cc

send_l3_snapshot-Same :
    (s s1 s' : MarketDataServer) (client k : ℕ) (b : ServerBook)
    → Same s s1
    → send_l3_snapshot s1 client k b ≡ some s'
    → Same s s'
unfolding send_l3_snapshot
send_l3_snapshot-Same s s1 s' client k b h e = elim (Option-cases (l3_updates b)) [
  | inl none_there ↦ absurd (cc (rw (none_there, send_l3_snapshot) at e))
  | inr (us, found) ↦ subst (Same s) (some-injective (rw (found, send_l3_snapshot) at e)) (record {
    same_l1 = h.same_l1;
    same_l2 = h.same_l2;
    same_l3 = h.same_l3;
    same_subs = h.same_subs;
  })
]

send_snapshot-Same :
    (s s' : MarketDataServer) (client : ℕ) (u : MdType) (k : ℕ)
    → send_snapshot s client u k ≡ some s'
    → Same s s'
unfolding get_or_create_book send_top_of_book send_l2_snapshot
send_snapshot-Same s s' client l1 k e =
    subst (Same s) (some-injective e)
      (record { same_l1 = refl; same_l2 = refl; same_l3 = refl; same_subs = refl })
send_snapshot-Same s s' client l2 k e = subst (Same s) (some-injective e) (
    send_rest-Same s _ client k (rest_updates (book_of s k))
      (record { same_l1 = refl; same_l2 = refl; same_l3 = refl; same_subs = refl }))
send_snapshot-Same s s' client l3 k e =
    send_l3_snapshot-Same s (set_book s k (book_of s k)) s' client k (book_of s k)
      (record { same_l1 = refl; same_l2 = refl; same_l3 = refl; same_subs = refl }) e

subscribe_client-Agrees :
    (s s' : MarketDataServer) (client : ℕ) (u : MdType) (k : ℕ) (t : MdType)
    → Agrees s t
    → subscribe_client s client u k ≡ some s'
    → Agrees s' t
unfolding subscribe_client
subscribe_client-Agrees s s' client u k t h e = elim (Option-cases (send_snapshot s client u k)) [
  | inl none_there ↦ absurd (cc (rw (none_there, subscribe_client) at e))
  | inr (s1, found) ↦
      subst (λ x. Agrees x t) (some-injective (rw (found, subscribe_client) at e))
        (register-Agrees s1 client u k t (Same-Agrees (send_snapshot-Same s s1 client u k found) h))
]

-- A subscription, an unsubscription and any other request keep the clients of a kind of market data
-- those that have the subscription among their tags, each once. They are before, and the request is
-- handled without a throw.
pub handle_market_data_request-Agrees :
    (s s' : MarketDataServer) (client : ℕ) (req : MarketDataRequest) (t : MdType)
    → Agrees s t
    → handle_market_data_request s client req ≡ some s'
    → Agrees s' t
unfolding handle_market_data_request
handle_market_data_request-Agrees s s' client req t h = by_sub_type req.sub_type
  where
    subscribed : subscribe_client s client req.md_type req.symbol_id ≡ some s' → Agrees s' t
    subscribed e = subscribe_client-Agrees s s' client req.md_type req.symbol_id t h e

    by_sub_type :
        (kind : SubType)
        → elim kind [
          | unsubscribe ↦ some (unsubscribe_client s client req.md_type req.symbol_id)
          | subscribe ↦ subscribe_client s client req.md_type req.symbol_id
          | single_snapshot ↦ some s
        ]
          ≡ some s'
        → Agrees s' t
    by_sub_type unsubscribe e =
        subst (λ x. Agrees x t) (some-injective e)
          (unsubscribe_client-Agrees s client req.md_type req.symbol_id t h)
    by_sub_type subscribe e = subscribed e
    by_sub_type single_snapshot e = subst (λ x. Agrees x t) (some-injective e) h
