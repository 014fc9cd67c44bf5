-- ===== src/MarketData/Closing.antt =====
-- src/MarketDataServer.cpp: what a connection that ends leaves behind.
use electronic_exchange_simu.Prelude.{
  ℕ, ◌==◌, ◌&&◌, Bool, true, false, List, [], ◌∷◌, ◌≡◌, refl, sym, ap, ◌∙◌, if◌then◌else◌, ==_iff,
  Bool-cases, inl, inr,
}
use electronic_exchange_simu.MarketData.Server.{MdType, l1, l2, l3, MarketDataServer}
use electronic_exchange_simu.MarketData.Subscriptions.{
  has_client, erase_client, tag_eq, has_tag, set_clients, set_subs, drop_tag, drop_tags, on_close,
}
use electronic_exchange_simu.MarketData.Registered.{
  Distinct, Distinct-erase_client, has-erase_client,
}
use electronic_exchange_simu.MarketData.Agreement.{
  is_l1, clients_of, Agrees, clients_of-set_clients, clients_of-set_subs,
}

and_true : (a x : Bool) → (if a then false else x) ≡ (if a && true then false else x)
and_true true x = refl
and_true false x = refl

and_false : (a x : Bool) → x ≡ (if a && false then false else x)
and_false true x = refl
and_false false x = refl

and_or :
    (a g h x : Bool)
    → (if a && h then false else (if a && g then false else x))
      ≡ (if a && (if g then true else h) then false else x)
and_or true true true x = refl
and_or true true false x = refl
and_or true false true x = refl
and_or true false false x = refl
and_or false g h x = refl

spent : (a : Bool) → (if a then false else a) ≡ false
spent true = refl
spent false = refl

-- Who is left in the set of a kind and a symbol.
abbrev Left : MarketDataServer → ℕ → Bool → MarketDataServer → MdType → ℕ → Type 0
Left s client gone s' t k =
    ((c : ℕ)
      → has_client c (clients_of s' t k)
        ≡ (if client == c && gone then false else has_client c (clients_of s t k)))
    × Distinct (clients_of s' t k)

erased-Left :
    (s : MarketDataServer) (client : ℕ) (u : MdType) (j : ℕ) (t : MdType) (k : ℕ)
    → Distinct (clients_of s t k)
    → Left s client (tag_eq (u, j) (t, k)) (set_clients s u j (erase_client client)) t k
erased-Left s client u j t k h =
    rw (clients_of-set_clients s u j (erase_client client) t k)
      (elim (Bool-cases (tag_eq (u, j) (t, k))) [
        | inl e ↦ rw e (
          λ c.
              has-erase_client c client (clients_of s t k) h
              ∙ and_true (client == c) (has_client c (clients_of s t k)),
          Distinct-erase_client client (clients_of s t k) h,
        )
        | inr e ↦ rw e (λ c. and_false (client == c) (has_client c (clients_of s t k)), h)
      ])

drop_tag-Left :
    (s : MarketDataServer) (client : ℕ) (x : MdType × ℕ) (t : MdType) (k : ℕ)
    → is_l1 t ≡ false
    → Distinct (clients_of s t k)
    → Left s client (tag_eq x (t, k)) (drop_tag s client x) t k
drop_tag-Left s client (l1, j) l1 k other h = cc
drop_tag-Left s client (l1, j) l2 k other h =
    (λ c. and_false (client == c) (has_client c (s.l2_clients k)), h)
drop_tag-Left s client (l1, j) l3 k other h =
    (λ c. and_false (client == c) (has_client c (s.l3_clients k)), h)
drop_tag-Left s client (l2, j) t k other h = erased-Left s client l2 j t k h
drop_tag-Left s client (l3, j) t k other h = erased-Left s client l3 j t k h

drop_tags-Left :
    (ts : List (MdType × ℕ)) (s : MarketDataServer) (client : ℕ) (t : MdType) (k : ℕ)
    → is_l1 t ≡ false
    → Distinct (clients_of s t k)
    → Left s client (has_tag (t, k) ts) (drop_tags s client ts) t k
unfolding drop_tags has_tag
drop_tags-Left [] s client t k other h =
    (λ c. and_false (client == c) (has_client c (clients_of s t k)), h)
drop_tags-Left (x ∷ xs) s client t k other h =
    let one = drop_tag-Left s client x t k other h in
    let rest = drop_tags-Left xs (drop_tag s client x) client t k other one.1 in
    (
      λ c.
          rest.0 c
          ∙ (ap (λ y. if client == c && has_tag (t, k) xs then false else y) (one.0 c)
              ∙ and_or (client == c) (tag_eq x (t, k)) (has_tag (t, k) xs)
                  (has_client c (clients_of s t k))),
      rest.1,
    )

drop_tags-subs :
    (ts : List (MdType × ℕ)) (s : MarketDataServer) (client : ℕ)
    → (drop_tags s client ts).subs ≡ s.subs
unfolding drop_tags
drop_tags-subs [] s client = refl
drop_tags-subs ((l1, j) ∷ xs) s client = drop_tags-subs xs s client
drop_tags-subs ((l2, j) ∷ xs) s client =
    drop_tags-subs xs (set_clients s l2 j (erase_client client)) client
drop_tags-subs ((l3, j) ∷ xs) s client =
    drop_tags-subs xs (set_clients s l3 j (erase_client client)) client

drop_tags-l1_clients :
    (ts : List (MdType × ℕ)) (s : MarketDataServer) (client : ℕ)
    → (drop_tags s client ts).l1_clients ≡ s.l1_clients
unfolding drop_tags
drop_tags-l1_clients [] s client = refl
drop_tags-l1_clients ((l1, j) ∷ xs) s client = drop_tags-l1_clients xs s client
drop_tags-l1_clients ((l2, j) ∷ xs) s client =
    drop_tags-l1_clients xs (set_clients s l2 j (erase_client client)) client
drop_tags-l1_clients ((l3, j) ∷ xs) s client =
    drop_tags-l1_clients xs (set_clients s l3 j (erase_client client)) client

-- The close of a connection keeps the clients of L2 and of L3 data those that have the
-- subscription, each once, and leaves the closed client with none of either. They are before.
pub on_close-Agrees :
    (s : MarketDataServer) (client : ℕ) (t : MdType)
    → is_l1 t ≡ false
    → Agrees s t
    → Agrees (on_close s client) t
      × ((k : ℕ) → has_client client (clients_of (on_close s client) t k) ≡ false)
unfolding on_close has_tag
on_close-Agrees s client t other h = (
  record {
    distinct = λ k. rw (clients_closed k) (left k).1;
    matching = λ c k. rw (clients_closed k) (
        (left k).0 c ∙ elim (Bool-cases (client == c)) [
          | inl e ↦ rw e (none_left c k e)
          | inr e ↦ rw (e, drop_tags-subs (s.subs client) s client) (h.matching c k)
        ]);
  },
  λ k. rw (clients_closed k) ((left k).0 client ∙ rw same_client (none_left client k same_client)),
)
  where
    left :
        (k : ℕ)
        → Left s client (has_tag (t, k) (s.subs client)) (drop_tags s client (s.subs client)) t k
    left k = drop_tags-Left (s.subs client) s client t k other (h.distinct k)

    clients_closed :
        (k : ℕ)
        → clients_of (set_subs (drop_tags s client (s.subs client)) client (λ ts. [])) t k
          ≡ clients_of (drop_tags s client (s.subs client)) t k
    clients_closed k =
        clients_of-set_subs (drop_tags s client (s.subs client)) client (λ ts. []) t k

    same_client : (client == client) ≡ true
    same_client = (==_iff client client).1 refl

    none_left :
        (c k : ℕ)
        → (client == c) ≡ true
        → (if has_tag (t, k) (s.subs client) then false else has_client c (clients_of s t k))
          ≡ false
    none_left c k e =
        ap (λ x. if has_tag (t, k) (s.subs client) then false else x)
          (h.matching c k ∙ ap (λ x. has_tag (t, k) (s.subs x)) (sym ((==_iff client c).0 e)))
        ∙ spent (has_tag (t, k) (s.subs client))

-- The close of a connection leaves the clients of L1 data as they are, whatever the client has
-- subscribed to.
on_close-l1_clients :
    (s : MarketDataServer) (client : ℕ) → (on_close s client).l1_clients ≡ s.l1_clients
unfolding on_close
on_close-l1_clients s client = drop_tags-l1_clients (s.subs client) s client
