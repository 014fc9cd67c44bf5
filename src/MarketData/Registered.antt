-- ===== src/MarketData/Registered.antt =====
-- src/MarketDataServer.cpp: membership in the sets of clients and in the tags of a client.
use electronic_exchange_simu.Prelude.{
  ℕ, ◌==◌, Bool, true, false, List, [], ◌∷◌, ◌++◌, ◌≡◌, refl, sym, ap, ◌∙◌, arith, if◌then◌else◌,
  if_elim, subst, Bool-cases, inl, inr,
}
use electronic_exchange_simu.MarketData.Server.{MdType, l1, l2, l3}
use electronic_exchange_simu.MarketData.Subscriptions.{
  has_client, insert_client, erase_client, tag_eq, has_tag, remove_tag, add_tag,
}

abbrev pub Distinct : List ℕ → Type 0
Distinct [] = Unit
Distinct (c ∷ cs) = (has_client c cs ≡ false) × Distinct cs

if_swap :
    (a b c : Bool)
    → (if a then true else if b then true else c) ≡ (if b then true else if a then true else c)
if_swap true true c = refl
if_swap true false c = refl
if_swap false b c = refl

if_same : (a : Bool) → false ≡ (if a then false else false)
if_same true = refl
if_same false = refl

if_again : (a c : Bool) → (if a then false else c) ≡ (if a then false else (if a then true else c))
if_again true c = refl
if_again false c = refl

has_client_same : (c d : ℕ) (cs : List ℕ) → (d == c) ≡ true → has_client d cs ≡ has_client c cs
unfolding has_client
has_client_same c d cs e = ap (λ x. has_client x cs) (ground arith)

pub has-insert_client :
    (c d : ℕ) (cs : List ℕ)
    → has_client c (insert_client d cs) ≡ (if d == c then true else has_client c cs)
unfolding insert_client has_client
has-insert_client c d cs = ground (arith, has_client_same c d cs)

pub has-erase_client :
    (c d : ℕ) (cs : List ℕ)
    → Distinct cs
    → has_client c (erase_client d cs) ≡ (if d == c then false else has_client c cs)
unfolding erase_client has_client
has-erase_client c d [] h = ground arith
has-erase_client c d (x ∷ xs) h =
    ground (arith, has-erase_client c d xs h.1, h.0, has_client_same c x xs)

pub Distinct-insert_client : (d : ℕ) (cs : List ℕ) → Distinct cs → Distinct (insert_client d cs)
unfolding insert_client
Distinct-insert_client d cs h = if_elim (λ l. Distinct l) (has_client d cs) (λ _. h) (λ e. (e, h))

pub Distinct-erase_client : (d : ℕ) (cs : List ℕ) → Distinct cs → Distinct (erase_client d cs)
unfolding erase_client
Distinct-erase_client d [] h = tt
Distinct-erase_client d (x ∷ xs) h =
    if_elim (λ l. Distinct l) (x == d) (λ _. h.1)
      (λ e. (has-erase_client x d xs h.1 ∙ ground (arith, h.0), Distinct-erase_client d xs h.1))

pub tag_eq-true : (t u : MdType × ℕ) → tag_eq t u ≡ true → t ≡ u
tag_eq-true (l1, a) (l1, b) e = ground arith
tag_eq-true (l2, a) (l2, b) e = ground arith
tag_eq-true (l3, a) (l3, b) e = ground arith
tag_eq-true (l1, a) (l2, b) e = cc
tag_eq-true (l1, a) (l3, b) e = cc
tag_eq-true (l2, a) (l1, b) e = cc
tag_eq-true (l2, a) (l3, b) e = cc
tag_eq-true (l3, a) (l1, b) e = cc
tag_eq-true (l3, a) (l2, b) e = cc

pub tag_eq_self : (t : MdType × ℕ) → tag_eq t t ≡ true
tag_eq_self (l1, a) = ground arith
tag_eq_self (l2, a) = ground arith
tag_eq_self (l3, a) = ground arith

tag_eq_swap : (t u : MdType × ℕ) → tag_eq t u ≡ false → tag_eq u t ≡ false
tag_eq_swap t u e = elim (Bool-cases (tag_eq u t)) [
  | inl same ↦ absurd (cc (tag_eq_self t, subst (λ x. tag_eq t x ≡ false) (tag_eq-true u t same) e))
  | inr apart ↦ apart
]

has_tag_append :
    (t u : MdType × ℕ) (ts : List (MdType × ℕ))
    → has_tag t (ts ++ u ∷ []) ≡ (if tag_eq u t then true else has_tag t ts)
unfolding has_tag
has_tag_append t u [] = refl
has_tag_append t u (x ∷ xs) =
    ap (λ r. if tag_eq x t then true else r) (has_tag_append t u xs)
    ∙ if_swap (tag_eq x t) (tag_eq u t) (has_tag t xs)

pub has_tag-add_tag :
    (t u : MdType × ℕ) (ts : List (MdType × ℕ))
    → has_tag t (add_tag u ts) ≡ (if tag_eq u t then true else has_tag t ts)
has_tag-add_tag t u ts = elim (Bool-cases (has_tag u ts)) [
  | inl there ↦ rw there (elim (Bool-cases (tag_eq u t)) [
    | inl same ↦ rw same (subst (λ x. has_tag x ts ≡ true) (tag_eq-true u t same) there)
    | inr apart ↦ rw apart
  ])
  | inr new ↦ rw new (has_tag_append t u ts)
]

pub has_tag-remove_tag :
    (t u : MdType × ℕ) (ts : List (MdType × ℕ))
    → has_tag t (remove_tag u ts) ≡ (if tag_eq u t then false else has_tag t ts)
unfolding has_tag remove_tag
has_tag-remove_tag t u [] = if_same (tag_eq u t)
has_tag-remove_tag t u (x ∷ xs) = elim (Bool-cases (tag_eq x u)) [
  | inl same ↦ rw same (
      has_tag-remove_tag t u xs
      ∙ subst
          (λ y.
            (if tag_eq u t then false else has_tag t xs)
            ≡ (if tag_eq u t then false else (if tag_eq y t then true else has_tag t xs)))
          (sym (tag_eq-true x u same)) (if_again (tag_eq u t) (has_tag t xs)))
  | inr apart ↦ rw apart (elim (Bool-cases (tag_eq x t)) [
    | inl here ↦ rw here (
        sym (
          ap (λ b. if b then false else true)
            (subst (λ y. tag_eq u y ≡ false) (tag_eq-true x t here) (tag_eq_swap x u apart))))
    | inr other ↦ rw other (has_tag-remove_tag t u xs)
  ])
]
