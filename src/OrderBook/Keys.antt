-- ===== src/OrderBook/Keys.antt =====
-- The maps `active_levels_` by their ascending keys: what insertion, erasure and `lower_bound` of
-- OrderBook/Levels do to the set of keys.
use electronic_exchange_simu.Prelude.{
  ℕ, ◌<◌, ◌≤◌, Bool, true, false, ◌||◌, Option, none, some, List, [], ◌∷◌, ◌≡◌, inl, inr, arith,
  ◌==◌, leb, update, Bool-cases, ◌<◌, suc, length,
}
use electronic_exchange_simu.OrderBook.Levels.{
  insert_key, erase_key, lower_bound, before_lower_bound,
}
use electronic_exchange_simu.OrderBook.Nearest.{IsNearest}

abbrev pub has : List ℕ → ℕ → Bool
has [] j = false
has (k ∷ ks) j = k == j || has ks j

abbrev pub Above : ℕ → List ℕ → Type 0
Above n [] = Unit
Above n (k ∷ ks) = (n < k) × Above n ks

abbrev pub Ascending : List ℕ → Type 0
Ascending [] = Unit
Ascending (k ∷ ks) = Above k ks × Ascending ks

Above-mono : (m n : ℕ) (ks : List ℕ) → m ≤ n → Above n ks → Above m ks
Above-mono m n [] h a = tt
Above-mono m n (k ∷ ks) h a = (omega arith, Above-mono m n ks h a.1)

pub Above-has : (n : ℕ) (ks : List ℕ) (j : ℕ) → Above n ks → has ks j ≡ true → n < j
Above-has n [] j a h = cc
Above-has n (k ∷ ks) j a h = ground (arith, Above-has n ks j)

Above-insert : (n k : ℕ) (ks : List ℕ) → n < k → Above n ks → Above n (insert_key k ks)
unfolding insert_key
Above-insert n k [] h a = (h, tt)
Above-insert n k (j ∷ ks) h a = ground (arith, Above-insert n k ks)

Above-erase : (n k : ℕ) (ks : List ℕ) → Above n ks → Above n (erase_key k ks)
unfolding erase_key
Above-erase n k [] a = tt
Above-erase n k (j ∷ ks) a = ground (arith, Above-erase n k ks)

pub insert_key-Ascending : (k : ℕ) (ks : List ℕ) → Ascending ks → Ascending (insert_key k ks)
unfolding insert_key
insert_key-Ascending k [] a = (tt, tt)
insert_key-Ascending k (j ∷ ks) a =
    ground (arith, insert_key-Ascending k ks a.1, Above-insert j k ks, Above-mono k j ks)

pub erase_key-Ascending : (k : ℕ) (ks : List ℕ) → Ascending ks → Ascending (erase_key k ks)
unfolding erase_key
erase_key-Ascending k [] a = tt
erase_key-Ascending k (j ∷ ks) a =
    ground (arith, erase_key-Ascending k ks a.1, Above-erase j k ks a.0)

pub has-insert_key :
    (k : ℕ) (ks : List ℕ) (j : ℕ) → has (insert_key k ks) j ≡ update (has ks) k true j
unfolding insert_key
has-insert_key k [] j = ground arith
has-insert_key k (i ∷ ks) j = ground (arith, has-insert_key k ks j)

pub has-erase_key :
    (k : ℕ) (ks : List ℕ) (j : ℕ)
    → Ascending ks
    → has (erase_key k ks) j ≡ update (has ks) k false j
unfolding erase_key
has-erase_key k [] j a = ground arith
has-erase_key k (i ∷ ks) j a = ground (arith, has-erase_key k ks j a.1, Above-has i ks j a.0)

-- A key outside the side that is looked at changes nothing.
IsNearest-cons_above :
    (k i : ℕ) (ks : List ℕ) (r : Option ℕ)
    → i < k
    → IsNearest false (has ks) k r
    → IsNearest false (has (i ∷ ks)) k r
IsNearest-cons_above k i ks none h n = grind arith
IsNearest-cons_above k i ks (some p) h n = grind arith

IsNearest-head :
    (k i : ℕ) (ks : List ℕ) → k < i → Above i ks → IsNearest false (has (i ∷ ks)) k (some i)
IsNearest-head k i ks h a = (ground arith, h, λ j hj _ lt. ground (arith, Above-has i ks j a))

-- `lower_bound` gives the nearest key above one that is not there, its predecessor the one below.
pub lower_bound-IsNearest :
    (k : ℕ) (ks : List ℕ)
    → Ascending ks
    → has ks k ≡ false
    → IsNearest false (has ks) k (lower_bound k ks)
unfolding lower_bound
lower_bound-IsNearest k [] a h = λ j e. cc
lower_bound-IsNearest k (i ∷ ks) a h = elim (Bool-cases (leb k i)) [
  | inl e ↦ rw e (IsNearest-head k i ks (ground arith) a.0)
  | inr e ↦ rw e (
      IsNearest-cons_above k i ks (lower_bound k ks) (ground arith)
        (lower_bound-IsNearest k ks a.1 (ground arith)))
]

IsNearest-cons_below :
    (k x i : ℕ) (ks : List ℕ) (r : Option ℕ)
    → x < i
    → i < k
    → Above i ks
    → IsNearest true (has (i ∷ ks)) k r
    → IsNearest true (has (x ∷ i ∷ ks)) k r
IsNearest-cons_below k x i ks none h l a n = absurd (n i (ground arith) l)
IsNearest-cons_below k x i ks (some p) h l a n =
    let (hp, lt, between) = n in
    (ground arith, lt, λ j hj lt' over. ground (arith, Above-has i ks p a, between j))

IsNearest-last :
    (k x : ℕ) (ks : List ℕ)
    → x < k
    → Above x ks
    → ((j : ℕ) → has ks j ≡ true → k ≤ j)
    → IsNearest true (has (x ∷ ks)) k (some x)
IsNearest-last k x ks h a above = (ground arith, h, λ j hj lt over. ground (arith, above j))

before_lower_bound-some :
    (k x : ℕ) (ks : List ℕ)
    → x < k
    → Above x ks
    → Ascending ks
    → IsNearest true (has (x ∷ ks)) k (before_lower_bound (some x) k ks)
unfolding before_lower_bound
before_lower_bound-some k x [] h b a = IsNearest-last k x [] h tt (λ j e. cc)
before_lower_bound-some k x (i ∷ ks) h b a = elim (Bool-cases (leb k i)) [
  | inl e ↦ rw e (IsNearest-last k x (i ∷ ks) h b (λ j hj. ground (arith, Above-has i ks j a.0)))
  | inr e ↦ rw e (
      IsNearest-cons_below k x i ks _ b.0 (ground arith) a.0
        (before_lower_bound-some k i ks (ground arith) a.0 a.1))
]

pub before_lower_bound-IsNearest :
    (k : ℕ) (ks : List ℕ)
    → Ascending ks
    → has ks k ≡ false
    → IsNearest true (has ks) k (before_lower_bound none k ks)
unfolding before_lower_bound
before_lower_bound-IsNearest k [] a h = λ j e. cc
before_lower_bound-IsNearest k (i ∷ ks) a h = elim (Bool-cases (leb k i)) [
  | inl e ↦ rw e (λ j hj lt. ground (arith, Above-has i ks j a.0))
  | inr e ↦ rw e (before_lower_bound-some k i ks (ground arith) a.0 a.1)
]

pub length-erase_key :
    (k : ℕ) (ks : List ℕ) → has ks k ≡ true → suc (length (erase_key k ks)) ≡ length ks
unfolding erase_key
length-erase_key k [] h = cc
length-erase_key k (i ∷ ks) h = ground (arith, length-erase_key k ks)
