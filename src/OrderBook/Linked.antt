-- ===== src/OrderBook/Linked.antt =====
-- The chain of price levels: `best_levels_`, `better` and `worse` always lead through the keys of
-- `active_levels_` from the best price to the worst.
use electronic_exchange_simu.Prelude.{
  ℕ, Bool, true, false, not, Option, none, some, List, ◌≡◌, refl, ap, subst, fun_ext, ◌∙◌, ◌≢◌,
  arith, ◌==◌, ltb, if◌then◌else◌, update, Bool-cases, inl, inr,
}
use electronic_exchange_simu.Wire.{Side, buy, sell, no_side}
use electronic_exchange_simu.OrderBook.State.{OrderBook, set_side}
use electronic_exchange_simu.OrderBook.Levels.{
  neighbours, remove_price_level, get_or_create_price_level,
}
use electronic_exchange_simu.OrderBook.Nearest.{
  IsNearest, IsExtreme, IsNearest-symm, nearest_unique, nearest-mem, erase_next, erase_other,
  insert_next, insert_self, insert_other, IsExtreme-erase, IsExtreme-erase_other, IsExtreme-insert,
  IsExtreme-insert_other,
}
use electronic_exchange_simu.OrderBook.Keys.{
  has, Ascending, erase_key-Ascending, insert_key-Ascending, has-erase_key, has-insert_key,
  lower_bound-IsNearest, before_lower_bound-IsNearest,
}
use electronic_exchange_simu.OrderBook.Pointers.{
  points, or_best, remove-better, remove-worse, remove-best, remove-keys, create-better,
  create-worse, create-best, create-keys,
}

-- The direction of better prices: down for asks, up for bids.
abbrev pub dir : Side → Bool
dir buy = false
dir sell = true
dir no_side = true

abbrev pub keys_of : OrderBook → Side → ℕ → Bool
keys_of b s = has (b.active_levels s)

pub record IsLinked (b : OrderBook) (s : Side) : Type 0 where
  pub ascending : Ascending (b.active_levels s)
  pub best : IsExtreme (dir s) (keys_of b s) (b.best_levels s)
  pub better :
      (k : ℕ) → keys_of b s k ≡ true → IsNearest (dir s) (keys_of b s) k (b.price_array k).better
  pub worse :
      (k : ℕ)
      → keys_of b s k ≡ true
      → IsNearest (not (dir s)) (keys_of b s) k (b.price_array k).worse

not-not : (d : Bool) → not (not d) ≡ d
not-not true = refl
not-not false = refl

-- A pointer of `i` back to `k` where `k` points to `i`.
points-back :
    (d : Bool) (K : ℕ → Bool) (i k : ℕ) (r : Option ℕ)
    → K i ≡ true
    → K k ≡ true
    → IsNearest (not d) K i r
    → IsNearest d K k (some i)
    → r ≡ some k
points-back d K i k r hi hk n m = nearest_unique (not d) K i k r n (IsNearest-symm d K k i hk m)

pub points→eq : (r : Option ℕ) (k : ℕ) → points r k ≡ true → r ≡ some k
points→eq none k h = cc
points→eq (some j) k h = ground arith

-- Erasing `i`, whose neighbours are `ahead` and `behind`, from the pointers of `k`.
erase_pointer :
    (d : Bool) (K : ℕ → Bool) (i k : ℕ) (ahead behind r : Option ℕ)
    → K i ≡ true
    → K k ≡ true
    → IsNearest d K i ahead
    → IsNearest (not d) K i behind
    → IsNearest d K k r
    → IsNearest d (update K i false) k (if points behind k then ahead else r)
erase_pointer d K i k ahead behind r hi hk na nb n = elim (Bool-cases (points behind k)) [
  | inl e ↦
      rw e (erase_next d K i k ahead na (subst (IsNearest (not d) K i) (points→eq behind k e) nb))
  | inr e ↦ rw e (erase_other d K i k r (λ q. back q e) n)
]
  where
    back : r ≡ some i → points behind k ≡ false → ⊥
    back q e = ground (arith, points-back d K i k behind hi hk nb (subst (IsNearest d K k) q n))

-- Inserting `i` between its neighbours: the pointers of another member `k`.
insert_pointer :
    (d : Bool) (K : ℕ → Bool) (i k : ℕ) (ahead behind r : Option ℕ)
    → K i ≡ false
    → K k ≡ true
    → IsNearest (not d) K i behind
    → IsNearest d K k r
    → IsNearest d (update K i true) k (if points behind k then some i else r)
insert_pointer d K i k ahead behind r hi hk nb n = elim (Bool-cases (points behind k)) [
  | inl e ↦ rw e (insert_next d K i k (subst (IsNearest (not d) K i) (points→eq behind k e) nb))
  | inr e ↦
      rw e
        (insert_other d K i k r behind hk hi (λ q. ground (arith, e, ap (λ x. points x k) q)) nb n)
]

-- The pointers of any member then, `i` included.
inserted_pointer :
    (d : Bool) (K : ℕ → Bool) (i k : ℕ) (ahead behind r : Option ℕ)
    → K i ≡ false
    → update K i true k ≡ true
    → IsNearest d K i ahead
    → IsNearest (not d) K i behind
    → (K k ≡ true → IsNearest d K k r)
    → IsNearest d
        (update K i true)
        k
        (if i == k then ahead else if points behind k then some i else r)
inserted_pointer d K i k ahead behind r hi hk na nb n = elim (Bool-cases (i == k)) [
  | inl e ↦ rw e (
      subst (λ x. IsNearest d (update K i true) x ahead) (ground arith)
        (insert_self d K i ahead na))
  | inr e ↦ rw e (insert_pointer d K i k ahead behind r hi (ground arith) nb (n (ground arith)))
]

-- The best pointer when `i` goes, and when it comes.
erase_best :
    (d : Bool) (K : ℕ → Bool) (i : ℕ) (ahead behind r : Option ℕ)
    → K i ≡ true
    → IsNearest d K i ahead
    → IsNearest (not d) K i behind
    → IsExtreme d K r
    → IsExtreme d (update K i false) (or_best ahead behind r)
erase_best d K i none behind r hi na nb x = IsExtreme-erase d K i behind na nb
erase_best d K i (some q) behind none hi na nb x = cc (x i)
erase_best d K i (some q) behind (some p) hi na nb x = IsExtreme-erase_other d K i p q na x

insert_best :
    (d : Bool) (K : ℕ → Bool) (i : ℕ) (ahead r : Option ℕ)
    → IsNearest d K i ahead
    → IsExtreme d K r
    → IsExtreme d (update K i true) (or_best ahead (some i) r)
insert_best d K i none r na x = IsExtreme-insert d K i na
insert_best d K i (some q) none na x = cc (x q, (nearest-mem d K i q na).0)
insert_best d K i (some q) (some p) na x = IsExtreme-insert_other d K i p q na x

pub set_side_self {ℓ} : {A : Type ℓ} (f : Side → A) (s : Side) (v : A) → set_side f s v s ≡ v
set_side_self f buy v = refl
set_side_self f sell v = refl
set_side_self f no_side v = refl

-- The pointer ahead of a level is not the level itself.
pub ahead_ne : (d : Bool) (K : ℕ → Bool) (i : ℕ) (r : Option ℕ) → IsNearest d K i r → r ≢ some i
ahead_ne d K i r n e = (nearest-mem d K i i (subst (IsNearest d K i) e n)).1 refl

module _ (b : OrderBook) (i : ℕ) (s : Side) (v : IsLinked b s) (there : keys_of b s i ≡ true) where
  pub keys-remove : keys_of (remove_price_level b i s) s ≡ update (keys_of b s) i false
  keys-remove =
      ap has (ap (λ f. f s) (remove-keys b i s) ∙ set_side_self b.active_levels s _)
      ∙ fun_ext (λ j. has-erase_key i (b.active_levels s) j v.ascending)

  -- Membership afterwards.
  kept : (k : ℕ) → keys_of (remove_price_level b i s) s k ≡ true → keys_of b s k ≡ true
  kept k h = ground (arith, ap (λ f. f k) keys-remove)

  -- Removing a level that is a key of a side leaves that side's chain linked, where it was linked:
  -- the keys ascend, the best level is the extreme one, and each pointer leads to the nearest key.
  pub remove_price_level-IsLinked : IsLinked (remove_price_level b i s) s
  remove_price_level-IsLinked = record {
    ascending =
        rw (remove-keys b i s, set_side_self)
          (erase_key-Ascending i (b.active_levels s) v.ascending);
    best =
        rw (keys-remove, remove-best)
          (erase_best (dir s) (keys_of b s) i _ _ _ there (v.better i there) (v.worse i there)
            v.best);
    better = λ k h.
        rw (keys-remove, remove-better b i s _ _ refl refl alone k)
          (erase_pointer (dir s) (keys_of b s) i k _ _ _ there (kept k h) (v.better i there)
            (v.worse i there) (v.better k (kept k h)));
    worse = λ k h.
        rw (keys-remove, remove-worse b i s _ _ refl refl alone k)
          (erase_pointer (not (dir s)) (keys_of b s) i k _ _ _ there (kept k h) (v.worse i there)
            (rw not-not (v.better i there)) (v.worse k (kept k h)));
  }
    where
      alone : (b.price_array i).better ≢ some i
      alone = ahead_ne (dir s) (keys_of b s) i _ (v.better i there)

pub neighbours-IsNearest :
    (s : Side) (i : ℕ) (keys : List ℕ)
    → Ascending keys
    → has keys i ≡ false
    → IsNearest (dir s) (has keys) i (neighbours s i keys).0
      × IsNearest (not (dir s)) (has keys) i (neighbours s i keys).1
unfolding neighbours
neighbours-IsNearest buy i keys a h =
    (lower_bound-IsNearest i keys a h, before_lower_bound-IsNearest i keys a h)
neighbours-IsNearest sell i keys a h =
    (before_lower_bound-IsNearest i keys a h, lower_bound-IsNearest i keys a h)
neighbours-IsNearest no_side i keys a h =
    (before_lower_bound-IsNearest i keys a h, lower_bound-IsNearest i keys a h)

module _ (b : OrderBook) (i : ℕ) (s : Side) (v : IsLinked b s) (absent : keys_of b s i ≡ false)
    (fresh : ltb 0 (b.price_array i).order_count ≡ false) where
  pub keys-create : keys_of (get_or_create_price_level b i s) s ≡ update (keys_of b s) i true
  keys-create =
      ap has (ap (λ f. f s) (create-keys b i s fresh) ∙ set_side_self b.active_levels s _)
      ∙ fun_ext (λ j. has-insert_key i (b.active_levels s) j)

  -- A level without orders that is no key of a side comes into that side's chain between its
  -- neighbours: a linked chain stays linked.
  pub get_or_create_price_level-IsLinked : IsLinked (get_or_create_price_level b i s) s
  get_or_create_price_level-IsLinked = record {
    ascending =
        rw (create-keys b i s fresh, set_side_self)
          (insert_key-Ascending i (b.active_levels s) v.ascending);
    best =
        rw (keys-create, create-best b i s _ _ fresh refl)
          (insert_best (dir s) (keys_of b s) i _ _ near.0 v.best);
    better = λ k h.
        rw (keys-create, create-better b i s fresh _ _ refl alone.0 alone.1 k)
          (inserted_pointer (dir s) (keys_of b s) i k _ _ _ absent
            (subst (λ K. K k ≡ true) keys-create h) near.0 near.1 (v.better k));
    worse = λ k h.
        rw (keys-create, create-worse b i s fresh _ _ refl alone.0 alone.1 k)
          (inserted_pointer (not (dir s)) (keys_of b s) i k _ _ _ absent
            (subst (λ K. K k ≡ true) keys-create h) near.1 (rw not-not near.0) (v.worse k));
  }
    where
      near :
          IsNearest (dir s) (keys_of b s) i (neighbours s i (b.active_levels s)).0
          × IsNearest (not (dir s)) (keys_of b s) i (neighbours s i (b.active_levels s)).1
      near = neighbours-IsNearest s i (b.active_levels s) v.ascending absent

      alone :
          ((neighbours s i (b.active_levels s)).0 ≢ some i)
          × ((neighbours s i (b.active_levels s)).1 ≢ some i)
      alone = (
        ahead_ne (dir s) (keys_of b s) i _ near.0,
        ahead_ne (not (dir s)) (keys_of b s) i _ near.1,
      )
