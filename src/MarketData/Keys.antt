-- ===== src/MarketData/Keys.antt =====
-- src/MarketDataServer.cpp: the keys of a server's book are the prices of its levels, best first.
use electronic_exchange_simu.Prelude.{
  Bool, true, false, List, [], ◌∷◌, ◌≡◌, refl, sym, ap, ◌∙◌, arith, if◌then◌else◌, if_elim,
  Bool-cases, inl, inr, subst, All,
}
use electronic_exchange_simu.Prelude.Int.{ℤ, pos, negsuc, eq_ℤ, eq_ℤ_iff, ltb_ℤ}
use electronic_exchange_simu.Wire.{Side, buy, sell, no_side}
use electronic_exchange_simu.MarketData.ServerBook.{goes_before, insert_key, erase_key}

abbrev pub has_key : ℤ → List ℤ → Bool
has_key p [] = false
has_key p (q ∷ qs) = if eq_ℤ q p then true else has_key p qs

abbrev pub IsOrdered : Side → List ℤ → Type 0
IsOrdered side [] = Unit
IsOrdered side (q ∷ qs) = All (λ r. goes_before side q r ≡ true) qs × IsOrdered side qs

goes_before_trans :
    (side : Side) (p q r : ℤ)
    → goes_before side p q ≡ true
    → goes_before side q r ≡ true
    → goes_before side p r ≡ true
goes_before_trans buy p q r h k = ground arith
goes_before_trans sell p q r h k = ground arith
goes_before_trans no_side p q r h k = ground arith

ltb_ℤ_total : (p q : ℤ) → eq_ℤ p q ≡ false → ltb_ℤ p q ≡ false → ltb_ℤ q p ≡ true
ltb_ℤ_total (pos a) (pos b) h k = ground arith
ltb_ℤ_total (pos a) (negsuc b) h k = ground arith
ltb_ℤ_total (negsuc a) (pos b) h k = ground arith
ltb_ℤ_total (negsuc a) (negsuc b) h k = ground arith

ltb_ℤ_apart : (p q : ℤ) → ltb_ℤ p q ≡ true → (eq_ℤ p q ≡ false) × (eq_ℤ q p ≡ false)
ltb_ℤ_apart (pos a) (pos b) h = ground arith
ltb_ℤ_apart (pos a) (negsuc b) h = ground arith
ltb_ℤ_apart (negsuc a) (pos b) h = ground arith
ltb_ℤ_apart (negsuc a) (negsuc b) h = ground arith

pub eq_ℤ_swap : (p q : ℤ) → eq_ℤ p q ≡ false → eq_ℤ q p ≡ false
eq_ℤ_swap (pos a) (pos b) h = ground arith
eq_ℤ_swap (pos a) (negsuc b) h = refl
eq_ℤ_swap (negsuc a) (pos b) h = refl
eq_ℤ_swap (negsuc a) (negsuc b) h = ground arith

goes_before_total :
    (side : Side) (p q : ℤ)
    → eq_ℤ p q ≡ false
    → goes_before side p q ≡ false
    → goes_before side q p ≡ true
goes_before_total buy p q h k = ltb_ℤ_total q p (eq_ℤ_swap p q h) k
goes_before_total sell p q h k = ltb_ℤ_total p q h k
goes_before_total no_side p q h k = ltb_ℤ_total p q h k

goes_before_apart : (side : Side) (p q : ℤ) → goes_before side p q ≡ true → eq_ℤ p q ≡ false
goes_before_apart buy p q h = (ltb_ℤ_apart q p h).1
goes_before_apart sell p q h = (ltb_ℤ_apart p q h).0
goes_before_apart no_side p q h = (ltb_ℤ_apart p q h).0

if_swap :
    (a b c : Bool)
    → (if a then true else if b then true else c) ≡ (if b then true else if a then true else c)
if_swap true true c = refl
if_swap true false c = refl
if_swap false b c = refl

if_again : (a c : Bool) → (if a then true else c) ≡ (if a then true else if a then true else c)
if_again true c = refl
if_again false c = refl

if_same : (a : Bool) → false ≡ (if a then false else false)
if_same true = refl
if_same false = refl

module _ (side : Side) where
  abbrev Behind : ℤ → List ℤ → Type 0
  Behind p qs = All (λ q. goes_before side p q ≡ true) qs

  Behind-trans : (p q : ℤ) (qs : List ℤ) → goes_before side p q ≡ true → Behind q qs → Behind p qs
  Behind-trans p q [] h k = tt
  Behind-trans p q (r ∷ qs) h k = (goes_before_trans side p q r h k.0, Behind-trans p q qs h k.1)

  -- What goes before all the keys is none of them.
  Behind-has_key : (p : ℤ) (qs : List ℤ) → Behind p qs → has_key p qs ≡ false
  Behind-has_key p [] h = refl
  Behind-has_key p (q ∷ qs) h =
      rw (eq_ℤ_swap p q (goes_before_apart side p q h.0)) (Behind-has_key p qs h.1)

  Behind-insert_key :
      (p q : ℤ) (qs : List ℤ)
      → goes_before side q p ≡ true
      → Behind q qs
      → Behind q (insert_key side p qs)
  unfolding insert_key
  Behind-insert_key p q [] h k = (h, tt)
  Behind-insert_key p q (r ∷ qs) h k =
      if_elim (λ l. Behind q l) (eq_ℤ p r) (λ _. k)
        (λ _.
          if_elim (λ l. Behind q l) (goes_before side p r) (λ _. (h, k))
            (λ _. (k.0, Behind-insert_key p q qs h k.1)))

  Behind-erase_key : (p q : ℤ) (qs : List ℤ) → Behind q qs → Behind q (erase_key p qs)
  unfolding erase_key
  Behind-erase_key p q [] k = tt
  Behind-erase_key p q (r ∷ qs) k =
      if_elim (λ l. Behind q l) (eq_ℤ p r) (λ _. k.1) (λ _. (k.0, Behind-erase_key p q qs k.1))

  pub IsOrdered-insert_key :
      (p : ℤ) (qs : List ℤ) → IsOrdered side qs → IsOrdered side (insert_key side p qs)
  unfolding insert_key
  IsOrdered-insert_key p [] h = (tt, tt)
  IsOrdered-insert_key p (q ∷ qs) h =
      if_elim (λ l. IsOrdered side l) (eq_ℤ p q) (λ _. h)
        (λ apart.
          if_elim (λ l. IsOrdered side l) (goes_before side p q)
            (λ before. ((before, Behind-trans p q qs before h.0), h))
            (λ after. (
              Behind-insert_key p q qs (goes_before_total side p q apart after) h.0,
              IsOrdered-insert_key p qs h.1,
            )))

  pub IsOrdered-erase_key :
      (p : ℤ) (qs : List ℤ) → IsOrdered side qs → IsOrdered side (erase_key p qs)
  unfolding erase_key
  IsOrdered-erase_key p [] h = tt
  IsOrdered-erase_key p (q ∷ qs) h =
      if_elim (λ l. IsOrdered side l) (eq_ℤ p q) (λ _. h.1)
        (λ _. (Behind-erase_key p q qs h.0, IsOrdered-erase_key p qs h.1))

  pub has_key-insert_key :
      (p r : ℤ) (qs : List ℤ)
      → has_key r (insert_key side p qs) ≡ (if eq_ℤ p r then true else has_key r qs)
  unfolding insert_key
  has_key-insert_key p r [] = refl
  has_key-insert_key p r (q ∷ qs) =
      if_elim (λ l. has_key r l ≡ (if eq_ℤ p r then true else has_key r (q ∷ qs))) (eq_ℤ p q)
        (λ same.
          subst (λ x. has_key r (q ∷ qs) ≡ (if eq_ℤ x r then true else has_key r (q ∷ qs)))
            (sym ((eq_ℤ_iff p q).0 same)) (if_again (eq_ℤ q r) (has_key r qs)))
        (λ apart.
          if_elim (λ l. has_key r l ≡ (if eq_ℤ p r then true else has_key r (q ∷ qs)))
            (goes_before side p q) (λ _. refl)
            (λ _.
              ap (λ x. if eq_ℤ q r then true else x) (has_key-insert_key p r qs)
              ∙ if_swap (eq_ℤ q r) (eq_ℤ p r) (has_key r qs)))

  pub has_key-erase_key :
      (p r : ℤ) (qs : List ℤ)
      → IsOrdered side qs
      → has_key r (erase_key p qs) ≡ (if eq_ℤ p r then false else has_key r qs)
  unfolding erase_key
  has_key-erase_key p r [] h = if_same (eq_ℤ p r)
  has_key-erase_key p r (q ∷ qs) h =
      if_elim (λ l. has_key r l ≡ (if eq_ℤ p r then false else has_key r (q ∷ qs))) (eq_ℤ p q)
        (λ same.
          subst (λ x. has_key r qs ≡ (if eq_ℤ x r then false else has_key r (q ∷ qs)))
            (sym ((eq_ℤ_iff p q).0 same))
            (elim (Bool-cases (eq_ℤ q r)) [
              | inl here ↦ rw here (
                  subst (λ x. has_key x qs ≡ false) ((eq_ℤ_iff q r).0 here)
                    (Behind-has_key q qs h.0))
              | inr other ↦ rw other
            ]))
        (λ apart.
          ap (λ x. if eq_ℤ q r then true else x) (has_key-erase_key p r qs h.1)
          ∙ (elim (Bool-cases (eq_ℤ p r)) [
            | inl here ↦
                rw (
                  here,
                  subst (λ x. eq_ℤ q x ≡ false) ((eq_ℤ_iff p r).0 here) (eq_ℤ_swap p q apart),
                )
            | inr other ↦ rw other
          ]))
