-- ===== src/Log/Ahead.antt =====
-- What lies ahead of a position in a log, up to another one.
use electronic_exchange_simu.Prelude.{
  ℕ, suc, ◌+◌, ◌<◌, ◌≤◌, true, some, List, [], ◌∷◌, ◌++◌, ◌≡◌, ◌≢◌, ◌⊎◌, refl, ◌∙◌, arith, inr,
}
use electronic_exchange_simu.Log.Files.{
  Disk, has_file, published_at, payload_at, eof_marker, header_size,
}

-- Order of positions.
abbrev pub AtOrBefore : ℕ → ℕ → ℕ → ℕ → Type 0
AtOrBefore i o k e = (i < k) ⊎ ((i ≡ k) × (o ≤ e))

abbrev pub Earlier : ℕ → ℕ → ℕ → ℕ → Type 0
Earlier i o k e = (i < k) ⊎ ((i ≡ k) × (o < e))

module _ {A : Type 0} where
  -- The records from the position (i, o) to the position (k, e), over the ends of files.
  pub data Ahead (d : Disk A) (size : ℕ) : ℕ → ℕ → List (A × ℕ) → ℕ → ℕ → Type 0 where
    here : (i o : ℕ) → Ahead d size i o [] i o
    record_at :
        (i o : ℕ) (a : A) (len : ℕ) (xs : List (A × ℕ)) (k e : ℕ)
        → o + header_size ≤ size
        → 0 < len
        → len ≢ eof_marker
        → published_at d i o ≡ len
        → payload_at d i o ≡ some a
        → Ahead d size i (o + header_size + len) xs k e
        → Ahead d size i o ((a, len) ∷ xs) k e
    end_at :
        (i o : ℕ) (xs : List (A × ℕ)) (k e : ℕ)
        → o + header_size ≤ size
        → published_at d i o ≡ eof_marker
        → has_file d (suc i) ≡ true
        → Ahead d size (suc i) 0 xs k e
        → Ahead d size i o xs k e

  pub Ahead-AtOrBefore :
      (d : Disk A) (size i o : ℕ) (xs : List (A × ℕ)) (k e : ℕ)
      → Ahead d size i o xs k e
      → AtOrBefore i o k e
  Ahead-AtOrBefore d size _ _ _ _ _ (here i o) = inr (refl, omega arith)
  Ahead-AtOrBefore d size _ _ _ _ _ (record_at i o a len ys k e fits pos nf p q h) =
      ground (arith, Ahead-AtOrBefore d size i (o + header_size + len) ys k e h)
  Ahead-AtOrBefore d size _ _ _ _ _ (end_at i o xs k e fits p f h) =
      ground (arith, Ahead-AtOrBefore d size (suc i) 0 xs k e h)

  -- Two disks that agree before a position, and on which files there are.
  pub record SameBefore (d d' : Disk A) (k e : ℕ) : Type 0 where
    pub published : (i o : ℕ) → Earlier i o k e → published_at d' i o ≡ published_at d i o
    pub payloads : (i o : ℕ) → Earlier i o k e → payload_at d' i o ≡ payload_at d i o
    pub files : (i : ℕ) → has_file d i ≡ true → has_file d' i ≡ true

  pub Ahead-frame :
      (d d' : Disk A) (size i o : ℕ) (xs : List (A × ℕ)) (k e : ℕ)
      → SameBefore d d' k e
      → Ahead d size i o xs k e
      → Ahead d' size i o xs k e
  Ahead-frame d d' size _ _ _ _ _ same (here i o) = here i o
  Ahead-frame d d' size _ _ _ _ _ same (record_at i o a len ys k e fits pos nf p q h) =
      record_at i o a len ys k e fits pos nf (same.published i o early ∙ p)
        (same.payloads i o early ∙ q)
        (Ahead-frame d d' size i (o + header_size + len) ys k e same h)
    where
      early : Earlier i o k e
      early = ground (arith, Ahead-AtOrBefore d size i (o + header_size + len) ys k e h)
  Ahead-frame d d' size _ _ _ _ _ same (end_at i o xs k e fits p f h) =
      end_at i o xs k e fits (same.published i o early ∙ p) (same.files (suc i) f)
        (Ahead-frame d d' size (suc i) 0 xs k e same h)
    where
      early : Earlier i o k e
      early = ground (arith, Ahead-AtOrBefore d size (suc i) 0 xs k e h)

  pub Ahead-append :
      (d : Disk A) (size i o : ℕ) (xs ys : List (A × ℕ)) (k e l f : ℕ)
      → Ahead d size i o xs k e
      → Ahead d size k e ys l f
      → Ahead d size i o (xs ++ ys) l f
  Ahead-append d size _ _ _ ys _ _ l f (here i o) y = y
  Ahead-append d size _ _ _ ys _ _ l f (record_at i o a len zs k e fits pos nf p q h) y =
      record_at i o a len (zs ++ ys) l f fits pos nf p q
        (Ahead-append d size i (o + header_size + len) zs ys k e l f h y)
  Ahead-append d size _ _ _ ys _ _ l f (end_at i o xs k e fits p g h) y =
      end_at i o (xs ++ ys) l f fits p g (Ahead-append d size (suc i) 0 xs ys k e l f h y)
