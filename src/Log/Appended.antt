-- ===== src/Log/Appended.antt =====
-- What appending a record does to a log.
use electronic_exchange_simu.Prelude.{
  ℕ, suc, ◌+◌, ◌-◌, ◌<◌, ◌≤◌, ltb, ◌==◌, ◌||◌, ◌&&◌, true, false, some, List, [], ◌∷◌, ◌≡◌, ◌≢◌,
  refl, sym, subst, ◌++◌, ◌∙◌, arith, if◌then◌else◌, if_elim,
}
use electronic_exchange_simu.Log.Files.{has_file, published_at, payload_at, eof_marker, header_size}
use electronic_exchange_simu.Log.Writer.{
  MmapWriter, open_file, publish, make_room, reserve_room, reserve, write_payload, commit, append,
}
use electronic_exchange_simu.Log.Ahead.{
  Ahead, here, record_at, end_at, Earlier, AtOrBefore, SameBefore, Ahead-AtOrBefore, Ahead-frame,
  Ahead-append,
}

-- A record of a length that the writer takes, in files of a size.
pub record IsStorable (size len : ℕ) : Type 0 where
  pub some_bytes : 0 < len
  pub no_marker : len ≢ eof_marker
  pub fits : header_size + header_size + len ≤ size

Earlier-AtOrBefore : (i o k e l f : ℕ) → Earlier i o k e → AtOrBefore k e l f → Earlier i o l f
Earlier-AtOrBefore i o k e l f x y = ground (arith, x, y)

module _ {A : Type 0} where
  -- A writer at the end of what was written.
  pub record IsAtEnd (w : MmapWriter A) : Type 0 where
    pub there : has_file w.disk w.current_file_index ≡ true
    pub blank : (o : ℕ) → w.current_offset ≤ o → published_at w.disk w.current_file_index o ≡ 0
    pub later : (i o : ℕ) → w.current_file_index < i → published_at w.disk i o ≡ 0
    pub header_fits : w.current_offset + header_size ≤ w.max_file_size

  -- The step from one writer to the next, that puts records between their positions.
  pub record Puts (w : MmapWriter A) (xs : List (A × ℕ)) (v : MmapWriter A) : Type 0 where
    pub same_size : v.max_file_size ≡ w.max_file_size
    pub same : SameBefore w.disk v.disk w.current_file_index w.current_offset
    pub ahead :
        Ahead v.disk w.max_file_size w.current_file_index w.current_offset xs v.current_file_index
          v.current_offset
    pub at_end : IsAtEnd v

  module _ (w : MmapWriter A) (v : IsAtEnd w) (len : ℕ) where
    abbrev rolled : MmapWriter A
    rolled =
        open_file (publish w w.current_file_index w.current_offset eof_marker)
          (suc w.current_file_index)

    rolled-published :
        (i o : ℕ)
        → published_at rolled.disk i o ≡ (
            if (w.current_file_index == i) && (w.current_offset == o)
            then eof_marker
            else published_at w.disk i o)
    unfolding open_file
    rolled-published i o = ground arith

    rolled-payload : (i o : ℕ) → payload_at rolled.disk i o ≡ payload_at w.disk i o
    unfolding open_file
    rolled-payload i o = ground arith

    rolled-has_file :
        (i : ℕ)
        → has_file rolled.disk i
          ≡ (w.current_file_index == i || suc w.current_file_index == i || has_file w.disk i)
    unfolding open_file
    rolled-has_file i = ground arith

  -- The reserved, written and committed record.
  abbrev stored : MmapWriter A → A → ℕ → MmapWriter A
  stored w a len = let (ptr, offset, w1) = reserve_room w len in commit (write_payload w1 ptr a) ptr

  module _ (w : MmapWriter A) (a : A) (len : ℕ) where
    stored-published :
        (i o : ℕ)
        → published_at (stored w a len).disk i o ≡ (
            if (w.current_file_index == i) && (w.current_offset == o)
            then len
            else published_at w.disk i o)
    unfolding reserve_room write_payload commit
    stored-published i o = ground arith

    stored-payload :
        (i o : ℕ)
        → payload_at (stored w a len).disk i o ≡ (
            if (w.current_file_index == i) && (w.current_offset == o)
            then some a
            else payload_at w.disk i o)
    unfolding reserve_room write_payload commit
    stored-payload i o = ground arith

    stored-has_file :
        (i : ℕ)
        → has_file (stored w a len).disk i ≡ (w.current_file_index == i || has_file w.disk i)
    unfolding reserve_room write_payload commit
    stored-has_file i = ground arith

  pub Puts-refl : (w : MmapWriter A) → IsAtEnd w → Puts w [] w
  Puts-refl w v = record {
    same_size = refl;
    same = record { published = λ i o e. refl; payloads = λ i o e. refl; files = λ i h. h };
    ahead = here _ _;
    at_end = v;
  }

  -- The two halves of an append.
  make_room-Puts :
      (w : MmapWriter A) (len : ℕ)
      → IsAtEnd w
      → IsStorable w.max_file_size len
      → Puts w [] (make_room w len)
        × ((make_room w len).current_offset + header_size + len + header_size ≤ w.max_file_size)
  unfolding make_room open_file
  make_room-Puts w len v st =
      if_elim
        (λ (w1 : MmapWriter A).
          Puts w [] w1 × (w1.current_offset + header_size + len + header_size ≤ w.max_file_size))
        (ltb (w.max_file_size - header_size) (w.current_offset + header_size + len))
        (λ e. (rolled-Puts, omega (arith, st.fits)))
        (λ e. (Puts-refl w v, ground (arith, e, st.fits)))
    where
      i : ℕ
      i = w.current_file_index

      r : MmapWriter A
      r = record (rolled w v len) { rollovers = (i, suc i) ∷ (rolled w v len).rollovers }

      rolled-Puts : Puts w [] r
      rolled-Puts = record {
        same_size = refl;
        same = record {
          published = λ i o e. ground (arith, rolled-published w v len i o, e);
          payloads = λ i o e. rolled-payload w v len i o;
          files = λ i h. ground (arith, rolled-has_file w v len i, h);
        };
        ahead =
            end_at _ _ [] _ _ v.header_fits
              (ground (arith, rolled-published w v len w.current_file_index w.current_offset))
              (ground (arith, rolled-has_file w v len (suc w.current_file_index))) (here _ _);
        at_end = record {
          there = ground (arith, rolled-has_file w v len (suc w.current_file_index));
          blank = λ o h. ground (
            arith,
            rolled-published w v len (suc w.current_file_index) o,
            v.later (suc w.current_file_index) o,
          );
          later = λ j o h. ground (arith, rolled-published w v len j o, v.later j o, h);
          header_fits = omega (arith, st.fits);
        };
      }

  stored-Puts :
      (w : MmapWriter A) (a : A) (len : ℕ)
      → IsAtEnd w
      → IsStorable w.max_file_size len
      → w.current_offset + header_size + len + header_size ≤ w.max_file_size
      → Puts w ((a, len) ∷ []) (stored w a len)
  unfolding reserve_room write_payload commit
  stored-Puts w a len v st room = record {
    same_size = refl;
    same = record {
      published = λ i o e. ground (arith, stored-published w a len i o, e);
      payloads = λ i o e. ground (arith, stored-payload w a len i o, e);
      files = λ i h. ground (arith, stored-has_file w a len i, h);
    };
    ahead =
        record_at _ _ a len [] _ _ (omega arith) st.some_bytes st.no_marker
          (ground (arith, stored-published w a len w.current_file_index w.current_offset))
          (ground (arith, stored-payload w a len w.current_file_index w.current_offset)) (here _ _);
    at_end = record {
      there = ground (arith, stored-has_file w a len w.current_file_index);
      blank = λ o h. ground (arith, stored-published w a len w.current_file_index o, v.blank o, h);
      later = λ i o h. ground (arith, stored-published w a len i o, v.later i o h);
      header_fits = omega (arith, room);
    };
  }

  pub Puts-trans :
      (w u v : MmapWriter A) (xs ys : List (A × ℕ))
      → Puts w xs u
      → Puts u ys v
      → Puts w (xs ++ ys) v
  Puts-trans w u v xs ys x y = record {
    same_size = y.same_size ∙ x.same_size;
    same = record {
      published = λ i o e. y.same.published i o (later i o e) ∙ x.same.published i o e;
      payloads = λ i o e. y.same.payloads i o (later i o e) ∙ x.same.payloads i o e;
      files = λ i h. y.same.files i (x.same.files i h);
    };
    ahead =
        Ahead-append v.disk w.max_file_size _ _ xs ys _ _ _ _
          (Ahead-frame u.disk v.disk w.max_file_size _ _ xs _ _ y.same x.ahead)
          (subst
            (λ n.
              Ahead v.disk n u.current_file_index u.current_offset ys v.current_file_index
                v.current_offset)
            x.same_size y.ahead);
    at_end = y.at_end;
  }
    where
      later :
          (i o : ℕ)
          → Earlier i o w.current_file_index w.current_offset
          → Earlier i o u.current_file_index u.current_offset
      later i o e = Earlier-AtOrBefore i o _ _ _ _ e (
          Ahead-AtOrBefore u.disk w.max_file_size _ _ xs u.current_file_index u.current_offset
            x.ahead)

  -- Appending a record leaves the writer at the end of its log, with that record between its old
  -- position and its new one, and changes nothing that was published before the old position. The
  -- writer is at the end of its log, the record's length is neither 0 nor the end marker, and the
  -- record with two headers fits a file.
  pub append-Puts :
      (w : MmapWriter A) (a : A) (len : ℕ)
      → IsAtEnd w
      → IsStorable w.max_file_size len
      → Puts w ((a, len) ∷ []) (append w a len).1
  unfolding append reserve
  append-Puts w a len v st =
      let (made, room) = make_room-Puts w len v st in
      let m = make_room w len in
      rw (valid, append)
        (Puts-trans w m (stored m a len) [] ((a, len) ∷ []) made (
          stored-Puts m a len made.at_end (subst (λ n. IsStorable n len) (sym made.same_size) st) (
            subst (λ n. m.current_offset + header_size + len + header_size ≤ n) (sym made.same_size)
              room)))
    where
      valid : (len == 0 || len == eof_marker) ≡ false
      valid = ground (arith, st.some_bytes, st.no_marker)
