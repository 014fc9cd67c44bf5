-- ===== src/Log/Replay.antt =====
-- A reader gets what a writer appended, in order.
use electronic_exchange_simu.Prelude.{
  ℕ, zero, suc, ◌+◌, ◌<◌, ◌≤◌, true, Option, none, some, List, [], ◌∷◌, ◌≡◌, ◌≢◌, sym, ap, subst,
  ◌∙◌, arith, All, length,
}
use electronic_exchange_simu.Log.Files.{
  Disk, has_file, published_at, payload_at, eof_marker, header_size,
}
use electronic_exchange_simu.Log.Writer.{
  MmapWriter, append, reserve, make_room, reserve_room, write_payload, commit, open_file,
}
use electronic_exchange_simu.Log.Reader.{MmapReader, LogRecord, open_reader, remap, read_next}
use electronic_exchange_simu.Log.Ahead.{Ahead, Ahead-AtOrBefore, here, record_at, end_at}
use electronic_exchange_simu.Log.Appended.{
  IsStorable, IsAtEnd, Puts, Puts-refl, Puts-trans, append-Puts,
}

abbrev pub at_position : ℕ → ℕ → MmapReader
at_position i o = record { current_file_index = i; mapped = true; current_offset = o }

module _ {A : Type 0} where
  -- Records appended one after the other.
  abbrev pub append_all : MmapWriter A → List (A × ℕ) → MmapWriter A
  append_all w [] = w
  append_all w ((a, len) ∷ xs) = append_all (append w a len).1 xs

  pub append_all-Puts :
      (w : MmapWriter A) (xs : List (A × ℕ))
      → IsAtEnd w
      → All (λ x. IsStorable w.max_file_size x.1) xs
      → Puts w xs (append_all w xs)
  append_all-Puts w [] v st = Puts-refl w v
  append_all-Puts w ((a, len) ∷ xs) v st =
      let w1 = (append w a len).1 in
      let one = append-Puts w a len v st.0 in
      Puts-trans w w1 (append_all w1 xs) ((a, len) ∷ []) xs one (
        append_all-Puts w1 xs one.at_end
          (subst (λ n. All (λ (x : A × ℕ). IsStorable n x.1) xs) (sym one.same_size) st.1))

  abbrev pub then_read : Option (LogRecord A) → List (LogRecord A) → List (LogRecord A)
  then_read none rs = []
  then_read (some x) rs = x ∷ rs

  -- The records that a reader gets in `n` calls, as far as it gets any.
  abbrev pub read_all : Disk A → ℕ → ℕ → ℕ → MmapReader → List (LogRecord A)
  read_all d size fuel zero r = []
  read_all d size fuel (suc n) r =
      let (found, r') = read_next d size fuel r in then_read found (read_all d size fuel n r')

  abbrev pub as_records : List (A × ℕ) → List (LogRecord A)
  as_records [] = []
  as_records ((a, len) ∷ xs) = record { data_at = some a; len = len } ∷ as_records xs

  module _ (d : Disk A) (size : ℕ) where
    read_next-record :
        (fuel i o : ℕ) (a : A) (len : ℕ)
        → o + header_size ≤ size
        → 0 < len
        → len ≢ eof_marker
        → published_at d i o ≡ len
        → payload_at d i o ≡ some a
        → read_next d size (suc fuel) (at_position i o)
          ≡ (some (record { data_at = some a; len = len }), at_position i (o + header_size + len))
    unfolding read_next remap
    read_next-record fuel i o a len fits pos nf p q = ground (arith, fits, pos, nf, p, q)

    read_next-end :
        (fuel i o : ℕ)
        → o + header_size ≤ size
        → published_at d i o ≡ eof_marker
        → has_file d (suc i) ≡ true
        → read_next d size (suc fuel) (at_position i o)
          ≡ read_next d size fuel (at_position (suc i) 0)
    unfolding read_next remap open_reader
    read_next-end fuel i o fits p f = ground (arith, fits, p, f)

    read_next-blank :
        (fuel i o : ℕ)
        → published_at d i o ≡ 0
        → read_next d size (suc fuel) (at_position i o) ≡ (none, at_position i o)
    unfolding read_next remap
    read_next-blank fuel i o p = ground (arith, p)

    -- What the next call gives, by what lies ahead.
    abbrev FirstRead : ℕ → List (A × ℕ) → ℕ → ℕ → Option (LogRecord A) × MmapReader → Type 0
    FirstRead i [] k e res = res.0 ≡ none
    FirstRead i ((a, len) ∷ xs) k e res =
        (j : ℕ) × (p : ℕ) × (i ≤ j)
        × (res ≡ (some (record { data_at = some a; len = len }), at_position j p))
        × Ahead d size j p xs k e

    weaken :
        (i j : ℕ) (xs : List (A × ℕ)) (k e : ℕ) (res : Option (LogRecord A) × MmapReader)
        → i ≤ j
        → FirstRead j xs k e res
        → FirstRead i xs k e res
    weaken i j [] k e res h f = f
    weaken i j ((a, len) ∷ xs) k e res h (l, p, le, same, ahead) = (l, p, omega arith, same, ahead)

    read_next-FirstRead :
        (fuel i o : ℕ) (xs : List (A × ℕ)) (k e : ℕ)
        → Ahead d size i o xs k e
        → k < i + fuel
        → published_at d k e ≡ 0
        → FirstRead i xs k e (read_next d size fuel (at_position i o))
    read_next-FirstRead zero i o xs k e h enough blank =
        absurd (ground (arith, Ahead-AtOrBefore d size i o xs k e h, enough))
    read_next-FirstRead (suc fuel) _ _ _ _ _ (here i o) enough blank =
        ap (λ r. r.0) (read_next-blank fuel i o blank)
    read_next-FirstRead (suc fuel) _ _ _ _ _ (record_at i o a len xs k e fits pos nf p q h) enough
          blank =
        (i, o + header_size + len, omega arith, read_next-record fuel i o a len fits pos nf p q, h)
    read_next-FirstRead (suc fuel) _ _ _ _ _ (end_at i o xs k e fits p f h) enough blank =
        weaken i (suc i) xs k e _ (omega arith) (
          subst (FirstRead (suc i) xs k e) (sym (read_next-end fuel i o fits p f))
            (read_next-FirstRead fuel (suc i) 0 xs k e h (omega (arith, enough)) blank))

    read_all-Ahead :
        (fuel i o : ℕ) (xs : List (A × ℕ)) (k e : ℕ)
        → Ahead d size i o xs k e
        → k < i + fuel
        → published_at d k e ≡ 0
        → read_all d size fuel (suc (length xs)) (at_position i o) ≡ as_records xs
    read_all-Ahead fuel i o [] k e h enough blank =
        ap (λ x. then_read x (read_all d size fuel 0 (read_next d size fuel (at_position i o)).1))
          (read_next-FirstRead fuel i o [] k e h enough blank)
    read_all-Ahead fuel i o ((a, len) ∷ xs) k e h enough blank =
        let (j, p, le, same, ahead) =
          read_next-FirstRead fuel i o ((a, len) ∷ xs) k e h enough blank in
        ap (λ x. then_read x.0 (read_all d size fuel (suc (length xs)) x.1)) same
        ∙ (ap (λ rs. record { data_at = some a; len = len } ∷ rs)
            (read_all-Ahead fuel j p xs k e ahead (omega (arith, enough, le)) blank))

  -- An append goes on by at most one file.
  append-index :
      (w : MmapWriter A) (a : A) (len : ℕ)
      → (append w a len).1.current_file_index ≤ suc w.current_file_index
  unfolding append reserve make_room reserve_room write_payload commit open_file
  append-index w a len = ground arith

  append_all-index :
      (w : MmapWriter A) (xs : List (A × ℕ))
      → (append_all w xs).current_file_index ≤ w.current_file_index + length xs
  append_all-index w [] = omega arith
  append_all-index w ((a, len) ∷ xs) =
      omega (arith, append_all-index (append w a len).1 xs, append-index w a len)

  -- A reader that stands where a writer is gets exactly the records that the writer then appends,
  -- in order and over the ends of files, and then nothing. The writer is at the end of its log,
  -- each record's length is neither 0 nor the end marker, and a record with two headers fits a
  -- file.
  pub read_all-append_all :
      (w : MmapWriter A) (xs : List (A × ℕ))
      → IsAtEnd w
      → All (λ x. IsStorable w.max_file_size x.1) xs
      → let calls = suc (length xs) in
        read_all
          (append_all w xs).disk
          w.max_file_size
          calls
          calls
          (at_position w.current_file_index w.current_offset)
        ≡ as_records xs
  read_all-append_all w xs v st =
      let h = append_all-Puts w xs v st in
      let u = append_all w xs in
      read_all-Ahead u.disk w.max_file_size (suc (length xs)) w.current_file_index w.current_offset
        xs u.current_file_index u.current_offset h.ahead (omega (arith, append_all-index w xs))
        (h.at_end.blank u.current_offset (omega arith))
