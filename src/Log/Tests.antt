-- ===== src/Log/Tests.antt =====
-- A log of two records in files that hold one each.
use electronic_exchange_simu.Prelude.{ℕ, none, some, [], ◌∷◌, ◌≡◌, refl, arith, update}
use electronic_exchange_simu.Log.Files.{LogFile, file_or_zeros}
use electronic_exchange_simu.Log.Writer.{MmapWriter, append}
use electronic_exchange_simu.Log.Appended.{IsAtEnd, IsStorable, Puts, append-Puts}
use electronic_exchange_simu.Log.Replay.{
  append_all, read_all, as_records, at_position, read_all-append_all,
}

abbrev zeros : LogFile ℕ
zeros = file_or_zeros none

abbrev writer : MmapWriter ℕ
writer = record {
  disk = update (λ i. none) 0 (some zeros);
  max_file_size = 32;
  current_file_index = 0;
  current_offset = 0;
  rollovers = [];
}

writer-IsAtEnd : IsAtEnd writer
writer-IsAtEnd = record {
  there = refl;
  blank = λ o h. refl;
  later = λ i o h. ground (arith, h);
  header_fits = omega arith;
}

storable : IsStorable 32 16
storable = record {
  some_bytes = omega arith;
  no_marker = λ e. omega (arith, e);
  fits = omega arith;
}

append-Puts_example : Puts writer ((7, 16) ∷ []) (append writer 7 16).1
append-Puts_example = append-Puts writer 7 16 writer-IsAtEnd storable

read_all-append_all_example :
    read_all (append_all writer ((7, 16) ∷ (8, 16) ∷ [])).disk 32 3 3 (at_position 0 0)
    ≡ as_records ((7, 16) ∷ (8, 16) ∷ [])
read_all-append_all_example =
    read_all-append_all writer ((7, 16) ∷ (8, 16) ∷ []) writer-IsAtEnd (storable, (storable, tt))
