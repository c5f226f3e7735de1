-- ===== src/Data/Spooler/Memory.antt =====
-- A directory in memory, as the store of data/spooler.go.
use mathlib.Core.List.{append-nil}
use percona_agent.Prelude.{
  ◌≡◌, refl, sym, ap, ◌≢◌, inl, inr, true, none, List, [], ◌∷◌, ◌++◌, map, arith, Bool-cases,
  sum_of, lookup, insert, erase,
}
use percona_agent.Prelude.{IsMap, insert-IsMap, erase-IsMap}
use percona_agent.Prelude.Int.{pos}
use percona_agent.Prelude.Text.{Text, text_key}
use percona_agent.Data.Spooler.{Bytes, done, failed, Diskv, Spooler}
use percona_agent.Data.Spooler.Erasing.{Healthy, IsAccurate}

abbrev pub Directory : Type 0
Directory = (fs : List (Text × Bytes)) × IsMap fs

abbrev pub in_memory : Diskv Directory
in_memory = record {
  keys = λ c. map (λ e. e.0) c.0;
  read = λ k c. lookup k c.0;
  write = λ k b c. (true, (insert k b c.0, insert-IsMap k b c.0 c.1));
  erase_key = λ k c. (done, (erase k c.0, erase-IsMap k c.0 c.1));
}

pub insert_new :
    (k : Text) (b : Bytes) (fs : List (Text × Bytes))
    → lookup k fs ≡ none
    → insert k b fs ≡ fs ++ (k, b) ∷ []
unfolding lookup insert
insert_new k b [] h = refl
insert_new k b ((j, c) ∷ fs) h = elim (Bool-cases (text_key.beq j k)) [
  | inl t ↦ absurd (ground arith)
  | inr t ↦ rw (t, insert) (ap (λ x. (j, c) ∷ x) (insert_new k b fs (ground arith)))
]

pub done_works : done ≢ failed
done_works e = absurd (ground arith)

abbrev pub healthy : Healthy in_memory
healthy = record {
  files = λ c. c.0;
  files-IsMap = λ c. c.1;
  keys_lem = λ c. refl;
  read_lem = λ k c. refl;
  erase_works = λ k c. done_works;
  erase_lem = λ k c. refl;
  write_lem = λ k b c h. (c.0, [], sym (append-nil c.0), insert_new k b c.0 h);
}

abbrev pub empty : Spooler Directory
empty = record { cache = ([], tt); count = 0; size = 0; oldest = pos 9; file_size = [] }

pub empty-IsAccurate : IsAccurate healthy empty
unfolding lookup sum_of
empty-IsAccurate = record {
  count_eq = refl;
  size_eq = refl;
  count_fits = omega arith;
  size_fits = omega arith;
  cached = λ k n b en eb. absurd (ground arith);
}
