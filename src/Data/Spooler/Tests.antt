-- ===== src/Data/Spooler/Tests.antt =====
-- Runs of data/spooler.go on a directory in memory.
use percona_agent.Prelude.{◌≡◌, refl, false, some, [], ◌∷◌, arith, lookup, insert, sum_of}
use percona_agent.Prelude.Decimal.{print_ℤ, print_ℕ, emit}
use percona_agent.Prelude.Int.{pos}
use percona_agent.Prelude.Text.{codes, text_key}
use percona_agent.Data.Spooler.{
  DataSpoolLimits, Spooler, too_old, age, key_of, ts_of, why, spool, purge,
}
use percona_agent.Data.Spooler.Memory.{Directory, in_memory, healthy, empty, empty-IsAccurate}
use percona_agent.Data.Spooler.Names.{ts_of-key_of}
use percona_agent.Data.Spooler.Erasing.{IsAccurate}
use percona_agent.Data.Spooler.Within.{IsWithin, purge-IsWithin}
use percona_agent.Data.Spooler.Steps.{SpoolSteps, stop, next, spooled, steps-IsAccurate}
use percona_agent.Data.Spooler.Future.{future-too_old}

abbrev limits : DataSpoolLimits
limits = record { max_age = 60; max_size = 5; max_files = 2 }

abbrev two_files : Spooler Directory
two_files =
    spool in_memory (spool in_memory empty (codes "mm") (pos 5) (some (1 ∷ 2 ∷ 3 ∷ [])))
      (codes "qan") (pos 7) (some (4 ∷ 5 ∷ 6 ∷ []))

two_files_steps : SpoolSteps in_memory healthy empty two_files
unfolding lookup insert spool key_of sum_of print_ℤ print_ℕ emit
two_files_steps =
    next empty _ two_files
      (spooled empty (codes "mm") (pos 5) (1 ∷ 2 ∷ 3 ∷ []) refl refl (omega arith) (omega arith))
      (next _ two_files two_files
        (spooled _ (codes "qan") (pos 7) (4 ∷ 5 ∷ 6 ∷ []) refl refl (omega arith) (omega arith))
        (stop two_files))

steps-IsAccurate_example : IsAccurate healthy two_files
steps-IsAccurate_example =
    steps-IsAccurate in_memory healthy empty two_files two_files_steps empty-IsAccurate

purge-IsWithin_example :
    IsWithin healthy (pos 9) limits (purge in_memory (pos 9) (pos 9) limits two_files).0
    × IsAccurate healthy (purge in_memory (pos 9) (pos 9) limits two_files).0
purge-IsWithin_example =
    purge-IsWithin in_memory healthy (pos 9) limits (pos 9) two_files
      (steps-IsAccurate in_memory healthy empty two_files two_files_steps empty-IsAccurate)

ts_of-key_of_example : ts_of (key_of (codes "qan") (pos 1700)) ≡ some (pos 1700)
ts_of-key_of_example =
    ts_of-key_of (codes "qan") (pos 1700) (refl, (refl, (refl, tt))) (omega arith)

future-too_old_example : why false limits (age (pos 5) (pos 2000000000)) 0 0 ≡ too_old
future-too_old_example =
    future-too_old limits 5 2000000000 0 0 (omega arith) (omega arith) (omega arith)
