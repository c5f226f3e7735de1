-- ===== src/Data/Manager/Clearing.antt =====
-- The purge that data/manager.go makes on command.
use percona_agent.Prelude.{◌≤◌, ◌≡◌, refl, none, List, [], ◌∷◌, arith, length}
use percona_agent.Prelude.Int.{ℤ}
use percona_agent.Data.Spooler.{Diskv}
use percona_agent.Data.Spooler.Erasing.{Healthy, IsAccurate}
use percona_agent.Data.Spooler.Within.{purge-IsWithin}
use percona_agent.Data.Manager.{Manager, limits_of, handle_purge}

length-zero {ℓ} : {A : Type ℓ} (xs : List A) → length xs ≤ 0 → xs ≡ []
length-zero [] h = refl
length-zero (x ∷ xs) h = absurd (omega (arith, h))

-- The command Purge without data empties the spool of a healthy disk, and the counters are zero.
pub purge_empties :
    {C : Type 0} (d : Diskv C) (v : Healthy d) (now later : ℤ) (m : Manager C)
    → IsAccurate v m.spooler
    → (v.files (handle_purge d now later m (limits_of d none)).1.spooler.cache ≡ [])
      × ((handle_purge d now later m (limits_of d none)).1.spooler.count ≡ 0)
unfolding handle_purge limits_of
purge_empties d v now later m h =
    let (within, accurate) =
      purge-IsWithin d v now (record { max_age = 0; max_size = 0; max_files = 0 }) later m.spooler
        h in
    (length-zero _ within.few, omega (arith, accurate.count_eq, within.few))
