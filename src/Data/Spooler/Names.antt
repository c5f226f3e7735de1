-- ===== src/Data/Spooler/Names.antt =====
-- The names of the data files of data/spooler.go.
use percona_agent.Prelude.{◌≡◌, ap, ◌∙◌, some}
use percona_agent.Prelude.Int.{ℤ}
use percona_agent.Prelude.Text.{Text, IsFree, split_two}
use percona_agent.Prelude.Decimal.{print_ℤ, IsInt64, print_ℤ-IsFree, parse_int-print_ℤ}
use percona_agent.Data.Spooler.{key_of, second_part, ts_of}

-- The time of a data file is read back from the name under which it was spooled, for every 64-bit
-- time and every service without an underscore in its name.
pub ts_of-key_of :
    (service : Text) (ts : ℤ)
    → IsFree b'_' service
    → IsInt64 ts
    → ts_of (key_of service ts) ≡ some ts
unfolding ts_of key_of second_part
ts_of-key_of service ts free fits =
    ap second_part (split_two b'_' service (print_ℤ ts) free (print_ℤ-IsFree ts))
    ∙ parse_int-print_ℤ ts fits
