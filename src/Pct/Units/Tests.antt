-- ===== src/Pct/Units/Tests.antt =====
-- Runs of Bytes and Duration of pct/sys.go.
use percona_agent.Prelude.{◌*◌, ◌≡◌, refl, [], ◌∷◌, nat_key, string_key}
use percona_agent.Pct.Units.{
  days, hours, minutes, whole_seconds, count_off, second, end_seconds, long_duration, duration,
}

duration_run : duration (93784 * second) ≡ days 1 ∷ hours 2 ∷ minutes 3 ∷ whole_seconds 4 ∷ []
unfolding duration long_duration end_seconds count_off
duration_run = refl
