-- ===== src/Pct/Backoff/Tests.antt =====
-- Runs of pct/backoff.go.
use percona_agent.Prelude.{◌≡◌, refl, [], ◌∷◌, none}
use percona_agent.Pct.Backoff.{Backoff, new_backoff, wait, waits_of}

waits_run : waits_of (new_backoff 0) (5 ∷ 5 ∷ 5 ∷ []) ≡ 0 ∷ 1 ∷ 3 ∷ []
unfolding waits_of new_backoff wait
waits_run = refl

flapping : Backoff
flapping = record { try = 3; last_success = none; reset_after = 100 }
