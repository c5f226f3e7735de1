-- ===== src/Ticker/Tests.antt =====
-- Runs of the clock of ticker/manager.go.
use percona_agent.Prelude.{◌≡◌, ◌↔◌, refl, arith, nat_key, lookup, insert}
use percona_agent.Ticker.{Clock, new_clock, add_sync, leave, remove}
use percona_agent.Ticker.Watchers.{IsWatcher}
use percona_agent.Ticker.Silence.{
  IsSettled, IsSilent, new_clock-IsSettled, add_sync-IsSettled, remove_silences,
}
use percona_agent.Ticker.Moving.{moved}

abbrev one_channel : Clock
one_channel = add_sync new_clock 7 60

two_channels : IsSettled (add_sync one_channel 8 60)
unfolding add_sync new_clock lookup insert
two_channels =
    add_sync-IsSettled one_channel 8 60 refl
      (add_sync-IsSettled new_clock 7 60 refl new_clock-IsSettled)

remove_silences_example :
    IsSettled (remove (add_sync one_channel 8 60) 7)
    × IsSilent
        (leave (add_sync one_channel 8 60) 7 (lookup 7 (add_sync one_channel 8 60).watcher))
        7
    × IsSilent (remove (add_sync one_channel 8 60) 7) 7
    × (IsWatcher (remove (add_sync one_channel 8 60) 7) 60 8
        ↔ IsWatcher (add_sync one_channel 8 60) 60 8)
    × (lookup 8 (remove (add_sync one_channel 8 60) 7).wait_ticker
        ≡ lookup 8 (add_sync one_channel 8 60).wait_ticker)
    × (lookup 8 (remove (add_sync one_channel 8 60) 7).watcher
        ≡ lookup 8 (add_sync one_channel 8 60).watcher)
remove_silences_example =
    remove_silences (add_sync one_channel 8 60) 7 60 8 two_channels (λ e. omega (arith, e))

moved_example :
    IsWatcher (add_sync (add_sync new_clock 7 60) 7 300) 60 7
    × IsWatcher (add_sync (add_sync new_clock 7 60) 7 300) 300 7
    × IsWatcher (remove (add_sync (add_sync new_clock 7 60) 7 300) 7) 60 7
    × (¬ IsWatcher (remove (add_sync (add_sync new_clock 7 60) 7 300) 7) 300 7)
moved_example = moved new_clock 7 60 300 (λ e. omega (arith, e))
