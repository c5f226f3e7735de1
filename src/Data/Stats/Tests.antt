-- ===== src/Data/Stats/Tests.antt =====
-- Runs of data/stats.go.
use percona_agent.Prelude.{
  ℕ, ◌+◌, ◌≡◌, refl, ◌≢◌, ◌⊎◌, ◌≤◌, true, List, [], ◌∷◌, ◌++◌, nat_key, string_key,
}
use percona_agent.Data.Stats.{SentInfo, SenderStats, drop_old, oldest_begin, add_sent, report}
use percona_agent.Data.Stats.Window.{IsTight, add_sent-window}

abbrev at : ℕ → SentInfo
at t = record {
  begin = t;
  end = t + 5;
  send_time = 4;
  files = 1;
  bytes = 100;
  errs = 1;
  api_errs = 0;
  timeouts = 0;
  bad_files = 0;
}

abbrev window : SenderStats
window = record { d = 20; begin = 10; end = 35; sent = at 10 ∷ at 20 ∷ at 30 ∷ []; full = true }

window_run : (add_sent window (at 40)).sent ≡ at 20 ∷ at 30 ∷ at 40 ∷ []
unfolding add_sent drop_old
window_run = refl

report_run : (report window).bytes ≡ 300
unfolding report
report_run = refl

add_sent-window_example :
    (dropped : List SentInfo) × (at 10 ∷ at 20 ∷ at 30 ∷ at 40 ∷ []
      ≡ dropped ++ (add_sent window (at 40)).sent)
    × ((dropped ≡ []) ⊎ ((add_sent window (at 40)).begin + 20 ≤ 45))
    × ((add_sent window (at 40)).sent ≢ [])
    × IsTight 45 20 (add_sent window (at 40)).sent
    × ((add_sent window (at 40)).begin ≡ oldest_begin (add_sent window (at 40)).sent)
    × ((add_sent window (at 40)).end ≡ 45)
add_sent-window_example = add_sent-window window (at 40) refl
