-- ===== src/Qan/Analyzer/Tests.antt =====
-- Runs of qan/analyzer.go.
use percona_agent.Prelude.{◌≡◌, refl, some, List, [], ◌∷◌}
use percona_agent.Qan.Analyzer.{
  Interval, Analyzer, goes_on, Event, interval_comes, worker_ends, worker_seen, mysql_configures,
  configured, mysql_restarts, new_analyzer, start_worker, on_interval, on_worker_end,
  on_worker_seen, on_configures, on_configured, stop_iter, configure_again, on_restart, step, run,
}
use percona_agent.Qan.Analyzer.Turns.{IsConsistent}
use percona_agent.Qan.Analyzer.Stopping.{run-IsConsistent}

abbrev first : Interval
first = record { number = 1; start_time = 60; stop_time = 120 }

abbrev worked : List Event
worked =
    mysql_configures
    ∷ configured 500 30
    ∷ interval_comes first
    ∷ worker_ends
    ∷ worker_seen
    ∷ mysql_restarts
    ∷ []

abbrev restarted : Analyzer
restarted = record (new_analyzer 60) {
  current_interval = some first;
  last_ts = 60;
  started = first ∷ [];
  cleaned = first ∷ [];
}

runs : run (goes_on (new_analyzer 60)) worked ≡ goes_on restarted
unfolding new_analyzer run step on_configures on_configured on_interval start_worker on_worker_end
    on_worker_seen on_restart stop_iter configure_again
runs = refl

run-IsConsistent_example : IsConsistent restarted
run-IsConsistent_example = run-IsConsistent 60 worked restarted runs
