-- ===== src/Qan/Analyzer/Stopping.antt =====
-- Runs of qan/analyzer.go, and how they end.
use percona_agent.Prelude.{ℕ, zero, suc, ◌≡◌, refl, subst, Bool, true, false, List, [], ◌∷◌}
use percona_agent.Qan.Analyzer.{
  Analyzer, Next, goes_on, returns, hangs, Event, interval_comes, worker_ends, worker_seen,
  mysql_configures, configured, mysql_restarts, stop, new_analyzer, stop_iter, reset_mysql,
  stop_configuring, stop_rest, on_stop, step, run,
}
use percona_agent.Qan.Analyzer.Turns.{
  one_if, list_of, no_worker, IsConsistent, Continues, on_interval-IsConsistent,
  on_worker_end-IsConsistent, on_worker_seen-IsConsistent, on_configures-IsConsistent,
  on_configured-IsConsistent, on_restart-Continues,
}

reset_mysql-Continues : (a : Analyzer) (ok b : Bool) → Continues (reset_mysql a ok b)
unfolding reset_mysql
reset_mysql-Continues a false b = tt
reset_mysql-Continues a true true = tt
reset_mysql-Continues a true false = tt

stop_configuring-Continues :
    (a : Analyzer) (b : Bool) (n : ℕ) (ok : Bool) → Continues (stop_configuring a b n ok)
unfolding stop_configuring
stop_configuring-Continues a true n ok = reset_mysql-Continues a ok a.configured_chan
stop_configuring-Continues a false zero ok = tt
stop_configuring-Continues a false (suc n) ok = reset_mysql-Continues _ ok a.configured_chan

-- After a stop, `run` does not go on.
on_stop-Continues : (a : Analyzer) (ok r : Bool) → Continues (stop_rest ok (stop_iter a r))
unfolding stop_rest stop_iter
on_stop-Continues a ok true = stop_configuring-Continues _ _ _ ok
on_stop-Continues a ok false = tt

step-Continues : (a : Analyzer) (e : Event) → IsConsistent a → Continues (step a e)
unfolding step on_stop
step-Continues a (interval_comes i) h = on_interval-IsConsistent a i h
step-Continues a worker_ends h = on_worker_end-IsConsistent a a.worker a.worker_done refl refl h
step-Continues a worker_seen h = on_worker_seen-IsConsistent a a.worker_done refl h
step-Continues a mysql_configures h =
    on_configures-IsConsistent a a.configuring a.configured_chan refl refl h
step-Continues a (configured eta now) h =
    on_configured-IsConsistent a a.configured_chan eta now refl h
step-Continues a mysql_restarts h =
    on_restart-Continues a a.mysql_configured a.iter_running refl refl h
step-Continues a (stop ok) h = on_stop-Continues a ok a.iter_running

run-Continues : (n : Next) (es : List Event) → Continues n → Continues (run n es)
unfolding run
run-Continues n [] h = h
run-Continues (goes_on a) (e ∷ es) h = run-Continues (step a e) es (step-Continues a e h)
run-Continues (returns a) (e ∷ es) h = tt
run-Continues (hangs a) (e ∷ es) h = tt

new_analyzer-IsConsistent : (interval : ℕ) → IsConsistent (new_analyzer interval)
unfolding new_analyzer one_if list_of
new_analyzer-IsConsistent interval = record {
  iter_eq = refl;
  one = refl;
  turn = no_worker;
  order = refl;
}

-- Whatever comes in whatever order, as long as the analyzer goes on: the iterator runs exactly while
-- MySQL is known to be configured; one goroutine at most configures MySQL; one worker at most is
-- under way, and its intervals are cleaned up after in the order in which they were started.
pub run-IsConsistent :
    (interval : ℕ) (es : List Event) (a : Analyzer)
    → run (goes_on (new_analyzer interval)) es ≡ goes_on a
    → IsConsistent a
run-IsConsistent interval es a e =
    subst Continues e
      (run-Continues (goes_on (new_analyzer interval)) es (new_analyzer-IsConsistent interval))
