-- ===== src/Qan/Analyzer.antt =====
-- qan/analyzer.go: the state machine that configures MySQL, starts and stops the interval iterator,
-- and runs a worker for each interval.
-- `R` and `W` are the results of the worker and the reports. The goroutines that `run` starts, the
-- worker and configureMySQL, take their steps as events. Texts, times and the names of queries are
-- left out.
pub mod Turns
pub mod Stopping
mod Tests
use percona_agent.Prelude.{
  ℕ, zero, suc, ◌+◌, ◌-◌, Bool, true, false, not, ◌&&◌, Option, none, some, List, [], ◌∷◌, ◌++◌,
  ltb, leb, ◌==◌, if◌then◌else◌,
}
use percona_agent.Ticker.{began}

pub record Interval : Type 0 where
  pub number : ℕ
  pub start_time : ℕ
  pub stop_time : ℕ

abbrev pub min_slowlog_rotation_size : ℕ
min_slowlog_rotation_size = 4096

-- `configuring` counts the goroutines of configureMySQL that have not ended, `configured_chan` tells
-- whether mysqlConfiguredChan holds a value. `worker` is the interval of the goroutine runWorker,
-- `worker_done` what workerDoneChan holds. `started` and `cleaned` are the intervals for which a
-- worker was started, and those after which `run` cleaned up; `skipped` the others.
pub record Analyzer : Type 0 where
  pub interval : ℕ
  pub mysql_configured : Bool
  pub worker_running : Bool
  pub current_interval : Option Interval
  pub last_ts : ℕ
  pub iter_running : Bool
  pub configuring : ℕ
  pub configured_chan : Bool
  pub worker : Option Interval
  pub worker_done : Option Interval
  pub started : List Interval
  pub cleaned : List Interval
  pub skipped : List Interval
  pub early_ticks : List ℕ

-- `hangs`: `run` waits for ever for the goroutine that a SyncChan is to stop.
pub data Next : Type 0 where
  goes_on : Analyzer → Next
  returns : Analyzer → Next
  hangs : Analyzer → Next

-- `mysql_configures` and `worker_ends` are steps of the goroutines; the other events are the cases
-- of the select. `configured eta now`: the clock's ETA in tenths of a second, and the time;
-- `stop b`: whether the last configureMySQL, which resets MySQL, succeeds.
pub data Event : Type 0 where
  interval_comes : Interval → Event
  worker_ends : Event
  worker_seen : Event
  mysql_configures : Event
  configured : ℕ → ℕ → Event
  mysql_restarts : Event
  stop : Bool → Event

-- `run` up to its loop.
pub new_analyzer : ℕ → Analyzer
new_analyzer interval = record {
  interval = interval;
  mysql_configured = false;
  worker_running = false;
  current_interval = none;
  last_ts = 0;
  iter_running = false;
  configuring = 1;
  configured_chan = false;
  worker = none;
  worker_done = none;
  started = [];
  cleaned = [];
  skipped = [];
  early_ticks = [];
}

pub start_worker : Analyzer → Interval → Analyzer
start_worker a i = record a {
  current_interval = some i;
  worker = some i;
  worker_running = true;
  started = a.started ++ i ∷ [];
}

pub on_interval : Analyzer → Interval → Analyzer
on_interval a i =
    if not a.mysql_configured
    then record a { skipped = a.skipped ++ i ∷ [] }
    else if a.worker_running
    then record a { skipped = a.skipped ++ i ∷ [] }
    else start_worker a i

-- The end of runWorker: the interval goes to a channel with one place.
pub on_worker_end : Analyzer → Option Interval → Option Interval → Analyzer
on_worker_end a none d = a
on_worker_end a (some i) (some d) = a
on_worker_end a (some i) none = record a { worker = none; worker_done = some i }

pub on_worker_seen : Analyzer → Option Interval → Analyzer
on_worker_seen a none = a
on_worker_seen a (some i) = record a {
  worker_done = none;
  worker_running = false;
  cleaned = a.cleaned ++ i ∷ [];
  last_ts = if ltb a.last_ts i.start_time then i.start_time else a.last_ts;
}

-- configureMySQL succeeds: it puts a value in its channel and ends.
pub on_configures : Analyzer → ℕ → Bool → Analyzer
on_configures a zero b = a
on_configures a (suc n) true = a
on_configures a (suc n) false = record a { configuring = n; configured_chan = true }

pub on_configured : Analyzer → Bool → ℕ → ℕ → Analyzer
on_configured a false eta now = a
on_configured a true eta now = record a {
  configured_chan = false;
  mysql_configured = true;
  iter_running = true;
  early_ticks = if ltb 600 eta then a.early_ticks ++ began a.interval now ∷ [] else a.early_ticks;
}

-- `iter.Stop()` returns only if the iterator's goroutine runs.
pub stop_iter : Analyzer → Bool → Next
stop_iter a true = goes_on (record a { iter_running = false })
stop_iter a false = hangs a

pub configure_again : Next → Next
configure_again (goes_on a) = goes_on (record a { configuring = suc a.configuring })
configure_again (returns a) = returns a
configure_again (hangs a) = hangs a

pub on_restart : Analyzer → Bool → Next
on_restart a false = goes_on a
on_restart a true =
    let a' = record a { mysql_configured = false } in configure_again (stop_iter a' a'.iter_running)

-- The last configureMySQL also puts a value in the channel if it succeeds.
pub reset_mysql : Analyzer → Bool → Bool → Next
reset_mysql a false b = returns a
reset_mysql a true true = hangs a
reset_mysql a true false = returns (record a { configured_chan = true })

-- `configureMySQLSync.Stop()` and `Wait()`, if MySQL is not configured.
pub stop_configuring : Analyzer → Bool → ℕ → Bool → Next
stop_configuring a true n ok = reset_mysql a ok a.configured_chan
stop_configuring a false zero ok = hangs a
stop_configuring a false (suc n) ok =
    reset_mysql (record a { configuring = n }) ok a.configured_chan

-- The deferred function, which stops the iterator in any case.
pub stop_rest : Bool → Next → Next
stop_rest ok (goes_on a) = stop_configuring a a.mysql_configured a.configuring ok
stop_rest ok (returns a) = returns a
stop_rest ok (hangs a) = hangs a

pub on_stop : Analyzer → Bool → Next
on_stop a ok = stop_rest ok (stop_iter a a.iter_running)

pub step : Analyzer → Event → Next
step a (interval_comes i) = goes_on (on_interval a i)
step a worker_ends = goes_on (on_worker_end a a.worker a.worker_done)
step a worker_seen = goes_on (on_worker_seen a a.worker_done)
step a mysql_configures = goes_on (on_configures a a.configuring a.configured_chan)
step a (configured eta now) = goes_on (on_configured a a.configured_chan eta now)
step a mysql_restarts = on_restart a a.mysql_configured
step a (stop ok) = on_stop a ok

pub run : Next → List Event → Next
run n [] = n
run (goes_on a) (e ∷ es) = run (step a e) es
run (returns a) (e ∷ es) = returns a
run (hangs a) (e ∷ es) = hangs a

-- What MySQL answers to one try of configureMySQL: whether a stop is asked for before it, the
-- connection, max_slowlog_size, the statement that takes over the rotation, and the configuration.
pub record Try : Type 0 where
  pub stop_asked : Bool
  pub connects : Bool
  pub max_slowlog_size : ℕ
  pub takes_over : Bool
  pub sets : Bool

pub data Configured : Type 0 where
  success : Configured
  stopped : Configured
  gave_up : Configured

-- The configuration's MaxSlowLogSize, and whether there was no error.
pub take_over : ℕ → Try → ℕ × Bool
take_over size t =
    if leb min_slowlog_rotation_size t.max_slowlog_size
    then (t.max_slowlog_size, t.takes_over)
    else (size, true)

-- The tries of configureMySQL under a limit; the list has one for each.
pub configure_mysql : ℕ → List Try → ℕ × Configured
configure_mysql size [] = (size, gave_up)
configure_mysql size (t ∷ ts) =
    let (size', over) = take_over size t in
    let rest = configure_mysql size ts in
    let rest' = configure_mysql size' ts in
    if t.stop_asked
    then (size, stopped)
    else if not t.connects
    then rest
    else if over && t.sets
    then (size', success)
    else rest'

module _ {R W : Type 0} (make_report : Interval → R → W) where
  -- What runWorker does: the reports that it spools, and whether it calls Cleanup.
  pub record Worked : Type 0 where
    pub reports : List W
    pub cleanups : ℕ
    pub done : List Interval

  pub with_result : Interval → Bool → Option R → Bool → List W
  with_result i false r spools = []
  with_result i true none spools = []
  with_result i true (some r) spools = if spools then make_report i r ∷ [] else []

  -- The answers of Setup, of Run, and of the spool; the interval is given back in any case.
  pub run_worker : Interval → Bool → Bool → Option R → Bool → Worked
  run_worker i false runs r spools = record { reports = []; cleanups = 0; done = i ∷ [] }
  run_worker i true runs r spools = record {
    reports = with_result i runs r spools;
    cleanups = 1;
    done = i ∷ [];
  }
