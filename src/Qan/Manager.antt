-- ===== src/Qan/Manager.antt =====
-- qan/manager.go: the analyzers, one for each MySQL instance, and what they are registered with.
-- The clock is that of Ticker, which the managers of the program share (bin/percona-agent/main.go);
-- `others` are the channels, with their intervals, on which it ticks for the other managers, and
-- channels are numbered in the order in which any manager makes them. `subscriptions` are those at the restart monitor. The configuration
-- file, JSON, the repository of instances and the restart monitor answer by arguments. The analyzer
-- is that of qan/analyzer.go, whose Start returns no error; its Stop returns none if it returns.
-- The texts of statuses and the log are left out.
pub mod Registered
pub mod Others
pub mod Commands
mod Tests
use Prim.Native.String.{◌++◌ as str_append}
use percona_agent.Prelude.{
  ℕ, zero, suc, String, Bool, true, false, not, ◌&&◌, ◌||◌, ◌⊎◌, inl, inr, Option, none, some, List,
  [], ◌∷◌, ◌++◌, ◌==◌, ltb, leb, length, if◌then◌else◌, map, nat_key, string_key, lookup, insert,
  erase,
}
use percona_agent.Prelude.Int.{ℤ, pos, ltb_ℤ}
use percona_agent.Ticker.{Clock, add_sync, remove}

pub record Config : Type 0 where
  pub service : String
  pub instance_id : ℕ
  pub collect_from : String
  pub start : List String
  pub stop : List String
  pub max_workers : ℤ
  pub interval : ℕ
  pub max_slow_log_size : ℤ
  pub remove_old_slow_logs : Bool
  pub example_queries : Bool
  pub worker_run_time : ℕ
  pub report_limit : ℕ

pub record AnalyzerInstance : Type 0 where
  pub dsn : String
  pub restart_chan : ℕ
  pub tick_chan : ℕ
  pub config : Config

-- `next_chan` is a channel that was not made yet; `file` is the configuration file.
pub record Manager : Type 0 where
  pub running : Bool
  pub analyzers : List (ℕ × AnalyzerInstance)
  pub clock : Clock
  pub others : List (ℕ × ℕ)
  pub subscriptions : List (String × ℕ)
  pub next_chan : ℕ
  pub file : Option Config

-- The DSN of the instance, and the channel of the restart monitor.
pub record Answers : Type 0 where
  pub get_instance : String ⊎ String
  pub add_restart : String ⊎ ℕ

abbrev pub is_empty {ℓ} : {A : Type ℓ} → List A → Bool
is_empty xs = length xs == 0

-- Without CollectFrom the queries come from the slow log.
pub collect_from_of : Config → Config
collect_from_of c =
    if string_key.beq c.collect_from "" then record c { collect_from = "slowlog" } else c

pub check_config : Config → String ⊎ Config
check_config c =
    if not (string_key.beq c.collect_from "slowlog")
      && not (string_key.beq c.collect_from "perfschema")
    then inl (
        str_append "Invalid CollectFrom: '"
          (str_append c.collect_from "'.  Expected 'perfschema' or 'slowlog'."))
    else if is_empty c.start
    then inl "qan.Config.Start array is empty"
    else if is_empty c.stop
    then inl "qan.Config.Stop array is empty"
    else if ltb_ℤ c.max_workers (pos 1)
    then inl "MaxWorkers must be > 0"
    else if ltb_ℤ (pos 4) c.max_workers
    then inl "MaxWorkers must be < 4"
    else if c.interval == 0
    then inl "Interval must be > 0"
    else if ltb 3600 c.interval
    then inl "Interval must be <= 3600 (1 hour)"
    else if c.worker_run_time == 0
    then inl "WorkerRuntime must be > 0"
    else if ltb 1200 c.worker_run_time
    then inl "WorkerRuntime must be <= 1200 (20 minutes)"
    else inr c

pub validate_config : Config → String ⊎ Config
validate_config c = check_config (collect_from_of c)

-- The last steps of startAnalyzer: the clock, the analyzer and the map.
pub register : Manager → Config → String → ℕ → Manager
register m c dsn chan =
    let a : AnalyzerInstance = record {
      dsn = dsn;
      restart_chan = chan;
      tick_chan = m.next_chan;
      config = c;
    } in
    record m {
      analyzers = insert c.instance_id a m.analyzers;
      clock = add_sync m.clock m.next_chan c.interval;
      subscriptions = m.subscriptions ++ (dsn, chan) ∷ [];
      next_chan = suc m.next_chan;
    }

-- The second component is nil or the error.
pub on_restart_chan : Manager → Config → String → String ⊎ ℕ → Manager × Option String
on_restart_chan m c dsn (inl x) =
    (m, some (str_append "Cannot add MySQL instance to restart monitor: " x))
on_restart_chan m c dsn (inr chan) = (register m c dsn chan, none)

pub on_instance : Answers → Manager → Config → String ⊎ String → Manager × Option String
on_instance a m c (inl x) = (m, some (str_append "Cannot get MySQL instance from repo: " x))
on_instance a m c (inr dsn) = on_restart_chan m c dsn a.add_restart

pub on_existing : Answers → Manager → Config → Option AnalyzerInstance → Manager × Option String
on_existing a m c (some x) = (m, some "qan-analyzer service is running")
on_existing a m c none = on_instance a m c a.get_instance

pub on_valid : Answers → Manager → String ⊎ Config → Manager × Option String
on_valid a m (inl x) = (m, some (str_append "Invalid qan.Config: " x))
on_valid a m (inr c) = on_existing a m c (lookup c.instance_id m.analyzers)

pub start_analyzer : Answers → Manager → Config → Manager × Option String
start_analyzer a m c = on_valid a m (validate_config c)

pub remove_subscription : String → ℕ → List (String × ℕ) → List (String × ℕ)
remove_subscription dsn chan [] = []
remove_subscription dsn chan ((e, d) ∷ subs) =
    let rest = remove_subscription dsn chan subs in
    if string_key.beq e dsn && (d == chan) then rest else (e, d) ∷ rest

pub stop_instance : Manager → ℕ → Option AnalyzerInstance → Manager
stop_instance m id none = m
stop_instance m id (some a) = record m {
  clock = remove m.clock a.tick_chan;
  subscriptions = remove_subscription a.dsn a.restart_chan m.subscriptions;
  analyzers = erase id m.analyzers;
}

pub stop_analyzer : Manager → ℕ → Manager
stop_analyzer m id = stop_instance m id (lookup id m.analyzers)

pub stop_all : Manager → List ℕ → Manager
stop_all m [] = m
stop_all m (id ∷ ids) = stop_all (stop_analyzer m id) ids

-- `Start`; the error of a configuration file that cannot be used is logged only.
pub on_file : Answers → Manager → Option Config → Manager
on_file a m none = m
on_file a m (some c) = (start_analyzer a m c).0

pub start : Answers → Manager → Manager × Option String
start a m =
    if m.running
    then (m, some "qan service is running")
    else (let m' = on_file a m m.file in record m' { running = true }, none)

pub stop : Manager → Manager
stop m =
    if not m.running
    then m
    else (let m' = stop_all m (map (λ e. e.0) m.analyzers) in record m' { running = false })

-- The command StartService: the configuration is written as it came.
pub on_started : Config → Option String → Manager × Option String → Manager × Option String
on_started c w (m, some x) = (m, some x)
on_started c (some x) (m, none) = (m, some x)
on_started c none (m, none) = (record m { file = some c }, none)

pub on_json : Answers → Manager → Option String → String ⊎ Config → Manager × Option String
on_json a m w (inl x) = (m, some x)
on_json a m w (inr c) = on_started c w (start_analyzer a m c)

pub handle_start_service :
    Answers → Manager → Option String → String ⊎ Config → Manager × Option String
handle_start_service a m w r =
    if not m.running then (m, some "qan service is not running") else on_json a m w r

-- The command StopService; the answer is that of the removal of the configuration file.
pub removed_file : Manager → Option String → Manager × Option String
removed_file m none = (record m { file = none }, none)
removed_file m (some x) = (m, some x)

pub handle_stop_service : Manager → Option String → Manager × Option String
handle_stop_service m w =
    if not m.running
    then (m, some "qan service is not running")
    else removed_file (stop_all m (map (λ e. e.0) m.analyzers)) w

-- What the other managers do with the clock: one adds a channel that it has made, or removes one.
pub other_adds : Manager → ℕ → Manager
other_adds m interval = record m {
  clock = add_sync m.clock m.next_chan interval;
  others = insert m.next_chan interval m.others;
  next_chan = suc m.next_chan;
}

pub remove_other : Manager → ℕ → Option ℕ → Manager
remove_other m c none = m
remove_other m c (some interval) = record m { clock = remove m.clock c; others = erase c m.others }

pub other_removes : Manager → ℕ → Manager
other_removes m c = remove_other m c (lookup c m.others)
