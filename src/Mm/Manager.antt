-- ===== src/Mm/Manager.antt =====
-- mm/manager.go: the monitors of metrics, and the aggregator of each report interval.
-- The clock is that of Ticker. What the factory, a monitor and the disk answer comes by arguments,
-- true where there is no error. A monitor is what the manager reads of it: its channels, and its
-- configuration, which that of mm/system/monitor.go loses when it stops. A report
-- interval is below 2 ^ 63. A name is "mm-" and that of Instance.Repo. The texts of statuses and the
-- log are left out.
pub mod Bindings
pub mod Commands
mod Tests
use percona_agent.Prelude.{
  ℕ, suc, String, Bool, true, false, not, Option, none, some, List, [], ◌∷◌, if◌then◌else◌, map,
  nat_key, string_key, lookup, insert, erase,
}
use percona_agent.Instance.Repo.{Name, name_key}
use percona_agent.Ticker.{Clock, add_sync, remove}

pub record Config : Type 0 where
  pub service : String
  pub instance_id : ℕ
  pub collect : ℕ
  pub report : ℕ

-- An aggregator is its interval.
pub record Binding : Type 0 where
  pub aggregator : ℕ
  pub collection_chan : ℕ

pub record Monitor : Type 0 where
  pub tick_chan : ℕ
  pub collection_chan : ℕ
  pub config : Option Config

-- `next_chan` is a channel that was not made yet; `files` are the configurations
-- mm-*.conf as they were last written without an error.
pub record Manager : Type 0 where
  pub running : Bool
  pub monitors : List (Name × Monitor)
  pub aggregators : List (ℕ × Binding)
  pub clock : Clock
  pub files : List (Name × Config)
  pub next_chan : ℕ

-- `factory.Make`, `monitor.Start` and `WriteConfig` have no error.
pub record Answers : Type 0 where
  pub makes : Bool
  pub starts : Bool
  pub writes : Bool

pub data Failure : Type 0 where
  is_running : Failure
  no_files : Failure
  no_config : Failure
  duplicate_monitor : Failure
  factory_error : Failure
  start_error : Failure
  write_error : Failure
  unknown_monitor : Failure
  stop_error : Failure
  remove_error : Failure

abbrev pub name_of : Config → Name
name_of c = (c.service, c.instance_id)

pub add_ticker : Manager → Config → Manager
add_ticker m c = record m {
  clock = add_sync m.clock m.next_chan c.collect;
  next_chan = suc m.next_chan;
}

-- The binding of the report interval, made if there is none yet.
pub bind : Manager → Config → Option Binding → Manager × Binding
bind m c (some b) = (m, b)
bind m c none =
    let b : Binding = record { aggregator = c.report; collection_chan = m.next_chan } in
    (record m { aggregators = insert c.report b m.aggregators; next_chan = suc m.next_chan }, b)

-- The second component is nil or the error.
pub write : Manager → Config → Bool → Manager × Option Failure
write m c false = (m, some write_error)
write m c true = (record m { files = insert (name_of c) c m.files }, none)

pub start_monitor : Answers → Config → ℕ → Manager × Binding → Manager × Option Failure
start_monitor a c tick (m, b) =
    let x : Monitor = record {
      tick_chan = tick;
      collection_chan = b.collection_chan;
      config = some c;
    } in
    if a.starts
    then write (record m { monitors = insert (name_of c) x m.monitors }) c a.writes
    else (m, some start_error)

pub on_unused : Answers → Manager → Config → Manager × Option Failure
on_unused a m c =
    let m' = add_ticker m c in
    if a.makes
    then start_monitor a c m.next_chan (bind m' c (lookup c.report m'.aggregators))
    else (m, some factory_error)

pub on_monitor : Answers → Manager → Config → Option Monitor → Manager × Option Failure
on_monitor a m c (some x) = (m, some duplicate_monitor)
on_monitor a m c none = on_unused a m c

-- The command StartService; `none` is data that is not JSON.
pub handle_start_service : Answers → Manager → Option Config → Manager × Option Failure
handle_start_service a m none = (m, some no_config)
handle_start_service a m (some c) = on_monitor a m c (lookup (name_of c) m.monitors)

-- The configuration of a monitor after its Stop.
pub stopped_config : Option Config → Option Config
stopped_config none = none
stopped_config (some c) = if string_key.beq c.service "server" then none else some c

-- The monitor stopped and is off the clock; `removed` says whether its file was.
pub stopped : Manager → Name → Monitor → Bool → Manager × Option Failure
stopped m n x removed =
    let m' = record m { clock = remove m.clock x.tick_chan } in
    if removed
    then (record m' { files = erase n m.files; monitors = erase n m.monitors }, none)
    else (
      record m' { monitors = insert n (record x { config = stopped_config x.config }) m.monitors },
      some remove_error,
    )

pub stop_monitor : Manager → Name → Bool → Bool → Option Monitor → Manager × Option Failure
stop_monitor m n stops removed none = (m, some unknown_monitor)
stop_monitor m n stops removed (some x) =
    if stops then stopped m n x removed else (m, some stop_error)

-- The command StopService.
pub handle_stop_service : Manager → Bool → Bool → Option Config → Manager × Option Failure
handle_stop_service m stops removed none = (m, some no_config)
handle_stop_service m stops removed (some c) =
    stop_monitor m (name_of c) stops removed (lookup (name_of c) m.monitors)

-- The command GetConfig; a monitor without configuration prints as null, which reads as zeros.
pub config_of : Option Config → Config
config_of none = record { service = ""; instance_id = 0; collect = 0; report = 0 }
config_of (some c) = c

pub get_config : Manager → List Config
get_config m = map (λ e. config_of e.1.config) m.monitors

-- `Start` of the manager; `none` is a file that cannot be read or decoded, whose error is logged.
pub on_files : Manager → List (Answers × Option Config) → Manager
on_files m [] = m
on_files m ((a, r) ∷ files) = on_files (handle_start_service a m r).0 files

pub start : Manager → Option (List (Answers × Option Config)) → Manager × Option Failure
start m none = if m.running then (m, some is_running) else (m, some no_files)
start m (some files) =
    let m' = on_files m files in
    if m.running then (m, some is_running) else (record m' { running = true }, none)

-- `Stop` of the manager: a monitor that does not stop stays.
pub stop_one : Manager → Name → Bool → Option Monitor → Manager
stop_one m n stops none = m
stop_one m n false (some x) = m
stop_one m n true (some x) = record m {
  clock = remove m.clock x.tick_chan;
  monitors = erase n m.monitors;
}

pub stop_each : Manager → (Name → Bool) → List Name → Manager
stop_each m stops [] = m
stop_each m stops (n ∷ ns) = stop_each (stop_one m n (stops n) (lookup n m.monitors)) stops ns

pub stop : Manager → (Name → Bool) → Manager
stop m stops =
    let m' = stop_each m stops (map (λ e. e.0) m.monitors) in record m' { running = false }

pub new_manager : Clock → Manager
new_manager k = record {
  running = false;
  monitors = [];
  aggregators = [];
  clock = k;
  files = [];
  next_chan = 0;
}

-- Commands to the manager, and its start and stop.
pub data Op : Type 0 where
  start_op : Option (List (Answers × Option Config)) → Op
  stop_op : (Name → Bool) → Op
  start_service : Answers → Option Config → Op
  stop_service : Bool → Bool → Option Config → Op

pub step : Manager → Op → Manager
step m (start_op files) = (start m files).0
step m (stop_op stops) = stop m stops
step m (start_service a r) = (handle_start_service a m r).0
step m (stop_service stops removed r) = (handle_stop_service m stops removed r).0

pub run : Manager → List Op → Manager
run m [] = m
run m (op ∷ ops) = run (step m op) ops
