-- ===== src/Qan/Manager/Tests.antt =====
-- A command to qan/manager.go.
use percona_agent.Prelude.{false, true, inr, none, [], ◌∷◌, nat_key}
use percona_agent.Prelude.Int.{pos}
use percona_agent.Ticker.{new_clock}
use percona_agent.Qan.Manager.{Config, Manager, Answers, other_adds}

abbrev config : Config
config = record {
  service = "mysql";
  instance_id = 1;
  collect_from = "";
  start = "SET GLOBAL slow_query_log=ON" ∷ [];
  stop = "SET GLOBAL slow_query_log=OFF" ∷ [];
  max_workers = pos 1;
  interval = 60;
  max_slow_log_size = pos 0;
  remove_old_slow_logs = false;
  example_queries = true;
  worker_run_time = 55;
  report_limit = 200;
}

abbrev answers : Answers
answers = record { get_instance = inr "user@tcp/"; add_restart = inr 3 }

abbrev manager : Manager
manager = record {
  running = true;
  analyzers = [];
  clock = new_clock;
  others = [];
  subscriptions = [];
  next_chan = 0;
  file = none;
}

-- Another manager has a monitor.
abbrev shared : Manager
shared = other_adds manager 1
