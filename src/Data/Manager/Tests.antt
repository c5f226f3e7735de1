-- ===== src/Data/Manager/Tests.antt =====
-- Commands to data/manager.go.
use percona_agent.Prelude.{refl, false, inr, none, some}
use percona_agent.Prelude.Int.{pos}
use percona_agent.Data.Spooler.{DataSpoolLimits}
use percona_agent.Data.Spooler.Memory.{Directory, in_memory, empty}
use percona_agent.Data.Manager.{Config, Manager, Answers, handle_set_config}
use percona_agent.Data.Manager.InStep.{EndsInStep, handle_set_config-EndsInStep}

abbrev limits : DataSpoolLimits
limits = record { max_age = 3600; max_size = 1000; max_files = 100 }

abbrev old : Config
old = record { encoding = "gzip"; send_interval = 63; blackhole = false; limits = limits }

abbrev new : Config
new = record { encoding = ""; send_interval = 10; blackhole = false; limits = limits }

abbrev manager : Manager Directory
manager = record {
  config = some old;
  running = false;
  serializer = some "gzip";
  limits = limits;
  spooler = empty;
  sender = some (record { timeout = 63; blackhole = false });
  written = none;
}

abbrev answers : Answers
answers = record {
  read_config = inr old;
  data_dir = none;
  trash_dir = none;
  start_spooler = none;
  write_config = none;
  now = pos 9;
}

handle_set_config-EndsInStep_example :
    EndsInStep in_memory answers manager (handle_set_config in_memory answers (inr new) manager)
handle_set_config-EndsInStep_example =
    handle_set_config-EndsInStep in_memory answers (inr new) manager (old, refl, (refl, refl))
