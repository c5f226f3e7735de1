-- ===== src/Qan/Manager/Commands.antt =====
-- Commands to qan/manager.go in any order.
use percona_agent.Prelude.{ℕ, String, ◌⊎◌, Option, List, [], ◌∷◌, nat_key}
use percona_agent.Qan.Manager.{
  Config, Manager, Answers, start, stop, handle_start_service, handle_stop_service, other_adds,
  other_removes,
}

-- A command or a call of the agent: start and stop of the service, of the analyzer by a command, and
-- what the system answers; or another manager uses the clock.
pub data Op : Type 0 where
  start_op : Answers → Op
  stop_op : Op
  start_service : Answers → Option String → String ⊎ Config → Op
  stop_service : Option String → Op
  other_add : ℕ → Op
  other_remove : ℕ → Op

pub step : Manager → Op → Manager
step m (start_op a) = (start a m).0
step m stop_op = stop m
step m (start_service a w r) = (handle_start_service a m w r).0
step m (stop_service w) = (handle_stop_service m w).0
step m (other_add interval) = other_adds m interval
step m (other_remove c) = other_removes m c

pub run : Manager → List Op → Manager
run m [] = m
run m (op ∷ ops) = run (step m op) ops
