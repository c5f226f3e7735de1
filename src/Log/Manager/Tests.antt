-- ===== src/Log/Manager/Tests.antt =====
-- A start of log/manager.go and a new level.
use percona_agent.Prelude.{
  ℕ, String, ◌≡◌, refl, true, false, some, none, Option, inr, [], ◌∷◌, List, arith, string_key,
  if◌then◌else◌,
}
use percona_agent.Log.Relay.{Levels, new_relay}
use percona_agent.Log.Relay.Filtering.{IsLevel}
use percona_agent.Log.Manager.{
  Config, Manager, Opening, Answers, missing, start, Op, set_config_op, connection_op, run, begin,
  on_reading, on_valid, validate_config, or_zero,
}
use percona_agent.Log.Manager.InStep.{IsInStep, run-IsInStep}

abbrev levels : Levels
levels = record { emergency = 0; warning = 4; info = 6; debug = 7 }

abbrev log_level_number : String → Option ℕ
log_level_number s =
    if string_key.beq s "info" then some 6 else if string_key.beq s "debug" then some 7 else none

log_level_number-IsLevel : (s : String) (n : ℕ) → log_level_number s ≡ some n → IsLevel levels n
log_level_number-IsLevel s n e = ground arith

abbrev opening : Opening
opening = record { error = ""; opened = none }

abbrev answers : Answers
answers = record { takes_file = false; takes_level = true; opening = opening; writes = true }

abbrev new_config : Config
new_config = record { level = "debug"; file = "agent.log"; offline = false }

abbrev ops : List (Op levels log_level_number)
ops = connection_op true ∷ set_config_op answers (some new_config) ∷ []

abbrev started : Manager
started = record {
  config = record { level = "info"; file = ""; offline = false };
  relay = begin levels log_level_number (new_relay true "" 6 false) opening;
  written = none;
}

starts : start levels log_level_number true opening missing none ≡ inr started
unfolding start on_reading on_valid validate_config or_zero
starts = refl

run-IsInStep_example :
    IsInStep levels log_level_number log_level_number-IsLevel
      (6, refl)
      (run levels log_level_number started ops)
run-IsInStep_example =
    run-IsInStep levels log_level_number log_level_number-IsLevel (6, refl) true opening missing
      started ops starts
