-- ===== src/Log/Manager.antt =====
-- log/manager.go: the configuration of the log, and the relay to which it goes.
-- A manager that was started is its configuration, the relay and the configuration as it was last
-- read or written without an error. The
-- relay takes a value from one of its channels and obeys it in one step, or the manager stops
-- waiting. The numbers of the levels are those of the package proto. The files and the channels
-- answer by arguments; the texts of statuses and the log are left out.
pub mod InStep
mod Tests
use percona_agent.Prelude.{
  ℕ, suc, String, Bool, true, false, Option, none, some, ◌⊎◌, inl, inr, List, [], ◌∷◌, ◌++◌,
  if◌then◌else◌, string_key,
}
use percona_agent.Log.Relay.{
  Levels, Entry, Relay, new_relay, connect, set_log_level, set_log_file, handle_entry,
  handle_connect,
}

pub record Config : Type 0 where
  pub level : String
  pub file : String
  pub offline : Bool

pub record Manager : Type 0 where
  pub config : Config
  pub relay : Relay
  pub written : Option Config

pub data Failure : Type 0 where
  is_running : Failure
  no_file : Failure
  no_json : Failure
  invalid_log_level : String → Failure
  file_timeout : Failure
  level_timeout : Failure
  write_error : Failure

-- What the relay finds when it opens the log file: the text of the error, or the file's name.
pub record Opening : Type 0 where
  pub error : String
  pub opened : Option String

abbrev pub default_log_level : String
default_log_level = "info"

-- The relay takes the file and the level in time; the configuration can be written.
pub record Answers : Type 0 where
  pub takes_file : Bool
  pub takes_level : Bool
  pub opening : Opening
  pub writes : Bool

-- `ReadConfig`: the file is not there, another error, or the configuration.
pub data Reading : Type 0 where
  missing : Reading
  unreadable : Reading
  found : Config → Reading

module _ (levels : Levels) (log_level_number : String → Option ℕ) where
  pub or_zero : Option ℕ → ℕ
  or_zero none = 0
  or_zero (some n) = n

  -- `proto.LogLevelNumber[level]`, zero for a key that is not there.
  abbrev pub number_of : String → ℕ
  number_of s = or_zero (log_level_number s)

  pub known_level : Config → Option ℕ → Failure ⊎ Config
  known_level c none = inl (invalid_log_level c.level)
  known_level c (some n) = inr c

  pub validate_config : Config → Failure ⊎ Config
  validate_config c =
      if string_key.beq c.level ""
      then inr (record c { level = default_log_level })
      else known_level c (log_level_number c.level)

  -- `relay.Run` up to its loop.
  pub begin : Relay → Opening → Relay
  begin r o =
      let r' = set_log_level levels r r.log_level in
      connect (set_log_file levels r' r'.log_file o.error o.opened)

  pub on_valid : Bool → Opening → Option Config → Failure ⊎ Config → Failure ⊎ Manager
  on_valid client o disk (inl x) = inl x
  on_valid client o disk (inr c) = inr (record {
    config = c;
    relay = begin (new_relay client c.file (number_of c.level) c.offline) o;
    written = disk;
  })

  pub on_reading : Bool → Opening → Reading → Failure ⊎ Manager
  on_reading client o missing =
      on_valid client o none (validate_config (record { level = ""; file = ""; offline = false }))
  on_reading client o unreadable = inl no_file
  on_reading client o (found c) = on_valid client o (some c) (validate_config c)

  -- `none` is a manager that was not started; `client` is false for a nil client.
  pub start : Bool → Opening → Reading → Option Manager → Failure ⊎ Manager
  start client o r (some m) = inl is_running
  start client o r none = on_reading client o r

  pub set_file : Answers → Config → Manager → Manager × List Failure
  set_file a new m =
      if string_key.beq m.config.file new.file
      then (m, [])
      else if a.takes_file
      then (
        record m {
          relay = set_log_file levels m.relay new.file a.opening.error a.opening.opened;
          config = record m.config { file = new.file };
        },
        [],
      )
      else (m, file_timeout ∷ [])

  pub set_level : Answers → Config → Manager → Manager × List Failure
  set_level a new m =
      if string_key.beq m.config.level new.level
      then (m, [])
      else if a.takes_level
      then (
        record m {
          relay = set_log_level levels m.relay (number_of new.level);
          config = record m.config { level = new.level };
        },
        [],
      )
      else (m, level_timeout ∷ [])

  pub write : Answers → Manager → Manager × List Failure
  write a m = if a.writes then (record m { written = some m.config }, []) else (m, write_error ∷ [])

  pub set_config : Answers → Config → Manager → Manager × List Failure
  set_config a new m =
      let (m1, e1) = set_file a new m in
      let (m2, e2) = set_level a new m1 in let (m3, e3) = write a m2 in (m3, e1 ++ e2 ++ e3)

  pub on_validated : Answers → Manager → Failure ⊎ Config → Manager × List Failure
  on_validated a m (inl x) = (m, x ∷ [])
  on_validated a m (inr c) = set_config a c m

  -- The command SetConfig; `none` is data that is not JSON.
  pub handle_set_config : Answers → Manager → Option Config → Manager × List Failure
  handle_set_config a m none = (m, no_json ∷ [])
  handle_set_config a m (some c) = on_validated a m (validate_config c)

  -- The command Reconnect; the client then says when the connection is lost.
  pub handle_reconnect : Manager → Manager
  handle_reconnect m = record m { relay = record m.relay { disconnects = suc m.relay.disconnects } }

  -- A command, or an entry or a connection that arrives at the relay.
  pub data Op : Type 0 where
    set_config_op : Answers → Option Config → Op
    reconnect_op : Op
    entry_op : Entry → Op
    connection_op : Bool → Op

  pub step : Manager → Op → Manager
  step m (set_config_op a r) = (handle_set_config a m r).0
  step m reconnect_op = handle_reconnect m
  step m (entry_op e) = record m { relay = handle_entry m.relay e }
  step m (connection_op b) = record m { relay = handle_connect levels m.relay b }

  pub run : Manager → List Op → Manager
  run m [] = m
  run m (op ∷ ops) = run (step m op) ops
