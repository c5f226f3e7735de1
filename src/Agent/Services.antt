-- ===== src/Agent/Services.antt =====
-- The operations of agent/agent.go on its own configuration and on the services.
-- The managers of the services and the connector of the API are records of operations; `S` is the
-- state of all services, `P` that of the API. The packages json and os and the updater answer by
-- arguments. The times and the log are left out.
pub mod Configuring
mod Tests
use percona_agent.Prelude.{
  ℕ, zero, suc, String, Bool, true, false, ◌⊎◌, inl, inr, not, ◌&&◌, Option, none, some, List, [],
  ◌∷◌, ◌++◌, ◌==◌, ltb, if◌then◌else◌, string_key, lookup, insert, insert_all,
}
use percona_agent.Agent.{
  Cmd, Failure, unknown_service, unknown_cmd, failure, wrapped, AgentConfig, Config, Version, Data,
  nothing, output, statuses, configs, config, version, Reply, reply_error, errors_of,
}

abbrev pub default_api_hostname : String
default_api_hostname = "cloud-api.percona.com"

abbrev pub default_keepalive : ℕ
default_keepalive = 76

abbrev pub default_pid_file : String
default_pid_file = "percona-agent.pid"

-- `pct.ServiceManager`.
pub record ServiceManager (S : Type 0) : Type 0 where
  pub start : S → Option Failure × S
  pub stop : S → Option Failure × S
  pub status : S → List (String × String)
  pub get_config : S → List AgentConfig × List Failure
  pub handle : Cmd → S → Option Reply × S

-- `pct.APIConnector`, as far as the agent uses it.
pub record ApiConnector (P : Type 0) : Type 0 where
  pub connect : String → String → String → P → Option Failure × P
  pub hostname : P → String
  pub api_key : P → String
  pub agent_uuid : P → String

pub record Agent (S P : Type 0) : Type 0 where
  pub services : List (String × Option (ServiceManager S))
  pub connector : ApiConnector P
  pub service_state : S
  pub api : P
  pub config : Config
  pub disconnects : ℕ
  -- The configuration file.
  pub written : Option Config

-- What the rest of the system answers: the data of a command as JSON, the JSON text of a
-- configuration, the write of the configuration file, the path of the program, its version, and the
-- update.
pub record Answers : Type 0 where
  pub service_data : String → Failure ⊎ String
  pub config_data : String → Failure ⊎ Config
  pub marshal : Config → Failure ⊎ String
  pub write_config : Option Failure
  pub program : Option Failure
  pub installed : Failure ⊎ String
  pub update : Option Failure
  pub running : String
  pub revision : String
  pub own_status : List (String × String)

-- A text that is not empty, and the default for one that is.
abbrev pub is_empty : String → Bool
is_empty s = string_key.beq s ""

abbrev pub or_default : String → String → String
or_default s d = if is_empty s then d else s

-- A value that is asked for and not yet there.
abbrev pub changes : String → String → Bool
changes new old = not (is_empty new) && not (string_key.beq new old)

pub check_config : Config → Failure ⊎ Config
check_config c =
    if is_empty c.api_key
    then inl (failure "Missing ApiKey")
    else if is_empty c.agent_uuid
    then inl (failure "Missing AgentUuid")
    else inr c

pub fill_config : Config → Config
fill_config c = record c {
  api_hostname = or_default c.api_hostname default_api_hostname;
  keepalive = if c.keepalive == 0 then default_keepalive else c.keepalive;
  pid_file = or_default c.pid_file default_pid_file;
}

-- `LoadConfig`, of the file that `ReadConfig` read, up to its JSON text.
pub load_config : Config → Failure ⊎ Config
load_config c = check_config (fill_config c)

abbrev pub running_config : String → AgentConfig
running_config text = record { internal_service = "agent"; config = text; running = true }

pub got_config : Failure ⊎ String → List AgentConfig × List Failure
got_config (inl e) = ([], e ∷ [])
got_config (inr text) = (running_config text ∷ [], [])

pub add_config :
    List AgentConfig × List Failure
    → List AgentConfig × List Failure
    → List AgentConfig × List Failure
add_config (cs, es) (cs', []) = (cs ++ cs', es)
add_config (cs, es) (cs', e ∷ es') = (cs, es ++ e ∷ es')

pub add_configs :
    {S : Type 0}
    → S
    → List (String × Option (ServiceManager S))
    → List AgentConfig × List Failure
    → List AgentConfig × List Failure
add_configs s [] acc = acc
add_configs s ((name, none) ∷ ms) acc = add_configs s ms acc
add_configs s ((name, some m) ∷ ms) acc = add_configs s ms (add_config acc (m.get_config s))

-- The configuration to come, the API and the errors so far.
abbrev pub Setting : Type 0 → Type 0
Setting P = Config × P × List Failure

module _ {P : Type 0} where
  pub key_set : String → Config → List Failure → Option Failure × P → Setting P
  key_set key c es (none, p) = (record c { api_key = key }, p, es)
  key_set key c es (some e, p) = (c, p, es ++ wrapped "agent.api.Connect:ApiKey:" e ∷ [])

  pub set_api_key : ApiConnector P → String → Setting P → Setting P
  set_api_key k key (c, p, es) =
      if changes key c.api_key
      then key_set key c es (k.connect (k.hostname p) key (k.agent_uuid p) p)
      else (c, p, es)

  pub hostname_set : String → Config → List Failure → Option Failure × P → Setting P
  hostname_set host c es (none, p) = (record c { api_hostname = host }, p, es)
  hostname_set host c es (some e, p) = (c, p, es ++ wrapped "agent.api.Connect:ApiHostname:" e ∷ [])

  pub set_api_hostname : ApiConnector P → String → Setting P → Setting P
  set_api_hostname k host (c, p, es) =
      if changes host c.api_hostname
      then hostname_set host c es (k.connect host (k.api_key p) (k.agent_uuid p) p)
      else (c, p, es)

  pub set_keepalive : ℕ → Setting P → Setting P
  set_keepalive n (c, p, es) = (if ltb 0 n then record c { keepalive = n } else c, p, es)

-- A call of a nil manager panics; the goroutine of the command recovers and replies with this text.
abbrev pub nil_manager : Failure
nil_manager = failure "runtime error: invalid memory address or nil pointer dereference"

module _ {S P : Type 0} where
  pub get_config : Answers → Agent S P → List AgentConfig × List Failure
  get_config a g = got_config (a.marshal (record g.config { links = [] }))

  pub get_all_configs : Answers → Agent S P → List AgentConfig × List Failure
  get_all_configs a g = add_configs g.service_state g.services (get_config a g)

  pub start_service :
      Agent S P → Option (Option (ServiceManager S)) → String → Option Failure × Agent S P
  start_service g (some (some m)) name =
      let (e, s) = m.start g.service_state in (e, record g { service_state = s })
  start_service g (some none) name = (some (nil_manager), g)
  start_service g none name = (some (unknown_service name), g)

  pub stop_service :
      Agent S P → Option (Option (ServiceManager S)) → String → Option Failure × Agent S P
  stop_service g (some (some m)) name =
      let (e, s) = m.stop g.service_state in (e, record g { service_state = s })
  stop_service g (some none) name = (some (nil_manager), g)
  stop_service g none name = (some (unknown_service name), g)

  pub handle_start_service : Failure ⊎ String → Agent S P → Option Failure × Agent S P
  handle_start_service (inl e) g = (some e, g)
  handle_start_service (inr name) g = start_service g (lookup name g.services) name

  pub handle_stop_service : Failure ⊎ String → Agent S P → Option Failure × Agent S P
  handle_stop_service (inl e) g = (some e, g)
  handle_stop_service (inr name) g = stop_service g (lookup name g.services) name

  pub write_set : Option Failure → Agent S P → Setting P → Data × List Failure × Agent S P
  write_set none g (c, p, es) = (config c, es, record g { config = c; api = p; written = some c })
  write_set (some e) g (c, p, es) =
      (config c, es ++ wrapped "agent.WriteConfig:" e ∷ [], record g { config = c; api = p })

  pub handle_set_config :
      Option Failure → Failure ⊎ Config → Agent S P → Data × List Failure × Agent S P
  handle_set_config w (inl e) g = (nothing, e ∷ [], g)
  handle_set_config w (inr new) g = write_set w g (
      set_keepalive new.keepalive (
        set_api_hostname g.connector new.api_hostname
          (set_api_key g.connector new.api_key (g.config, g.api, []))))
