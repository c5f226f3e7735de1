-- ===== src/Agent/Routing.antt =====
-- `Handle`, the goroutine of a command and the status handler of agent/agent.go.
use Prim.Native.String.{◌++◌ as str_append}
use percona_agent.Prelude.{
  suc, String, ◌⊎◌, inl, inr, Option, none, some, List, [], ◌∷◌, if◌then◌else◌, string_key, lookup,
  insert, insert_all,
}
use percona_agent.Agent.{
  Cmd, Failure, unknown_service, unknown_cmd, failure, AgentConfig, Data, nothing, statuses,
  configs, version, Reply, reply_error, errors_of,
}
use percona_agent.Agent.Services.{
  ServiceManager, Agent, Answers, is_empty, nil_manager, get_config, get_all_configs,
  handle_start_service, handle_stop_service, handle_set_config,
}

abbrev pub nil_text : String → String
nil_text name = str_append "ERROR: " (str_append name " service manager is nil")

pub add_statuses :
    {S : Type 0}
    → S
    → List (String × Option (ServiceManager S))
    → List (String × String)
    → List (String × String)
add_statuses s [] acc = acc
add_statuses s ((name, none) ∷ ms) acc = add_statuses s ms (insert name (nil_text name) acc)
add_statuses s ((name, some m) ∷ ms) acc = add_statuses s ms (insert_all (m.status s) acc)

pub handle_version : String → String → Option Failure → Failure ⊎ String → Data × List Failure
handle_version v rev (some e) out =
    (version (record { running = v; revision = rev; installed = "" }), e ∷ [])
handle_version v rev none (inl e) =
    (version (record { running = v; revision = rev; installed = "" }), e ∷ [])
handle_version v rev none (inr out) =
    (version (record { running = v; revision = rev; installed = out }), [])

pub handle_update : String → Option Failure → List Failure
handle_update v e = if is_empty v then failure "Invalid version: ''" ∷ [] else errors_of e

-- The cases of the switch of `Handle`.
pub data Command : Type 0 where
  start_service_cmd : Command
  stop_service_cmd : Command
  get_config_cmd : Command
  get_all_configs_cmd : Command
  set_config_cmd : Command
  update_cmd : Command
  version_cmd : Command
  reconnect_cmd : Command
  unknown : Command

pub command_of : String → Command
command_of name =
    if string_key.beq name "StartService"
    then start_service_cmd
    else if string_key.beq name "StopService"
    then stop_service_cmd
    else if string_key.beq name "GetConfig"
    then get_config_cmd
    else if string_key.beq name "GetAllConfigs"
    then get_all_configs_cmd
    else if string_key.beq name "SetConfig"
    then set_config_cmd
    else if string_key.beq name "Update"
    then update_cmd
    else if string_key.beq name "Version"
    then version_cmd
    else if string_key.beq name "Reconnect"
    then reconnect_cmd
    else unknown

-- What the goroutine of a command hands over, and the agent afterwards; no reply is `nil`.
abbrev pub Handled : Type 0 → Type 0 → Type 0
Handled S P = Option Reply × Agent S P

abbrev pub made : Cmd → Data → List Failure → Option Reply
made cmd d es = some (record { to = cmd; content = d; errors = es })

module _ {S P : Type 0} where
  pub with_error : Cmd → Option Failure × Agent S P → Handled S P
  with_error cmd (e, g) = (made cmd nothing (errors_of e), g)

  pub with_configs : Cmd → Agent S P → List AgentConfig × List Failure → Handled S P
  with_configs cmd g (cs, es) = (made cmd (configs cs) es, g)

  pub with_data : Cmd → Data × List Failure × Agent S P → Handled S P
  with_data cmd (d, es, g) = (made cmd d es, g)

  pub with_version : Cmd → Agent S P → Data × List Failure → Handled S P
  with_version cmd g (d, es) = (made cmd d es, g)

  -- `Handle`. The nil error of an update that succeeds counts as none.
  pub handle : Answers → Command → Cmd → Agent S P → Handled S P
  handle a start_service_cmd cmd g =
      with_error cmd (handle_start_service (a.service_data cmd.content) g)
  handle a stop_service_cmd cmd g =
      with_error cmd (handle_stop_service (a.service_data cmd.content) g)
  handle a get_config_cmd cmd g = with_configs cmd g (get_config a g)
  handle a get_all_configs_cmd cmd g = with_configs cmd g (get_all_configs a g)
  handle a set_config_cmd cmd g =
      with_data cmd (handle_set_config a.write_config (a.config_data cmd.content) g)
  handle a update_cmd cmd g = (made cmd nothing (handle_update cmd.content a.update), g)
  handle a version_cmd cmd g =
      with_version cmd g (handle_version a.running a.revision a.program a.installed)
  handle a reconnect_cmd cmd g = (none, record g { disconnects = suc g.disconnects })
  handle a unknown cmd g = (made cmd nothing (unknown_cmd cmd.cmd ∷ []), g)

  pub to_service : Cmd → Agent S P → Option (Option (ServiceManager S)) → Handled S P
  to_service cmd g (some (some m)) =
      let (r, s) = m.handle cmd g.service_state in (r, record g { service_state = s })
  to_service cmd g (some none) = (some (reply_error cmd nil_manager), g)
  to_service cmd g none = (some (reply_error cmd (unknown_service cmd.service)), g)

  -- The goroutine of a command.
  pub route : Answers → Cmd → Agent S P → Handled S P
  route a cmd g =
      if string_key.beq cmd.service "agent"
      then handle a (command_of cmd.cmd) cmd g
      else to_service cmd g (lookup cmd.service g.services)

  pub all_status : Answers → Agent S P → List (String × String)
  all_status a g = add_statuses g.service_state g.services a.own_status

  pub service_status : Cmd → Agent S P → Option (Option (ServiceManager S)) → Reply
  service_status cmd g (some (some m)) = record {
    to = cmd;
    content = statuses (m.status g.service_state);
    errors = [];
  }
  service_status cmd g (some none) = reply_error cmd nil_manager
  service_status cmd g none = reply_error cmd (unknown_service cmd.service)

  -- One command of the status handler; its crash on a nil manager is left out.
  pub status_reply : Answers → Cmd → Agent S P → Reply
  status_reply a cmd g =
      if is_empty cmd.service
      then record { to = cmd; content = statuses (all_status a g); errors = [] }
      else if string_key.beq cmd.service "agent"
      then record { to = cmd; content = statuses a.own_status; errors = [] }
      else service_status cmd g (lookup cmd.service g.services)
