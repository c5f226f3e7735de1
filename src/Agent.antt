-- ===== src/Agent.antt =====
-- agent/agent.go: commands from the API and the replies to them, as the children share them.
-- The package proto is a library: a reply carries the command that it answers.
pub mod Loop
pub mod CmdHandler
pub mod Services
pub mod Routing
use percona_agent.Prelude.{ℕ, String, Option, none, some, Bool, List, [], ◌∷◌}

pub record Cmd : Type 0 where
  pub id : ℕ
  pub cmd : String
  pub service : String
  pub content : String

-- The errors of the agent itself keep their parts, others their text.
pub data Failure : Type 0 where
  queue_full : String → String → ℕ → Failure
  unknown_service : String → Failure
  unknown_cmd : String → Failure
  cmd_timeout : String → Failure
  failure : String → Failure
  wrapped : String → Failure → Failure

pub record AgentConfig : Type 0 where
  pub internal_service : String
  pub config : String
  pub running : Bool

pub record Config : Type 0 where
  pub agent_uuid : String
  pub api_hostname : String
  pub api_key : String
  pub keepalive : ℕ
  pub links : List (String × String)
  pub pid_file : String

pub record Version : Type 0 where
  pub running : String
  pub revision : String
  pub installed : String

pub data Data : Type 0 where
  nothing : Data
  output : String → Data
  statuses : List (String × String) → Data
  configs : List AgentConfig → Data
  config : Config → Data
  version : Version → Data

pub record Reply : Type 0 where
  pub to : Cmd
  pub content : Data
  pub errors : List Failure

-- `cmd.Reply(nil, err)`; a nil error is none.
abbrev pub reply_error : Cmd → Failure → Reply
reply_error cmd e = record { to = cmd; content = nothing; errors = e ∷ [] }

abbrev pub errors_of : Option Failure → List Failure
errors_of none = []
errors_of (some e) = e ∷ []
