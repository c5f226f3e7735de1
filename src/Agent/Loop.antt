-- ===== src/Agent/Loop.antt =====
-- `Run` of agent/agent.go: one step for each case of its select, and steps of the two goroutines
-- that it starts, as far as `Run` sees them: each takes a command from its queue, or crashes.
-- `replies` are those handed to `reply`. Log, status texts and the script of a restart are left out.
pub mod Queues
pub mod Accounts
pub mod Counting
pub mod Crashes
mod Tests
use percona_agent.Prelude.{
  ℕ, suc, String, Bool, true, false, Option, none, some, List, [], ◌∷◌, ◌++◌, map, ltb,
  if◌then◌else◌, length, string_key,
}
use percona_agent.Agent.{
  Cmd, Failure, queue_full, Data, nothing, output, Reply, reply_error, errors_of,
}

abbrev pub cmd_queue_size : ℕ
cmd_queue_size = 10

abbrev pub status_queue_size : ℕ
status_queue_size = 10

abbrev pub max_errors : ℕ
max_errors = 3

-- A goroutine that crashed has put a value in its CrashChan; one that is gone is not started again.
pub data Handler : Type 0 where
  alive : Handler
  crashed : Handler
  gone : Handler

pub record Loop : Type 0 where
  pub services : List String
  pub connected : Bool
  pub cmd_handler : Handler
  pub status_handler : Handler
  pub cmd_handler_errors : ℕ
  pub status_handler_errors : ℕ
  pub cmd_chan : List Cmd
  pub status_chan : List Cmd
  pub taken : List Cmd
  pub taken_statuses : List Cmd
  pub replies : List Reply
  pub connects : ℕ
  pub pongs : ℕ
  pub stopped : List String

-- What `Run` does after a case: it goes on, returns, panics, or waits in `stop` for ever.
pub data Next : Type 0 where
  goes_on : Loop → Next
  returns : Loop → Next
  panics : Loop → Next
  hangs : Loop → Next

-- What the system answers to a restart.
pub record RestartAnswers : Type 0 where
  pub make_start_lock : Option Failure
  pub getwd : Option Failure
  pub write_file : Option Failure
  pub run_output : String
  pub run_error : Option Failure

pub data Event : Type 0 where
  received : Cmd → RestartAnswers → Event
  cmd_taken : Event
  status_taken : Event
  cmd_crashes : Event
  status_crashes : Event
  cmd_crash_seen : Event
  status_crash_seen : Event
  ws_error : Event
  connection : Bool → Event
  keepalive : Event

pub new_loop : List String → Loop
new_loop services = record {
  services = services;
  connected = false;
  cmd_handler = alive;
  status_handler = alive;
  cmd_handler_errors = 0;
  status_handler_errors = 0;
  cmd_chan = [];
  status_chan = [];
  taken = [];
  taken_statuses = [];
  replies = [];
  connects = 1;
  pongs = 0;
  stopped = [];
}

pub reply : Loop → Reply → Loop
reply l r = record l { replies = l.replies ++ r ∷ [] }

pub reply_failed : Loop → Cmd → Option Failure → Loop
reply_failed l cmd none = l
reply_failed l cmd (some e) = reply l (reply_error cmd e)

-- After the start lock is made.
pub restart : Loop → Cmd → RestartAnswers → Next
restart l cmd a =
    let l1 = reply_failed l cmd a.getwd in
    let l2 = reply_failed l1 cmd a.write_file in
    returns (
      reply l2 (record { to = cmd; content = output a.run_output; errors = errors_of a.run_error }))

pub on_lock : Loop → Cmd → RestartAnswers → Option Failure → Next
on_lock l cmd a none = restart l cmd a
on_lock l cmd a (some e) = goes_on (reply l (reply_error cmd e))

pub stop_services : List String → List String
stop_services [] = []
stop_services (s ∷ ss) = if string_key.beq s "log" then stop_services ss else s ∷ stop_services ss

-- `Stop` of a SyncChan waits for the goroutine to receive, so that it returns only if that lives.
pub stop_status_handler : Loop → Handler → Next
stop_status_handler l alive = returns (record l { stopped = l.stopped ++ "statusHandler" ∷ [] })
stop_status_handler l crashed = hangs l
stop_status_handler l gone = hangs l

pub stop_from : Loop → Handler → Next
stop_from l alive =
    let names = "cmdHandler" ∷ stop_services l.services in
    stop_status_handler (record l { stopped = l.stopped ++ names }) l.status_handler
stop_from l crashed = hangs l
stop_from l gone = hangs l

-- The reply to Stop follows the stop.
pub stop_replied : Cmd → Next → Next
stop_replied cmd (returns l) =
    returns (reply l (record { to = cmd; content = nothing; errors = [] }))
stop_replied cmd (goes_on l) = goes_on l
stop_replied cmd (panics l) = panics l
stop_replied cmd (hangs l) = hangs l

pub queue_status : Loop → Cmd → Loop
queue_status l cmd =
    if ltb (length l.status_chan) status_queue_size
    then record l { status_chan = l.status_chan ++ cmd ∷ [] }
    else reply l (reply_error cmd (queue_full cmd.cmd "statusQueue" status_queue_size))

pub queue_cmd : Loop → Cmd → Loop
queue_cmd l cmd =
    if ltb (length l.cmd_chan) cmd_queue_size
    then record l { cmd_chan = l.cmd_chan ++ cmd ∷ [] }
    else reply l (reply_error cmd (queue_full cmd.cmd "cmdQueue" cmd_queue_size))

-- The cases of the switch over `cmd.Cmd`.
pub data Kind : Type 0 where
  abort_cmd : Kind
  restart_cmd : Kind
  stop_cmd : Kind
  status_cmd : Kind
  other_cmd : Kind

pub kind_of : String → Kind
kind_of name =
    if string_key.beq name "Abort"
    then abort_cmd
    else if string_key.beq name "Restart"
    then restart_cmd
    else if string_key.beq name "Stop"
    then stop_cmd
    else if string_key.beq name "Status"
    then status_cmd
    else other_cmd

pub on_cmd : Kind → Loop → Cmd → RestartAnswers → Next
on_cmd abort_cmd l cmd a = panics l
on_cmd restart_cmd l cmd a = on_lock l cmd a a.make_start_lock
on_cmd stop_cmd l cmd a = stop_replied cmd (stop_from l l.cmd_handler)
on_cmd status_cmd l cmd a = goes_on (queue_status l cmd)
on_cmd other_cmd l cmd a = goes_on (queue_cmd l cmd)

-- A handler that lives takes the first command of its queue.
pub take_cmd : Loop → Handler → List Cmd → Loop
take_cmd l alive (cmd ∷ cmds) = record l { cmd_chan = cmds; taken = l.taken ++ cmd ∷ [] }
take_cmd l alive [] = l
take_cmd l crashed cmds = l
take_cmd l gone cmds = l

pub take_status : Loop → Handler → List Cmd → Loop
take_status l alive (cmd ∷ cmds) = record l {
  status_chan = cmds;
  taken_statuses = l.taken_statuses ++ cmd ∷ [];
}
take_status l alive [] = l
take_status l crashed cmds = l
take_status l gone cmds = l

abbrev pub crash : Handler → Handler
crash alive = crashed
crash crashed = crashed
crash gone = gone

pub see_cmd_crash : Loop → Handler → Loop
see_cmd_crash l crashed =
    let n = suc l.cmd_handler_errors in
    record l { cmd_handler_errors = n; cmd_handler = if ltb n max_errors then alive else gone }
see_cmd_crash l alive = l
see_cmd_crash l gone = l

pub see_status_crash : Loop → Handler → Loop
see_status_crash l crashed =
    let n = suc l.status_handler_errors in
    record l {
      status_handler_errors = n;
      status_handler = if ltb n max_errors then alive else gone;
    }
see_status_crash l alive = l
see_status_crash l gone = l

pub on_connection : Loop → Bool → Loop
on_connection l true = record l {
  connected = true;
  cmd_handler_errors = 0;
  status_handler_errors = 0;
}
on_connection l false = record l { connected = false; connects = suc l.connects }

pub step : Loop → Event → Next
step l (received cmd a) = on_cmd (kind_of cmd.cmd) l cmd a
step l cmd_taken = goes_on (take_cmd l l.cmd_handler l.cmd_chan)
step l status_taken = goes_on (take_status l l.status_handler l.status_chan)
step l cmd_crashes = goes_on (record l { cmd_handler = crash l.cmd_handler })
step l status_crashes = goes_on (record l { status_handler = crash l.status_handler })
step l cmd_crash_seen = goes_on (see_cmd_crash l l.cmd_handler)
step l status_crash_seen = goes_on (see_status_crash l l.status_handler)
step l ws_error = goes_on l
step l (connection b) = goes_on (on_connection l b)
step l keepalive = goes_on (if l.connected then record l { pongs = suc l.pongs } else l)

-- The events that come after one of the other ends are not seen.
pub run : Next → List Event → Next
run n [] = n
run (goes_on l) (e ∷ es) = run (step l e) es
run (returns l) (e ∷ es) = returns l
run (panics l) (e ∷ es) = panics l
run (hangs l) (e ∷ es) = hangs l
