-- ===== src/Agent/Loop/Tests.antt =====
-- Runs of the loop of agent/agent.go.
use percona_agent.Prelude.{String, ◌≡◌, ◌≤◌, refl, true, none, List, [], ◌∷◌, arith}
use percona_agent.Agent.{Cmd}
use percona_agent.Agent.Loop.{
  gone, Loop, goes_on, hangs, RestartAnswers, Event, received, cmd_taken, connection, new_loop,
  queue_cmd, kind_of, on_cmd, take_cmd, on_connection, see_cmd_crash, cmd_crashes, cmd_crash_seen,
  ws_error, step, run,
}
use percona_agent.Agent.Loop.Queues.{arrivals, IsAccounted}
use percona_agent.Agent.Loop.Accounts.{run-IsAccounted}
use percona_agent.Agent.Loop.Counting.{crashes_seen}
use percona_agent.Agent.Loop.Crashes.{three_crashes}

abbrev answers : RestartAnswers
answers = record {
  make_start_lock = none;
  getwd = none;
  write_file = none;
  run_output = "";
  run_error = none;
}

abbrev cmd_named : String → Cmd
cmd_named name = record { id = 1; cmd = name; service = "agent"; content = "" }

abbrev start : Loop
start = new_loop ("log" ∷ "qan" ∷ "mm" ∷ [])

abbrev version_taken : List Event
version_taken = connection true ∷ received (cmd_named "Version") answers ∷ cmd_taken ∷ []

abbrev after_version : Loop
after_version = record (new_loop ("log" ∷ "qan" ∷ "mm" ∷ [])) {
  connected = true;
  taken = cmd_named "Version" ∷ [];
}

runs : run (goes_on start) version_taken ≡ goes_on after_version
unfolding run step on_cmd kind_of queue_cmd take_cmd on_connection new_loop
runs = refl

run-IsAccounted_example : IsAccounted start after_version (arrivals version_taken)
unfolding new_loop
run-IsAccounted_example = run-IsAccounted start after_version version_taken (omega arith) runs

abbrev crashes : List Event
crashes =
    cmd_crashes ∷ cmd_crash_seen ∷ ws_error ∷ cmd_crashes ∷ cmd_crash_seen ∷ cmd_crashes
    ∷ cmd_crash_seen ∷ []

abbrev after_crashes : Loop
after_crashes = record (new_loop ("log" ∷ "qan" ∷ "mm" ∷ [])) {
  cmd_handler = gone;
  cmd_handler_errors = 3;
}

abbrev connected_again : Loop
connected_again = record (new_loop ("log" ∷ "qan" ∷ "mm" ∷ [])) {
  connected = true;
  cmd_handler = gone;
}

crash : run (goes_on start) crashes ≡ goes_on after_crashes
unfolding run step see_cmd_crash new_loop
crash = refl

connects : run (goes_on after_crashes) (connection true ∷ cmd_taken ∷ []) ≡ goes_on connected_again
unfolding run step on_connection take_cmd new_loop
connects = refl

three : 3 ≤ crashes_seen (goes_on start) crashes
unfolding crashes_seen step see_cmd_crash new_loop
three = omega arith

three_crashes_example :
    (connected_again.taken ≡ after_crashes.taken)
    × (step connected_again (received (cmd_named "Stop") answers) ≡ hangs connected_again)
unfolding new_loop
three_crashes_example =
    three_crashes start after_crashes connected_again crashes (connection true ∷ cmd_taken ∷ [])
      (cmd_named "Stop") answers refl (tt, (tt, (tt, (tt, (tt, (tt, (tt, tt))))))) three crash
      connects refl
