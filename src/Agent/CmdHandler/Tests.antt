-- ===== src/Agent/CmdHandler/Tests.antt =====
-- Runs of the command handler of agent/agent.go.
use percona_agent.Prelude.{String, refl, Option, some, List, [], ◌∷◌}
use percona_agent.Agent.{Cmd, nothing, Reply}
use percona_agent.Agent.CmdHandler.{
  CmdHandler, Event, expire, take, finish, deliver, receive, new_cmd_handler, run,
}
use percona_agent.Agent.CmdHandler.Debt.{IsBalanced, debt, count, run-IsBalanced}
use percona_agent.Agent.CmdHandler.Order.{IsTimely, IsInOrder, answers, idle, run-IsInOrder}

-- The first command times out and ends later, while the second one runs.
abbrev late : List Event
late = take ∷ expire ∷ finish 0 ∷ take ∷ deliver ∷ receive ∷ take ∷ []

abbrev cmd_named : String → Cmd
cmd_named name = record { id = 1; cmd = name; service = "qan"; content = "" }

abbrev answer : Cmd → Option Reply
answer c = some (record { to = c; content = nothing; errors = [] })

abbrev start : CmdHandler
start = new_cmd_handler (cmd_named "GetConfig" ∷ cmd_named "SetConfig" ∷ [])

run-IsBalanced_example : IsBalanced (run answer start late)
unfolding IsBalanced debt count new_cmd_handler
run-IsBalanced_example = run-IsBalanced answer start late refl

start-IsInOrder : IsInOrder answer start
unfolding new_cmd_handler answers
start-IsInOrder = idle start refl refl refl refl refl

run-IsInOrder_example :
    IsInOrder answer (run answer start (take ∷ finish 0 ∷ deliver ∷ receive ∷ take ∷ []))
unfolding IsTimely
run-IsInOrder_example =
    run-IsInOrder answer start (take ∷ finish 0 ∷ deliver ∷ receive ∷ take ∷ []) tt start-IsInOrder
