-- ===== src/Agent/CmdHandler.antt =====
-- `cmdHandler` of agent/agent.go: the goroutine that takes commands from the queue, runs each in a
-- goroutine of its own, and waits for the reply on a channel with one place, or for a timeout.
-- `answer` is the reply that the goroutine of a command makes, a nil reply being none.
pub mod Debt
pub mod Order
mod Tests
use percona_agent.Prelude.{
  ℕ, zero, suc, Bool, true, false, Option, none, some, List, [], ◌∷◌, ◌++◌, get_elem?,
}
use percona_agent.Agent.{Cmd, Failure, cmd_timeout, Reply, reply_error}

-- `running` and `sending` are the commands whose goroutine works, and the replies of those that wait
-- for a place in the channel `cmd_reply`; `waiting` is the command whose reply is awaited.
pub record CmdHandler : Type 0 where
  pub cmd_chan : List Cmd
  pub waiting : Option Cmd
  pub running : List Cmd
  pub sending : List (Option Reply)
  pub cmd_reply : Option (Option Reply)
  pub taken : List Cmd
  pub replies : List Reply
  pub timeouts : ℕ
  pub stopped : Bool

-- `finish i`: the goroutine of the command at place `i` has its reply.
pub data Event : Type 0 where
  take : Event
  finish : ℕ → Event
  deliver : Event
  receive : Event
  expire : Event
  stop : Event

pub new_cmd_handler : List Cmd → CmdHandler
new_cmd_handler cmds = record {
  cmd_chan = cmds;
  waiting = none;
  running = [];
  sending = [];
  cmd_reply = none;
  taken = [];
  replies = [];
  timeouts = 0;
  stopped = false;
}

pub remove_at {ℓ} : {A : Type ℓ} → ℕ → List A → List A
remove_at n [] = []
remove_at zero (x ∷ xs) = xs
remove_at (suc n) (x ∷ xs) = x ∷ remove_at n xs

abbrev pub reply_of : Option Reply → List Reply
reply_of none = []
reply_of (some r) = r ∷ []

pub on_take : CmdHandler → Bool → Option Cmd → List Cmd → CmdHandler
on_take h true w cs = h
on_take h false (some c) cs = h
on_take h false none [] = h
on_take h false none (c ∷ cs) = record h {
  cmd_chan = cs;
  waiting = some c;
  running = h.running ++ c ∷ [];
  taken = h.taken ++ c ∷ [];
}

pub on_deliver : CmdHandler → Option (Option Reply) → List (Option Reply) → CmdHandler
on_deliver h (some r) rs = h
on_deliver h none [] = h
on_deliver h none (r ∷ rs) = record h { cmd_reply = some r; sending = rs }

pub on_receive : CmdHandler → Option Cmd → Option (Option Reply) → CmdHandler
on_receive h none r = h
on_receive h (some c) none = h
on_receive h (some c) (some r) = record h {
  waiting = none;
  cmd_reply = none;
  replies = h.replies ++ reply_of r;
}

pub on_expire : CmdHandler → Option Cmd → CmdHandler
on_expire h none = h
on_expire h (some c) = record h {
  waiting = none;
  replies = h.replies ++ reply_error c (cmd_timeout c.cmd) ∷ [];
  timeouts = suc h.timeouts;
}

pub on_stop : CmdHandler → Option Cmd → CmdHandler
on_stop h none = record h { stopped = true }
on_stop h (some c) = h

module _ (answer : Cmd → Option Reply) where
  pub on_finish : CmdHandler → ℕ → Option Cmd → CmdHandler
  on_finish h i none = h
  on_finish h i (some c) = record h {
    running = remove_at i h.running;
    sending = h.sending ++ answer c ∷ [];
  }

  pub step : CmdHandler → Event → CmdHandler
  step h take = on_take h h.stopped h.waiting h.cmd_chan
  step h (finish i) = on_finish h i (get_elem? h.running i)
  step h deliver = on_deliver h h.cmd_reply h.sending
  step h receive = on_receive h h.waiting h.cmd_reply
  step h expire = on_expire h h.waiting
  step h stop = on_stop h h.waiting

  pub run : CmdHandler → List Event → CmdHandler
  run h [] = h
  run h (e ∷ es) = run (step h e) es
