-- ===== src/Agent/Loop/Crashes.antt =====
-- What `Run` of agent/agent.go makes of a command handler that crashes.
use percona_agent.Prelude.{
  ◌≤◌, inl, inr, All, ◌≡◌, refl, ap, subst, ◌∙◌, true, false, Option, none, some, List, [], ◌∷◌,
  arith, string_key,
}
use percona_agent.Agent.{Cmd, Failure}
use percona_agent.Agent.Loop.{
  Handler, alive, crashed, gone, Loop, Next, goes_on, returns, panics, hangs, RestartAnswers, Event,
  received, cmd_taken, status_taken, cmd_crashes, status_crashes, cmd_crash_seen, status_crash_seen,
  ws_error, connection, keepalive, reply, reply_failed, restart, on_lock, stop_from, stop_replied,
  queue_status, queue_cmd, Kind, abort_cmd, restart_cmd, stop_cmd, status_cmd, other_cmd, kind_of,
  on_cmd, take_cmd, take_status, see_cmd_crash, see_status_crash, on_connection, step, run,
}
use percona_agent.Agent.Loop.Counting.{IsOffline, crashes_seen, IsCounted, run-IsCounted}

unfoldable pub loop_of : Next → Loop
loop_of (goes_on l) = l
loop_of (returns l) = l
loop_of (panics l) = l
loop_of (hangs l) = l

-- No command is taken, now or later.
pub record IsStuck (before l : Loop) : Type 0 where
  pub is_gone : l.cmd_handler ≡ gone
  pub none_taken : l.taken ≡ before.taken

stays :
    (before l l' : Loop)
    → IsStuck before l
    → l'.cmd_handler ≡ l.cmd_handler
    → l'.taken ≡ l.taken
    → IsStuck before l'
stays before l l' h e t = record { is_gone = e ∙ h.is_gone; none_taken = t ∙ h.none_taken }

reply_failed-stays :
    (before l : Loop) (cmd : Cmd) (e : Option Failure)
    → IsStuck before l
    → IsStuck before (reply_failed l cmd e)
unfolding reply_failed reply
reply_failed-stays before l cmd none h = h
reply_failed-stays before l cmd (some e) h = stays before l _ h refl refl

on_lock-stays :
    (before l : Loop) (cmd : Cmd) (a : RestartAnswers) (lock : Option Failure)
    → IsStuck before l
    → IsStuck before (loop_of (on_lock l cmd a lock))
unfolding on_lock restart reply loop_of
on_lock-stays before l cmd a (some e) h = stays before l _ h refl refl
on_lock-stays before l cmd a none h =
    let h1 = reply_failed-stays before l cmd a.getwd h in
    let h2 = reply_failed-stays before _ cmd a.write_file h1 in stays before _ _ h2 refl refl

queue_status-stays :
    (before l : Loop) (cmd : Cmd) → IsStuck before l → IsStuck before (queue_status l cmd)
unfolding queue_status reply
queue_status-stays before l cmd h = stays before l _ h (ground arith) (ground arith)

queue_cmd-stays :
    (before l : Loop) (cmd : Cmd) → IsStuck before l → IsStuck before (queue_cmd l cmd)
unfolding queue_cmd reply
queue_cmd-stays before l cmd h = stays before l _ h (ground arith) (ground arith)

on_cmd-stays :
    (before l : Loop) (k : Kind) (cmd : Cmd) (a : RestartAnswers)
    → IsStuck before l
    → IsStuck before (loop_of (on_cmd k l cmd a))
unfolding on_cmd stop_from stop_replied loop_of
on_cmd-stays before l abort_cmd cmd a h = h
on_cmd-stays before l restart_cmd cmd a h = on_lock-stays before l cmd a a.make_start_lock h
on_cmd-stays before l stop_cmd cmd a h = rw (h.is_gone, stop_from) h
on_cmd-stays before l status_cmd cmd a h = queue_status-stays before l cmd h
on_cmd-stays before l other_cmd cmd a h = queue_cmd-stays before l cmd h

take_status-stays :
    (before l : Loop) (s : Handler) (cmds : List Cmd)
    → IsStuck before l
    → IsStuck before (take_status l s cmds)
unfolding take_status
take_status-stays before l alive (cmd ∷ cmds) h = stays before l _ h refl refl
take_status-stays before l alive [] h = h
take_status-stays before l crashed cmds h = h
take_status-stays before l gone cmds h = h

see_status_crash-stays :
    (before l : Loop) (s : Handler) → IsStuck before l → IsStuck before (see_status_crash l s)
unfolding see_status_crash
see_status_crash-stays before l alive h = h
see_status_crash-stays before l crashed h = stays before l _ h refl refl
see_status_crash-stays before l gone h = h

step-stays : (before l : Loop) (e : Event) → IsStuck before l → IsStuck before (loop_of (step l e))
unfolding step take_cmd see_cmd_crash on_connection loop_of
step-stays before l (received cmd a) h = on_cmd-stays before l (kind_of cmd.cmd) cmd a h
step-stays before l cmd_taken h = rw (h.is_gone, take_cmd) h
step-stays before l status_taken h = take_status-stays before l l.status_handler l.status_chan h
step-stays before l cmd_crashes h = stays before l _ h (ground arith) refl
step-stays before l status_crashes h = stays before l _ h refl refl
step-stays before l cmd_crash_seen h = rw (h.is_gone, see_cmd_crash) h
step-stays before l status_crash_seen h = see_status_crash-stays before l l.status_handler h
step-stays before l ws_error h = h
step-stays before l (connection true) h = stays before l _ h refl refl
step-stays before l (connection false) h = stays before l _ h refl refl
step-stays before l keepalive h = stays before l _ h (ground arith) (ground arith)

pub run-IsStuck :
    (before : Loop) (n : Next) (es : List Event)
    → IsStuck before (loop_of n)
    → IsStuck before (loop_of (run n es))
unfolding run loop_of
run-IsStuck before n [] h = h
run-IsStuck before (goes_on l) (e ∷ es) h =
    run-IsStuck before (step l e) es (step-stays before l e h)
run-IsStuck before (returns l) (e ∷ es) h = h
run-IsStuck before (panics l) (e ∷ es) h = h
run-IsStuck before (hangs l) (e ∷ es) h = h

-- When `Run`, with no crash counted at first, has seen three crashes of the command handler with no
-- connection in between, whatever else happens between them, and still goes on, then the handler takes no command any more, whatever happens later, new
-- connections and further commands included, and a command Stop, at any time later, makes `Run` wait
-- for ever.
pub three_crashes :
    (l m m' : Loop) (es later : List Event) (cmd : Cmd) (a : RestartAnswers)
    → l.cmd_handler_errors ≡ 0
    → All IsOffline es
    → 3 ≤ crashes_seen (goes_on l) es
    → run (goes_on l) es ≡ goes_on m
    → run (goes_on m) later ≡ goes_on m'
    → cmd.cmd ≡ "Stop"
    → (m'.taken ≡ m.taken) × (step m' (received cmd a) ≡ hangs m')
unfolding step on_cmd kind_of stop_from stop_replied loop_of
three_crashes l m m' es later cmd a none_yet offline three e e' stop =
    let start : IsCounted l 0 (goes_on l) = (omega arith, inr (omega (arith, none_yet))) in
    let (count, fine) = run-IsCounted l m 0 (goes_on l) es offline start e in
    let down : m.cmd_handler ≡ gone = elim fine [
      | inl g ↦ g
      | inr few ↦ absurd (omega (arith, none_yet, three, count, few))
    ] in
    let stuck : IsStuck m m' =
      subst (λ n. IsStuck m (loop_of n)) e'
        (run-IsStuck m (goes_on m) later (record { is_gone = down; none_taken = refl })) in
    (
      stuck.none_taken,
      ap (λ c. on_cmd (kind_of c) m' cmd a) stop
          ∙ ap (λ h. stop_replied cmd (stop_from m' h)) stuck.is_gone,
    )
