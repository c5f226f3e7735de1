-- ===== src/Agent/Loop/Counting.antt =====
-- How `Run` of agent/agent.go counts the crashes of the command handler.
use percona_agent.Prelude.{
  ℕ, ◌+◌, ◌<◌, ◌⊎◌, inl, inr, Bool, Bool-cases, ltb→lt, All, suc, ◌≡◌, refl, ap, subst, ◌∙◌, true,
  false, Option, none, some, List, [], ◌∷◌, ◌++◌, arith, ltb, if◌then◌else◌, string_key,
}
use percona_agent.Agent.{Cmd, Failure}
use percona_agent.Agent.Loop.{
  Handler, alive, crashed, gone, crash, Loop, Next, goes_on, returns, panics, hangs, RestartAnswers,
  Event, received, cmd_taken, status_taken, cmd_crashes, status_crashes, cmd_crash_seen,
  status_crash_seen, ws_error, connection, keepalive, reply, restart, on_lock, stop_from,
  stop_replied, stop_status_handler, stop_services, queue_status, queue_cmd, Kind, abort_cmd,
  restart_cmd, stop_cmd, status_cmd, other_cmd, kind_of, on_cmd, take_cmd, take_status,
  see_cmd_crash, see_status_crash, on_connection, step, run,
}

-- No connection is made.
abbrev pub IsOffline : Event → Type 0
IsOffline (connection true) = ⊥
IsOffline e = Unit

-- The crashes of the command handler that `Run` sees.
abbrev pub is_crash : Handler → ℕ
is_crash alive = 0
is_crash crashed = 1
is_crash gone = 0

abbrev pub seen_at : Event → Handler → ℕ
seen_at cmd_crash_seen h = is_crash h
seen_at e h = 0

unfoldable pub crashes_seen : Next → List Event → ℕ
crashes_seen n [] = 0
crashes_seen (goes_on l) (e ∷ es) =
    let rest = crashes_seen (step l e) es in seen_at e l.cmd_handler + rest
crashes_seen (returns l) (e ∷ es) = 0
crashes_seen (panics l) (e ∷ es) = 0
crashes_seen (hangs l) (e ∷ es) = 0

-- The handler is started again until it has crashed three times.
abbrev pub IsFine : Loop → Type 0
IsFine l = (l.cmd_handler ≡ gone) ⊎ (l.cmd_handler_errors < 3)

-- `Run` has counted `n` crashes more.
abbrev pub IsCounted : Loop → ℕ → Next → Type 0
IsCounted l n (goes_on m) = (m.cmd_handler_errors ≡ l.cmd_handler_errors + n) × IsFine m
IsCounted l n (returns m) = Unit
IsCounted l n (panics m) = Unit
IsCounted l n (hangs m) = Unit

same_count :
    (l m : Loop)
    → IsFine l
    → m.cmd_handler ≡ l.cmd_handler
    → m.cmd_handler_errors ≡ l.cmd_handler_errors
    → IsCounted l 0 (goes_on m)
same_count l m (inl g) e f = (omega (arith, f), inl (e ∙ g))
same_count l m (inr small) e f = (omega (arith, f), inr (omega (arith, f, small)))

on_lock-IsCounted :
    (l : Loop) (cmd : Cmd) (a : RestartAnswers) (o : Option Failure)
    → IsFine l
    → IsCounted l 0 (on_lock l cmd a o)
unfolding on_lock restart reply
on_lock-IsCounted l cmd a none h = tt
on_lock-IsCounted l cmd a (some e) h = (omega arith, h)

stop-IsCounted :
    (l : Loop) (cmd : Cmd) (h : Handler) → IsCounted l 0 (stop_replied cmd (stop_from l h))
unfolding stop_replied stop_from stop_status_handler
stop-IsCounted l cmd alive = by_status l.status_handler
  where
    stopping : Loop
    stopping = record l { stopped = l.stopped ++ "cmdHandler" ∷ stop_services l.services }

    by_status : (s : Handler) → IsCounted l 0 (stop_replied cmd (stop_status_handler stopping s))
    by_status alive = tt
    by_status crashed = tt
    by_status gone = tt
stop-IsCounted l cmd crashed = tt
stop-IsCounted l cmd gone = tt

on_cmd-IsCounted :
    (l : Loop) (k : Kind) (cmd : Cmd) (a : RestartAnswers)
    → IsFine l
    → IsCounted l 0 (on_cmd k l cmd a)
unfolding on_cmd queue_status queue_cmd reply
on_cmd-IsCounted l abort_cmd cmd a h = tt
on_cmd-IsCounted l restart_cmd cmd a h = on_lock-IsCounted l cmd a a.make_start_lock h
on_cmd-IsCounted l stop_cmd cmd a h = stop-IsCounted l cmd l.cmd_handler
on_cmd-IsCounted l status_cmd cmd a h =
    same_count l (queue_status l cmd) h (ground arith) (ground arith)
on_cmd-IsCounted l other_cmd cmd a h =
    same_count l (queue_cmd l cmd) h (ground arith) (ground arith)

take_cmd-IsCounted :
    (l : Loop) (h : Handler) (cmds : List Cmd)
    → IsFine l
    → IsCounted l 0 (goes_on (take_cmd l h cmds))
unfolding take_cmd
take_cmd-IsCounted l alive (cmd ∷ cmds) k = (omega arith, k)
take_cmd-IsCounted l alive [] k = (omega arith, k)
take_cmd-IsCounted l crashed cmds k = (omega arith, k)
take_cmd-IsCounted l gone cmds k = (omega arith, k)

take_status-IsCounted :
    (l : Loop) (h : Handler) (cmds : List Cmd)
    → IsFine l
    → IsCounted l 0 (goes_on (take_status l h cmds))
unfolding take_status
take_status-IsCounted l alive (cmd ∷ cmds) k = (omega arith, k)
take_status-IsCounted l alive [] k = (omega arith, k)
take_status-IsCounted l crashed cmds k = (omega arith, k)
take_status-IsCounted l gone cmds k = (omega arith, k)

see_status_crash-IsCounted :
    (l : Loop) (h : Handler) → IsFine l → IsCounted l 0 (goes_on (see_status_crash l h))
unfolding see_status_crash
see_status_crash-IsCounted l alive k = (omega arith, k)
see_status_crash-IsCounted l crashed k = (omega arith, k)
see_status_crash-IsCounted l gone k = (omega arith, k)

see_cmd_crash-IsCounted :
    (l : Loop) (h : Handler)
    → l.cmd_handler ≡ h
    → IsFine l
    → IsCounted l (is_crash h) (goes_on (see_cmd_crash l h))
unfolding see_cmd_crash
see_cmd_crash-IsCounted l alive e k = (omega arith, k)
see_cmd_crash-IsCounted l gone e k = (omega arith, k)
see_cmd_crash-IsCounted l crashed e k =
    let n = suc l.cmd_handler_errors in
    (
      omega arith,
      elim (Bool-cases (ltb n 3)) [
        | inl t ↦ inr (ltb→lt n 3 t)
        | inr t ↦ inl (ap (λ (b : Bool). if b then alive else gone) t)
      ],
    )

cmd_crashes-IsCounted :
    (l : Loop) → IsFine l → IsCounted l 0 (goes_on (record l { cmd_handler = crash l.cmd_handler }))
cmd_crashes-IsCounted l (inl g) = (omega arith, inl (ap crash g))
cmd_crashes-IsCounted l (inr small) = (omega arith, inr small)

step-IsCounted :
    (l : Loop) (e : Event)
    → IsOffline e
    → IsFine l
    → IsCounted l (seen_at e l.cmd_handler) (step l e)
unfolding step on_connection
step-IsCounted l (received cmd a) q h = on_cmd-IsCounted l (kind_of cmd.cmd) cmd a h
step-IsCounted l cmd_taken q h = take_cmd-IsCounted l l.cmd_handler l.cmd_chan h
step-IsCounted l status_taken q h = take_status-IsCounted l l.status_handler l.status_chan h
step-IsCounted l cmd_crashes q h = cmd_crashes-IsCounted l h
step-IsCounted l status_crashes q h = (omega arith, h)
step-IsCounted l cmd_crash_seen q h = see_cmd_crash-IsCounted l l.cmd_handler refl h
step-IsCounted l status_crash_seen q h = see_status_crash-IsCounted l l.status_handler h
step-IsCounted l ws_error q h = (omega arith, h)
step-IsCounted l (connection true) q h = elim q [ ]
step-IsCounted l (connection false) q h = (omega arith, h)
step-IsCounted l keepalive q h =
    same_count l (if l.connected then record l { pongs = suc l.pongs } else l) h (ground arith)
      (ground arith)

shift :
    (l k : Loop) (n s : ℕ) (x : Next)
    → k.cmd_handler_errors ≡ l.cmd_handler_errors + n
    → IsCounted k s x
    → IsCounted l (n + s) x
shift l k n s (goes_on m) e (count, fine) = (omega (arith, e, count), fine)
shift l k n s (returns m) e h = tt
shift l k n s (panics m) e h = tt
shift l k n s (hangs m) e h = tt

-- The state at the end of a run that goes on.
pub run-IsCounted :
    (l m : Loop) (n : ℕ) (x : Next) (es : List Event)
    → All IsOffline es
    → IsCounted l n x
    → run x es ≡ goes_on m
    → IsCounted l (n + crashes_seen x es) (goes_on m)
unfolding run crashes_seen
run-IsCounted l m n x [] q h e =
    let (count, fine) = subst (IsCounted l n) e h in (omega (arith, count), fine)
run-IsCounted l m n (goes_on k) (ev ∷ es) q (count, fine) e =
    let n' = n + seen_at ev k.cmd_handler in
    let next =
      shift l k n (seen_at ev k.cmd_handler) (step k ev) count (step-IsCounted k ev q.0 fine) in
    let (all, end) = run-IsCounted l m n' (step k ev) es q.1 next e in (omega (arith, all), end)
run-IsCounted l m n (returns k) (ev ∷ es) q h e = absurd (ground arith)
run-IsCounted l m n (panics k) (ev ∷ es) q h e = absurd (ground arith)
run-IsCounted l m n (hangs k) (ev ∷ es) q h e = absurd (ground arith)
