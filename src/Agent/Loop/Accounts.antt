-- ===== src/Agent/Loop/Accounts.antt =====
-- Every command that reaches `Run` of agent/agent.go is queued in order or refused.
use mathlib.Core.List.{append_assoc, append-nil}
use percona_agent.Prelude.{
  suc, ◌≤◌, ◌≡◌, refl, sym, ap, ◌∙◌, subst, inl, inr, Bool, true, false, Option, none, some, List,
  [], ◌∷◌, ◌++◌, arith, ltb, ltb→lt, if◌then◌else◌, Bool-cases, length, length-append, string_key,
}
use percona_agent.Agent.{Cmd, Failure, queue_full, reply_error}
use percona_agent.Agent.Loop.{
  Handler, alive, crashed, gone, Loop, Next, goes_on, returns, panics, hangs, RestartAnswers, Event,
  received, cmd_taken, status_taken, cmd_crashes, status_crashes, cmd_crash_seen, status_crash_seen,
  ws_error, connection, keepalive, reply, restart, on_lock, stop_status_handler, stop_from,
  stop_replied, queue_status, queue_cmd, Kind, abort_cmd, restart_cmd, stop_cmd, status_cmd,
  other_cmd, kind_of, on_cmd, take_cmd, take_status, see_cmd_crash, see_status_crash, on_connection,
  step, run,
}
use percona_agent.Agent.Loop.Queues.{
  arrives, arrival, arrivals, nothing_left, to_first, to_second, IsAccounted, IsAccounted-both,
  untouched, Continues,
}

queue_cmd-IsAccounted :
    (l : Loop) (cmd : Cmd) → length l.cmd_chan ≤ 10 → IsAccounted l (queue_cmd l cmd) (cmd ∷ [])
unfolding queue_cmd reply
queue_cmd-IsAccounted l cmd h = elim (Bool-cases (ltb (length l.cmd_chan) 10)) [
  | inl t ↦
      rw (t, queue_cmd)
        (record {
          accepted = cmd ∷ [];
          rejected = [];
          extra = [];
          merge = to_first cmd [] [] [] nothing_left;
          in_order = sym (append_assoc l.taken l.cmd_chan (cmd ∷ []));
          replies_eq = sym (append-nil l.replies);
          told = tt;
          fits = omega (arith, ltb→lt _ _ t, length-append l.cmd_chan (cmd ∷ []));
        })
  | inr t ↦
      rw (t, queue_cmd)
        (record {
          accepted = [];
          rejected = cmd ∷ [];
          extra = reply_error cmd (queue_full cmd.cmd "cmdQueue" 10) ∷ [];
          merge = to_second cmd [] [] [] nothing_left;
          in_order = sym (append-nil (l.taken ++ l.cmd_chan));
          replies_eq = refl;
          told = (([], [], refl), tt);
          fits = h;
        })
]

queue_status-IsAccounted :
    (l : Loop) (cmd : Cmd) → length l.cmd_chan ≤ 10 → IsAccounted l (queue_status l cmd) []
unfolding queue_status reply
queue_status-IsAccounted l cmd h = elim (Bool-cases (ltb (length l.status_chan) 10)) [
  | inl t ↦ rw (t, queue_status) (untouched l _ [] h refl refl (sym (append-nil l.replies)))
  | inr t ↦ rw (t, queue_status) (untouched l _ _ h refl refl refl)
]

on_lock-Continues :
    (l : Loop) (cmd : Cmd) (a : RestartAnswers) (lock : Option Failure)
    → length l.cmd_chan ≤ 10
    → Continues l [] (on_lock l cmd a lock)
unfolding on_lock restart reply
on_lock-Continues l cmd a none h = tt
on_lock-Continues l cmd a (some e) h = untouched l _ _ h refl refl refl

stop-Continues :
    (l : Loop) (cmd : Cmd) (h s : Handler)
    → l.status_handler ≡ s
    → Continues l [] (stop_replied cmd (stop_from l h))
unfolding stop_replied stop_from stop_status_handler
stop-Continues l cmd crashed s e = tt
stop-Continues l cmd gone s e = tt
stop-Continues l cmd alive s e = by_status _ l.status_handler
  where
    by_status :
        (m : Loop) (x : Handler) → Continues l [] (stop_replied cmd (stop_status_handler m x))
    by_status m alive = tt
    by_status m crashed = tt
    by_status m gone = tt

on_cmd-Continues :
    (l : Loop) (k : Kind) (cmd : Cmd) (a : RestartAnswers)
    → length l.cmd_chan ≤ 10
    → Continues l (arrives k cmd) (on_cmd k l cmd a)
unfolding on_cmd arrives
on_cmd-Continues l abort_cmd cmd a h = tt
on_cmd-Continues l restart_cmd cmd a h = on_lock-Continues l cmd a a.make_start_lock h
on_cmd-Continues l stop_cmd cmd a h = stop-Continues l cmd l.cmd_handler l.status_handler refl
on_cmd-Continues l status_cmd cmd a h = queue_status-IsAccounted l cmd h
on_cmd-Continues l other_cmd cmd a h = queue_cmd-IsAccounted l cmd h

take_cmd-IsAccounted :
    (l : Loop) (s : Handler) (cmds : List Cmd)
    → length l.cmd_chan ≤ 10
    → l.cmd_chan ≡ cmds
    → IsAccounted l (take_cmd l s cmds) []
unfolding take_cmd
take_cmd-IsAccounted l alive (cmd ∷ cmds) h e = record {
  accepted = [];
  rejected = [];
  extra = [];
  merge = nothing_left;
  in_order =
      append_assoc l.taken (cmd ∷ []) cmds
      ∙ ap (λ xs. l.taken ++ xs) (sym e)
      ∙ sym (append-nil (l.taken ++ l.cmd_chan));
  replies_eq = sym (append-nil l.replies);
  told = tt;
  fits = omega (arith, h, ap length e);
}
take_cmd-IsAccounted l alive [] h e = untouched l l [] h refl refl (sym (append-nil l.replies))
take_cmd-IsAccounted l crashed cmds h e = untouched l l [] h refl refl (sym (append-nil l.replies))
take_cmd-IsAccounted l gone cmds h e = untouched l l [] h refl refl (sym (append-nil l.replies))

take_status-IsAccounted :
    (l : Loop) (s : Handler) (cmds : List Cmd)
    → length l.cmd_chan ≤ 10
    → IsAccounted l (take_status l s cmds) []
unfolding take_status
take_status-IsAccounted l alive (cmd ∷ cmds) h =
    untouched l _ [] h refl refl (sym (append-nil l.replies))
take_status-IsAccounted l alive [] h = untouched l l [] h refl refl (sym (append-nil l.replies))
take_status-IsAccounted l crashed cmds h = untouched l l [] h refl refl (sym (append-nil l.replies))
take_status-IsAccounted l gone cmds h = untouched l l [] h refl refl (sym (append-nil l.replies))

-- The handlers' states and the counters do not matter for the queue.
unchanged :
    (l l' : Loop)
    → length l.cmd_chan ≤ 10
    → l'.taken ≡ l.taken
    → l'.cmd_chan ≡ l.cmd_chan
    → l'.replies ≡ l.replies
    → IsAccounted l l' []
unchanged l l' h t c r = untouched l l' [] h t c (r ∙ sym (append-nil l.replies))

see_cmd_crash-IsAccounted :
    (l : Loop) (s : Handler) → length l.cmd_chan ≤ 10 → IsAccounted l (see_cmd_crash l s) []
unfolding see_cmd_crash
see_cmd_crash-IsAccounted l alive h = unchanged l _ h refl refl refl
see_cmd_crash-IsAccounted l crashed h = unchanged l _ h refl refl refl
see_cmd_crash-IsAccounted l gone h = unchanged l _ h refl refl refl

see_status_crash-IsAccounted :
    (l : Loop) (s : Handler) → length l.cmd_chan ≤ 10 → IsAccounted l (see_status_crash l s) []
unfolding see_status_crash
see_status_crash-IsAccounted l alive h = unchanged l _ h refl refl refl
see_status_crash-IsAccounted l crashed h = unchanged l _ h refl refl refl
see_status_crash-IsAccounted l gone h = unchanged l _ h refl refl refl

step-Continues :
    (l : Loop) (e : Event) → length l.cmd_chan ≤ 10 → Continues l (arrival e) (step l e)
unfolding step arrival on_connection
step-Continues l (received cmd a) h = on_cmd-Continues l (kind_of cmd.cmd) cmd a h
step-Continues l cmd_taken h = take_cmd-IsAccounted l l.cmd_handler l.cmd_chan h refl
step-Continues l status_taken h = take_status-IsAccounted l l.status_handler l.status_chan h
step-Continues l cmd_crashes h = unchanged l _ h refl refl refl
step-Continues l status_crashes h = unchanged l _ h refl refl refl
step-Continues l cmd_crash_seen h = see_cmd_crash-IsAccounted l l.cmd_handler h
step-Continues l status_crash_seen h = see_status_crash-IsAccounted l l.status_handler h
step-Continues l ws_error h = unchanged l _ h refl refl refl
step-Continues l (connection true) h = unchanged l _ h refl refl refl
step-Continues l (connection false) h = unchanged l _ h refl refl refl
step-Continues l keepalive h = by_connected l.connected
  where
    by_connected :
        (b : Bool) → Continues l [] (goes_on (if b then record l { pongs = suc l.pongs } else l))
    by_connected true = unchanged l _ h refl refl refl
    by_connected false = unchanged l _ h refl refl refl

after_step :
    (l m : Loop) (cs cs' : List Cmd) (n : Next)
    → IsAccounted l m cs
    → Continues m cs' n
    → Continues l (cs ++ cs') n
after_step l m cs cs' (goes_on x) h k = IsAccounted-both l m x cs cs' h k
after_step l m cs cs' (returns x) h k = tt
after_step l m cs cs' (panics x) h k = tt
after_step l m cs cs' (hangs x) h k = tt

run-Continues :
    (l : Loop) (n : Next) (cs : List Cmd) (es : List Event)
    → Continues l cs n
    → Continues l (cs ++ arrivals es) (run n es)
unfolding run arrivals
run-Continues l n cs [] h = subst (λ xs. Continues l xs n) (sym (append-nil cs)) h
run-Continues l (goes_on m) cs (e ∷ es) h =
    subst (λ xs. Continues l xs (run (step m e) es)) (append_assoc cs (arrival e) (arrivals es))
      (run-Continues l (step m e) (cs ++ arrival e) es
        (after_step l m cs (arrival e) (step m e) h (step-Continues m e h.fits)))
run-Continues l (returns m) cs (e ∷ es) h = tt
run-Continues l (panics m) cs (e ∷ es) h = tt
run-Continues l (hangs m) cs (e ∷ es) h = tt

-- As long as `Run` goes on, whatever comes, every command for the command handler is either accepted
-- or gets the reply that the queue is full; the handler takes the accepted ones in the order in
-- which they came, none twice and none left out, and at most ten wait.
pub run-IsAccounted :
    (l l' : Loop) (es : List Event)
    → length l.cmd_chan ≤ 10
    → run (goes_on l) es ≡ goes_on l'
    → IsAccounted l l' (arrivals es)
run-IsAccounted l l' es h e =
    subst (Continues l (arrivals es)) e
      (run-Continues l (goes_on l) [] es (unchanged l l h refl refl refl))
