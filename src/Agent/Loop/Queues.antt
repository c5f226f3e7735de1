-- ===== src/Agent/Loop/Queues.antt =====
-- The queue between `Run` of agent/agent.go and its command handler.
use mathlib.Core.List.{append_assoc, append-nil}
use percona_agent.Prelude.{
  ◌≤◌, ◌≡◌, sym, ap, ◌∙◌, List, [], ◌∷◌, ◌++◌, length, All, All-append, string_key,
}
use percona_agent.Agent.{Cmd, queue_full, Reply, reply_error}
use percona_agent.Agent.Loop.{
  Loop, Next, goes_on, returns, panics, hangs, Event, received, cmd_taken, status_taken,
  cmd_crashes, status_crashes, cmd_crash_seen, status_crash_seen, ws_error, connection, keepalive,
  Kind, abort_cmd, restart_cmd, stop_cmd, status_cmd, other_cmd, kind_of,
}

-- The command of an event that is meant for the command handler.
unfoldable pub arrives : Kind → Cmd → List Cmd
arrives abort_cmd cmd = []
arrives restart_cmd cmd = []
arrives stop_cmd cmd = []
arrives status_cmd cmd = []
arrives other_cmd cmd = cmd ∷ []

unfoldable pub arrival : Event → List Cmd
arrival (received cmd a) = arrives (kind_of cmd.cmd) cmd
arrival cmd_taken = []
arrival status_taken = []
arrival cmd_crashes = []
arrival status_crashes = []
arrival cmd_crash_seen = []
arrival status_crash_seen = []
arrival ws_error = []
arrival (connection b) = []
arrival keepalive = []

unfoldable pub arrivals : List Event → List Cmd
arrivals [] = []
arrivals (e ∷ es) = arrival e ++ arrivals es

-- The first list is made of the other two, each in its order.
pub data IsMerge : List Cmd → List Cmd → List Cmd → Type 0 where
  nothing_left : IsMerge [] [] []
  to_first : (c : Cmd) (cs ds bs : List Cmd) → IsMerge cs ds bs → IsMerge (c ∷ cs) (c ∷ ds) bs
  to_second : (c : Cmd) (cs ds bs : List Cmd) → IsMerge cs ds bs → IsMerge (c ∷ cs) ds (c ∷ bs)

-- The reply to a command for which the queue has no place stands among the replies.
abbrev pub IsRejected : List Reply → Cmd → Type 0
IsRejected rs c =
    (before : List Reply) × (after : List Reply) × (rs
      ≡ before ++ reply_error c (queue_full c.cmd "cmdQueue" 10) ∷ after)

-- What became of the commands that arrived between two states: those that were accepted went
-- through the queue in order, the others got an error.
pub record IsAccounted (l l' : Loop) (cs : List Cmd) : Type 0 where
  pub accepted : List Cmd
  pub rejected : List Cmd
  pub extra : List Reply
  pub merge : IsMerge cs accepted rejected
  pub in_order : l'.taken ++ l'.cmd_chan ≡ (l.taken ++ l.cmd_chan) ++ accepted
  pub replies_eq : l'.replies ≡ l.replies ++ extra
  pub told : All (IsRejected extra) rejected
  pub fits : length l'.cmd_chan ≤ 10

merge-append :
    (cs ds bs cs' ds' bs' : List Cmd)
    → IsMerge cs ds bs
    → IsMerge cs' ds' bs'
    → IsMerge (cs ++ cs') (ds ++ ds') (bs ++ bs')
merge-append _ _ _ cs' ds' bs' nothing_left n = n
merge-append _ _ _ cs' ds' bs' (to_first c cs ds bs m) n =
    to_first c _ _ _ (merge-append cs ds bs cs' ds' bs' m n)
merge-append _ _ _ cs' ds' bs' (to_second c cs ds bs m) n =
    to_second c _ _ _ (merge-append cs ds bs cs' ds' bs' m n)

rejected-before :
    (xs ys : List Reply) (cs : List Cmd) → All (IsRejected xs) cs → All (IsRejected (xs ++ ys)) cs
rejected-before xs ys [] h = tt
rejected-before xs ys (c ∷ cs) ((b, a, e), t) =
    ((b, a ++ ys, ap (λ zs. zs ++ ys) e ∙ append_assoc b _ ys), rejected-before xs ys cs t)

rejected-after :
    (xs ys : List Reply) (cs : List Cmd) → All (IsRejected ys) cs → All (IsRejected (xs ++ ys)) cs
rejected-after xs ys [] h = tt
rejected-after xs ys (c ∷ cs) ((b, a, e), t) =
    ((xs ++ b, a, ap (λ zs. xs ++ zs) e ∙ sym (append_assoc xs b _)), rejected-after xs ys cs t)

pub IsAccounted-both :
    (l m n : Loop) (cs cs' : List Cmd)
    → IsAccounted l m cs
    → IsAccounted m n cs'
    → IsAccounted l n (cs ++ cs')
IsAccounted-both l m n cs cs' h k = record {
  accepted = h.accepted ++ k.accepted;
  rejected = h.rejected ++ k.rejected;
  extra = h.extra ++ k.extra;
  merge = merge-append _ _ _ _ _ _ h.merge k.merge;
  in_order =
      k.in_order
      ∙ ap (λ xs. xs ++ k.accepted) h.in_order
      ∙ append_assoc (l.taken ++ l.cmd_chan) h.accepted k.accepted;
  replies_eq =
      k.replies_eq ∙ ap (λ xs. xs ++ k.extra) h.replies_eq ∙ append_assoc l.replies h.extra k.extra;
  told =
      All-append (IsRejected (h.extra ++ k.extra)) h.rejected k.rejected
        (rejected-before h.extra k.extra h.rejected h.told)
        (rejected-after h.extra k.extra k.rejected k.told);
  fits = k.fits;
}

-- Nothing arrived, and the handler's side of the queue is as it was.
pub untouched :
    (l l' : Loop) (extra : List Reply)
    → length l.cmd_chan ≤ 10
    → l'.taken ≡ l.taken
    → l'.cmd_chan ≡ l.cmd_chan
    → l'.replies ≡ l.replies ++ extra
    → IsAccounted l l' []
untouched l l' extra fits taken chan replies = record {
  accepted = [];
  rejected = [];
  extra = extra;
  merge = nothing_left;
  in_order =
      ap (λ xs. xs ++ l'.cmd_chan) taken
      ∙ ap (λ xs. l.taken ++ xs) chan
      ∙ sym (append-nil (l.taken ++ l.cmd_chan));
  replies_eq = replies;
  told = tt;
  fits = rw chan fits;
}

abbrev pub Continues : Loop → List Cmd → Next → Type 0
Continues l cs (goes_on l') = IsAccounted l l' cs
Continues l cs (returns l') = Unit
Continues l cs (panics l') = Unit
Continues l cs (hangs l') = Unit
