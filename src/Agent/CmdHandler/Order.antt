-- ===== src/Agent/CmdHandler/Order.antt =====
-- `cmdHandler` of agent/agent.go without timeouts.
use mathlib.Core.List.{append_assoc, append-nil}
use percona_agent.Prelude.{
  ℕ, zero, suc, ◌≡◌, refl, sym, ap, ◌∙◌, Bool, true, false, Option, none, some, List, [], ◌∷◌, ◌++◌,
  arith, get_elem?,
}
use percona_agent.Agent.{Cmd, Reply}
use percona_agent.Agent.CmdHandler.{
  CmdHandler, Event, take, finish, deliver, receive, expire, stop, remove_at, reply_of, on_take,
  on_deliver, on_receive, on_stop, on_finish, step, run,
}

-- No command takes too long.
unfoldable pub IsTimely : List Event → Type 0
IsTimely [] = Unit
IsTimely (expire ∷ es) = ⊥
IsTimely (take ∷ es) = IsTimely es
IsTimely (finish i ∷ es) = IsTimely es
IsTimely (deliver ∷ es) = IsTimely es
IsTimely (receive ∷ es) = IsTimely es
IsTimely (stop ∷ es) = IsTimely es

module _ (answer : Cmd → Option Reply) where
  -- The replies to the given commands, one after the other.
  unfoldable pub answers : List Cmd → List Reply
  answers [] = []
  answers (c ∷ cs) = reply_of (answer c) ++ answers cs

  pub data Place : CmdHandler → Cmd → Type 0 where
    at_work :
        (h : CmdHandler) (c : Cmd)
        → h.running ≡ c ∷ []
        → h.sending ≡ []
        → h.cmd_reply ≡ none
        → Place h c
    at_send :
        (h : CmdHandler) (c : Cmd)
        → h.running ≡ []
        → h.sending ≡ answer c ∷ []
        → h.cmd_reply ≡ none
        → Place h c
    in_channel :
        (h : CmdHandler) (c : Cmd)
        → h.running ≡ []
        → h.sending ≡ []
        → h.cmd_reply ≡ some (answer c)
        → Place h c

  -- All commands but the one that is awaited have their reply, in order.
  pub data IsInOrder : CmdHandler → Type 0 where
    idle :
        (h : CmdHandler)
        → h.waiting ≡ none
        → h.running ≡ []
        → h.sending ≡ []
        → h.cmd_reply ≡ none
        → h.replies ≡ answers h.taken
        → IsInOrder h
    busy :
        (h : CmdHandler) (cs : List Cmd) (c : Cmd)
        → h.waiting ≡ some c
        → h.taken ≡ cs ++ c ∷ []
        → h.replies ≡ answers cs
        → Place h c
        → IsInOrder h

  answers-append :
      (cs : List Cmd) (c : Cmd) → answers (cs ++ c ∷ []) ≡ answers cs ++ reply_of (answer c)
  unfolding answers
  answers-append [] c = append-nil (reply_of (answer c))
  answers-append (d ∷ cs) c =
      ap (λ rs. reply_of (answer d) ++ rs) (answers-append cs c)
      ∙ sym (append_assoc (reply_of (answer d)) (answers cs) (reply_of (answer c)))

  on_take-IsInOrder :
      (h : CmdHandler) (b : Bool) (w : Option Cmd) (cs : List Cmd)
      → h.waiting ≡ w
      → IsInOrder h
      → IsInOrder (on_take h b w cs)
  unfolding on_take
  on_take-IsInOrder h true w cs e k = k
  on_take-IsInOrder h false (some c) cs e k = k
  on_take-IsInOrder h false none [] e k = k
  on_take-IsInOrder h false none (c ∷ cs) e (idle _ w r s q o) =
      busy _ h.taken c refl refl o (at_work _ c (ap (λ xs. xs ++ c ∷ []) r) s q)
  on_take-IsInOrder h false none (c ∷ cs) e (busy _ ds d w t o p) = absurd (ground arith)

  only_one :
      (i : ℕ) (xs : List Cmd) (c d : Cmd)
      → xs ≡ d ∷ []
      → get_elem? xs i ≡ some c
      → (c ≡ d) × (remove_at i xs ≡ [])
  unfolding remove_at
  only_one i [] c d e g = absurd (ground arith)
  only_one zero (x ∷ xs) c d e g = ground arith
  only_one (suc i) (x ∷ []) c d e g = absurd (ground arith)
  only_one (suc i) (x ∷ y ∷ xs) c d e g = absurd (ground arith)

  none_there : (i : ℕ) (xs : List Cmd) (c : Cmd) → xs ≡ [] → get_elem? xs i ≡ some c → ⊥
  none_there i [] c e g = ground arith
  none_there i (x ∷ xs) c e g = ground arith

  on_finish-IsInOrder :
      (h : CmdHandler) (i : ℕ) (o : Option Cmd)
      → get_elem? h.running i ≡ o
      → IsInOrder h
      → IsInOrder (on_finish answer h i o)
  unfolding on_finish
  on_finish-IsInOrder h i none e k = k
  on_finish-IsInOrder h i (some c) e (idle _ w r s q o) = absurd (none_there i h.running c r e)
  on_finish-IsInOrder h i (some c) e (busy _ ds d w t o (at_work _ _ r s q)) =
      let (same, rest) = only_one i h.running c d r e in
      busy _ ds d w t o
        (at_send _ d rest (ap (λ xs. xs ++ answer c ∷ []) s ∙ ap (λ x. answer x ∷ []) same) q)
  on_finish-IsInOrder h i (some c) e (busy _ ds d w t o (at_send _ _ r s q)) =
      absurd (none_there i h.running c r e)
  on_finish-IsInOrder h i (some c) e (busy _ ds d w t o (in_channel _ _ r s q)) =
      absurd (none_there i h.running c r e)

  on_deliver-IsInOrder :
      (h : CmdHandler) (x : Option (Option Reply)) (rs : List (Option Reply))
      → h.cmd_reply ≡ x
      → h.sending ≡ rs
      → IsInOrder h
      → IsInOrder (on_deliver h x rs)
  unfolding on_deliver
  on_deliver-IsInOrder h (some r) rs e f k = k
  on_deliver-IsInOrder h none [] e f k = k
  on_deliver-IsInOrder h none (r ∷ rs) e f (idle _ w u s q o) = absurd (ground arith)
  on_deliver-IsInOrder h none (r ∷ rs) e f (busy _ ds d w t o (at_work _ _ u s q)) =
      absurd (ground arith)
  on_deliver-IsInOrder h none (r ∷ rs) e f (busy _ ds d w t o (at_send _ _ u s q)) =
      busy _ ds d w t o (in_channel _ d u (ground arith) (ground arith))
  on_deliver-IsInOrder h none (r ∷ rs) e f (busy _ ds d w t o (in_channel _ _ u s q)) =
      absurd (ground arith)

  on_receive-IsInOrder :
      (h : CmdHandler) (w : Option Cmd) (x : Option (Option Reply))
      → h.waiting ≡ w
      → h.cmd_reply ≡ x
      → IsInOrder h
      → IsInOrder (on_receive h w x)
  unfolding on_receive
  on_receive-IsInOrder h none x e f k = k
  on_receive-IsInOrder h (some c) none e f k = k
  on_receive-IsInOrder h (some c) (some r) e f (idle _ w u s q o) = absurd (ground arith)
  on_receive-IsInOrder h (some c) (some r) e f (busy _ ds d w t o (at_work _ _ u s q)) =
      absurd (ground arith)
  on_receive-IsInOrder h (some c) (some r) e f (busy _ ds d w t o (at_send _ _ u s q)) =
      absurd (ground arith)
  on_receive-IsInOrder h (some c) (some r) e f (busy _ ds d w t o (in_channel _ _ u s q)) =
      let same : r ≡ answer d = ground arith in
      idle _ refl u s refl (
        ap (λ rs. rs ++ reply_of r) o
        ∙ ap (λ y. answers ds ++ reply_of y) same
        ∙ sym (answers-append ds d)
        ∙ ap answers (sym t))

  on_stop-IsInOrder : (h : CmdHandler) (w : Option Cmd) → IsInOrder h → IsInOrder (on_stop h w)
  unfolding on_stop
  on_stop-IsInOrder h (some c) k = k
  on_stop-IsInOrder h none (idle _ w u s q o) = idle _ w u s q o
  on_stop-IsInOrder h none (busy _ ds d w t o (at_work _ _ u s q)) =
      busy _ ds d w t o (at_work _ d u s q)
  on_stop-IsInOrder h none (busy _ ds d w t o (at_send _ _ u s q)) =
      busy _ ds d w t o (at_send _ d u s q)
  on_stop-IsInOrder h none (busy _ ds d w t o (in_channel _ _ u s q)) =
      busy _ ds d w t o (in_channel _ d u s q)

  -- As long as no command times out, the handler runs one command at a time, and it sends exactly
  -- the replies to the commands that it took, each in its turn, before it takes the next one.
  pub run-IsInOrder :
      (h : CmdHandler) (es : List Event) → IsTimely es → IsInOrder h → IsInOrder (run answer h es)
  unfolding run step IsTimely
  run-IsInOrder h [] t k = k
  run-IsInOrder h (take ∷ es) t k =
      run-IsInOrder (step answer h take) es t
        (on_take-IsInOrder h h.stopped h.waiting h.cmd_chan refl k)
  run-IsInOrder h (finish i ∷ es) t k =
      run-IsInOrder (step answer h (finish i)) es t
        (on_finish-IsInOrder h i (get_elem? h.running i) refl k)
  run-IsInOrder h (deliver ∷ es) t k =
      run-IsInOrder (step answer h deliver) es t
        (on_deliver-IsInOrder h h.cmd_reply h.sending refl refl k)
  run-IsInOrder h (receive ∷ es) t k =
      run-IsInOrder (step answer h receive) es t
        (on_receive-IsInOrder h h.waiting h.cmd_reply refl refl k)
  run-IsInOrder h (expire ∷ es) t k = absurd t
  run-IsInOrder h (stop ∷ es) t k =
      run-IsInOrder (step answer h stop) es t (on_stop-IsInOrder h h.waiting k)
