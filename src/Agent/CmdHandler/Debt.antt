-- ===== src/Agent/CmdHandler/Debt.antt =====
-- The replies that `cmdHandler` of agent/agent.go has still to come.
use percona_agent.Prelude.{
  ℕ, zero, suc, ◌+◌, ◌≡◌, refl, ap, Bool, true, false, Option, none, some, List, [], ◌∷◌, arith,
  length, length-append, get_elem?,
}
use percona_agent.Agent.{Cmd, Reply}
use percona_agent.Agent.CmdHandler.{
  CmdHandler, Event, take, finish, deliver, receive, expire, stop, remove_at, on_take, on_deliver,
  on_receive, on_expire, on_stop, on_finish, step, run,
}

unfoldable pub count {ℓ} : {A : Type ℓ} → Option A → ℕ
count none = 0
count (some a) = 1

-- The goroutines of commands that have not handed over their reply, and the reply in the channel.
unfoldable pub debt : CmdHandler → ℕ
debt h = length h.running + length h.sending + count h.cmd_reply

-- One reply is to come for the command that is awaited, and one for each timeout.
unfoldable pub IsBalanced : CmdHandler → Type 0
IsBalanced h = debt h ≡ h.timeouts + count h.waiting

length-remove_at {ℓ} :
    {A : Type ℓ} (i : ℕ) (xs : List A) (x : A)
    → get_elem? xs i ≡ some x
    → suc (length (remove_at i xs)) ≡ length xs
unfolding remove_at
length-remove_at i [] x e = absurd (ground arith)
length-remove_at zero (y ∷ xs) x e = refl
length-remove_at (suc i) (y ∷ xs) x e = ap suc (length-remove_at i xs x e)

on_take-IsBalanced :
    (h : CmdHandler) (b : Bool) (w : Option Cmd) (cs : List Cmd)
    → h.waiting ≡ w
    → IsBalanced h
    → IsBalanced (on_take h b w cs)
unfolding on_take IsBalanced debt count
on_take-IsBalanced h true w cs e k = k
on_take-IsBalanced h false (some c) cs e k = k
on_take-IsBalanced h false none [] e k = k
on_take-IsBalanced h false none (c ∷ cs) e k =
    omega (arith, k, length-append h.running (c ∷ []), ap count e)

on_deliver-IsBalanced :
    (h : CmdHandler) (o : Option (Option Reply)) (rs : List (Option Reply))
    → h.cmd_reply ≡ o
    → h.sending ≡ rs
    → IsBalanced h
    → IsBalanced (on_deliver h o rs)
unfolding on_deliver IsBalanced debt count
on_deliver-IsBalanced h (some r) rs e f k = k
on_deliver-IsBalanced h none [] e f k = k
on_deliver-IsBalanced h none (r ∷ rs) e f k = omega (arith, k, ap count e, ap length f)

on_receive-IsBalanced :
    (h : CmdHandler) (w : Option Cmd) (o : Option (Option Reply))
    → h.waiting ≡ w
    → h.cmd_reply ≡ o
    → IsBalanced h
    → IsBalanced (on_receive h w o)
unfolding on_receive IsBalanced debt count
on_receive-IsBalanced h none o e f k = k
on_receive-IsBalanced h (some c) none e f k = k
on_receive-IsBalanced h (some c) (some r) e f k = omega (arith, k, ap count e, ap count f)

on_expire-IsBalanced :
    (h : CmdHandler) (w : Option Cmd) → h.waiting ≡ w → IsBalanced h → IsBalanced (on_expire h w)
unfolding on_expire IsBalanced debt count
on_expire-IsBalanced h none e k = k
on_expire-IsBalanced h (some c) e k = omega (arith, k, ap count e)

on_stop-IsBalanced : (h : CmdHandler) (w : Option Cmd) → IsBalanced h → IsBalanced (on_stop h w)
unfolding on_stop IsBalanced debt
on_stop-IsBalanced h none k = k
on_stop-IsBalanced h (some c) k = k

module _ (answer : Cmd → Option Reply) where
  on_finish-IsBalanced :
      (h : CmdHandler) (i : ℕ) (o : Option Cmd)
      → get_elem? h.running i ≡ o
      → IsBalanced h
      → IsBalanced (on_finish answer h i o)
  unfolding on_finish IsBalanced debt count
  on_finish-IsBalanced h i none e k = k
  on_finish-IsBalanced h i (some c) e k =
      omega (arith, k, length-remove_at i h.running c e, length-append h.sending (answer c ∷ []))

  step-IsBalanced : (h : CmdHandler) (e : Event) → IsBalanced h → IsBalanced (step answer h e)
  unfolding step
  step-IsBalanced h take k = on_take-IsBalanced h h.stopped h.waiting h.cmd_chan refl k
  step-IsBalanced h (finish i) k = on_finish-IsBalanced h i (get_elem? h.running i) refl k
  step-IsBalanced h deliver k = on_deliver-IsBalanced h h.cmd_reply h.sending refl refl k
  step-IsBalanced h receive k = on_receive-IsBalanced h h.waiting h.cmd_reply refl refl k
  step-IsBalanced h expire k = on_expire-IsBalanced h h.waiting refl k
  step-IsBalanced h stop k = on_stop-IsBalanced h h.waiting k

  -- Whatever the goroutines do in whatever order, the replies that are still to come, running
  -- commands included, are as many as the timeouts so far, and one more while a command is awaited:
  -- the handler never makes up for a timeout.
  pub run-IsBalanced :
      (h : CmdHandler) (es : List Event) → IsBalanced h → IsBalanced (run answer h es)
  unfolding run
  run-IsBalanced h [] k = k
  run-IsBalanced h (e ∷ es) k = run-IsBalanced (step answer h e) es (step-IsBalanced h e k)
