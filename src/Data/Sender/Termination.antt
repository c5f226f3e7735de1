-- ===== src/Data/Sender/Termination.antt =====
-- How the loops of data/sender.go end, and what they count.
use percona_agent.Prelude.{
  ℕ, zero, suc, ◌+◌, ◌≤◌, ◌<◌, String, ◌≡◌, refl, ◌∙◌, inl, inr, Bool, true, false, ◌&&◌, ◌||◌,
  Option, none, some, List, [], ◌∷◌, map, arith, ltb, leb, ◌==◌, if◌then◌else◌, Bool-cases, nat_key,
  string_key, lookup,
}
use percona_agent.Data.Sender.{
  SentInfo, Run, max_send_errors, no_info, next_or, remove, Verdict, next, stop, fail, on_response,
  on_answer, receive, on_sent, send_file, on_read, on_file, send_files, send_all_files, add_err,
  on_pass, on_connect, try_send, may_go_on, send_loop, send,
}

abbrev pub is_bad : ℕ → Bool
is_bad code = leb 400 code && ltb code 500

-- A response after which the file is done with: success, or a file that the API refuses.
abbrev pub is_final : ℕ → Bool
is_final code = (leb 200 code && ltb code 300) || is_bad code

abbrev pub count_acks : (ℕ → Bool) → List (String × ℕ) → ℕ
count_acks test [] = 0
count_acks test ((f, code) ∷ acks) = (if test code then 1 else 0) + count_acks test acks

abbrev pub halts : SentInfo → ℕ
halts i = i.api_errs + i.timeouts

-- From counters `i` and responses `acks` to `q` no error was counted, and the files counted are those
-- of which a response came.
pub record Progress (i : SentInfo) (acks : List (String × ℕ)) (q : Run) : Type 0 where
  pub errs : q.sent.errs ≡ i.errs
  pub files : q.sent.files + count_acks is_final acks ≡ i.files + count_acks is_final q.acks
  pub bad_files : q.sent.bad_files + count_acks is_bad acks ≡ i.bad_files + count_acks is_bad q.acks

abbrev pub Ends : SentInfo → List (String × ℕ) → Verdict → Type 0
Ends i acks (next q) = Progress i acks q × (halts q.sent ≡ halts i)
Ends i acks (stop q) = Progress i acks q × (halts q.sent ≡ halts i + 1)
Ends i acks (fail q) = Progress i acks q × (halts q.sent ≡ halts i)

on_answer-Ends :
    (r : Run) (file : String) (answer : Option ℕ) → Ends r.sent r.acks (on_answer r file answer)
unfolding on_answer on_response remove
on_answer-Ends r file none = omega arith
on_answer-Ends r file (some code) = ground arith

receive-Ends : (r : Run) (file : String) → Ends r.sent r.acks (receive r file)
unfolding receive
receive-Ends r file =
    on_answer-Ends (record r { responses = (next_or r.responses none).1 }) file
      (next_or r.responses none).0

-- The time and bytes sent do not count here.
Ends-timed :
    (i : SentInfo) (t b : ℕ) (acks : List (String × ℕ)) (v : Verdict)
    → Ends (record i { send_time = t; bytes = b }) acks v
    → Ends i acks v
Ends-timed i t b acks (next q) h =
    (record { errs = h.0.errs; files = h.0.files; bad_files = h.0.bad_files }, h.1)
Ends-timed i t b acks (stop q) h =
    (record { errs = h.0.errs; files = h.0.files; bad_files = h.0.bad_files }, h.1)
Ends-timed i t b acks (fail q) h =
    (record { errs = h.0.errs; files = h.0.files; bad_files = h.0.bad_files }, h.1)

on_sent-Ends :
    (r : Run) (file : String) (size : ℕ) (answer : Option ℕ)
    → Ends r.sent r.acks (on_sent r file size answer)
unfolding on_sent
on_sent-Ends r file size none = omega arith
on_sent-Ends r file size (some time) =
    Ends-timed r.sent (r.sent.send_time + time) (r.sent.bytes + size) r.acks _ (receive-Ends _ file)

on_read-Ends :
    (blackhole : Bool) (r : Run) (file : String) (content : Option (Option ℕ))
    → Ends r.sent r.acks (on_read blackhole r file content)
unfolding on_read send_file remove
on_read-Ends blackhole r file none = omega arith
on_read-Ends blackhole r file (some none) = omega arith
on_read-Ends true r file (some (some size)) = omega arith
on_read-Ends false r file (some (some size)) = elim (Bool-cases (size == 0)) [
  | inl e ↦ rw e (omega arith)
  | inr e ↦ rw e (
      on_sent-Ends (record r { sends = (next_or r.sends none).1 }) file size
        (next_or r.sends none).0)
]

on_file-Ends :
    (timeout : ℕ) (blackhole : Bool) (r : Run) (file : String)
    → Ends r.sent r.acks (on_file timeout blackhole r file)
unfolding on_file
on_file-Ends timeout blackhole r file = elim (Bool-cases (ltb timeout (next_or r.run_times 0).0)) [
  | inl e ↦ rw e (omega arith)
  | inr e ↦ rw e (
      on_read-Ends blackhole (record r { run_times = (next_or r.run_times 0).1 }) file
        (lookup file r.spool))
]

-- A pass over the files ends without an error after at most one halt, or with an error after none.
abbrev pub Passes : SentInfo → List (String × ℕ) → Run × Bool → Type 0
Passes i acks (q, true) = Progress i acks q × (halts q.sent ≤ halts i + 1)
Passes i acks (q, false) = Progress i acks q × (halts q.sent ≡ halts i)

Passes-trans :
    (i : SentInfo) (acks : List (String × ℕ)) (r : Run) (o : Run × Bool)
    → Progress i acks r
    → halts r.sent ≡ halts i
    → Passes r.sent r.acks o
    → Passes i acks o
Passes-trans i acks r (q, true) p e h = omega arith
Passes-trans i acks r (q, false) p e h = omega arith

send_files-Passes :
    (timeout : ℕ) (blackhole : Bool) (files : List String) (r : Run)
    → Passes r.sent r.acks (send_files timeout blackhole files r)
unfolding send_files
send_files-Passes timeout blackhole [] r = omega arith
send_files-Passes timeout blackhole (file ∷ files) r =
    round (on_file timeout blackhole r file) (on_file-Ends timeout blackhole r file)
      (λ q. send_files-Passes timeout blackhole files q)
  where
    round :
        (v : Verdict)
        → Ends r.sent r.acks v
        → ((q : Run) → Passes q.sent q.acks (send_files timeout blackhole files q))
        → Passes r.sent r.acks (elim v [
          | next r' ↦ send_files timeout blackhole files r'
          | stop r' ↦ (r', true)
          | fail r' ↦ (r', false)
        ])
    round (next q) h ih = Passes-trans r.sent r.acks q _ h.0 h.1 (ih q)
    round (stop q) h ih = omega arith
    round (fail q) h ih = omega arith

-- One try counts one error and goes on, or counts none, and at most one halt, and ends.
abbrev pub Tries : SentInfo → List (String × ℕ) → Bool × Run → Type 0
Tries i acks (true, q) =
    (q.sent.errs ≡ i.errs + 1)
    × (halts q.sent ≡ halts i)
    × (q.sent.files + count_acks is_final acks ≡ i.files + count_acks is_final q.acks)
    × (q.sent.bad_files + count_acks is_bad acks ≡ i.bad_files + count_acks is_bad q.acks)
Tries i acks (false, q) = Progress i acks q × (halts q.sent ≤ halts i + 1)

on_pass-Tries :
    (i : SentInfo) (acks : List (String × ℕ)) (o : Run × Bool)
    → Passes i acks o
    → Tries i acks (on_pass o)
unfolding on_pass add_err
on_pass-Tries i acks (q, true) h = h
on_pass-Tries i acks (q, false) h = omega arith

on_connect-Tries :
    (timeout : ℕ) (blackhole : Bool) (r : Run) (connected : Bool)
    → Tries r.sent r.acks (on_connect timeout blackhole r connected)
unfolding on_connect send_all_files add_err
on_connect-Tries timeout blackhole r true =
    on_pass-Tries r.sent r.acks _ (send_files-Passes timeout blackhole (map (λ f. f.0) r.spool) r)
on_connect-Tries timeout blackhole r false = omega arith

try_send-Tries :
    (timeout : ℕ) (blackhole : Bool) (r : Run) → Tries r.sent r.acks (try_send timeout blackhole r)
unfolding try_send
try_send-Tries timeout blackhole r = elim (Bool-cases (ltb timeout (next_or r.run_times 0).0)) [
  | inl e ↦ rw e (omega arith)
  | inr e ↦ rw e (
      on_connect-Tries timeout blackhole
        (record r {
          run_times = (next_or r.run_times 0).1;
          connects = (next_or r.connects false).1;
        })
        (next_or r.connects false).0)
]

-- How the loop of send ends.
pub record Ended (acks : List (String × ℕ)) (i : SentInfo) (q : Run) : Type 0 where
  pub errs : q.sent.errs ≤ max_send_errors
  pub halted : halts q.sent ≤ 1
  pub files : q.sent.files + count_acks is_final acks ≡ i.files + count_acks is_final q.acks
  pub bad_files : q.sent.bad_files + count_acks is_bad acks ≡ i.bad_files + count_acks is_bad q.acks

EndsIn : Option Run → List (String × ℕ) → SentInfo → Type 0
EndsIn o acks i = (q : Run) × (o ≡ some q) × Ended acks i q

go_on :
    (fuel timeout : ℕ) (blackhole : Bool) (r : Run) (t : Bool × Run)
    → may_go_on r.sent ≡ true
    → Tries r.sent r.acks t
    → ((q : Run)
        → q.sent.errs ≡ r.sent.errs + 1
        → halts q.sent ≡ halts r.sent
        → EndsIn (send_loop fuel timeout blackhole q) q.acks q.sent)
    → EndsIn
        (elim t.0 [ true ↦ send_loop fuel timeout blackhole t.1 | false ↦ some t.1 ])
        r.acks
        r.sent
unfolding EndsIn may_go_on
go_on fuel timeout blackhole r (true, q) e h ih =
    let (p, same, ended) = ih q h.0 h.1 in (p, same, omega arith)
go_on fuel timeout blackhole r (false, q) e h ih = (q, refl, ground arith)

one_more : (i : SentInfo) (n : ℕ) → may_go_on i ≡ true → n ≡ i.errs + 1 → n ≤ max_send_errors
unfolding may_go_on
one_more i n e h = ground arith

ends_here :
    (r : Run) → r.sent.errs ≤ max_send_errors → halts r.sent ≡ 0 → EndsIn (some r) r.acks r.sent
unfolding EndsIn
ends_here r h z = (r, refl, omega arith)

loop_ends :
    (fuel timeout : ℕ) (blackhole : Bool) (r : Run)
    → max_send_errors < fuel + r.sent.errs
    → r.sent.errs ≤ max_send_errors
    → halts r.sent ≡ 0
    → EndsIn (send_loop fuel timeout blackhole r) r.acks r.sent
unfolding send_loop
loop_ends zero timeout blackhole r f h z = absurd (omega arith)
loop_ends (suc fuel) timeout blackhole r f h z = elim (Bool-cases (may_go_on r.sent)) [
  | inl e ↦ rw e (
      go_on fuel timeout blackhole r (try_send timeout blackhole r) e
        (try_send-Tries timeout blackhole r)
        (λ q n k.
          loop_ends fuel timeout blackhole q (omega arith) (one_more r.sent q.sent.errs e n)
            (k ∙ z)))
  | inr e ↦ rw e (ends_here r h z)
]

-- Whatever the clock, the client and the spool answer, a run of send ends. It has counted at most
-- three errors, and at most one API error or timeout, which ends it; the files that it counts as
-- sent are those that the API took or refused for good (2xx or 4xx), the bad ones those it refused.
pub send_ends :
    (timeout : ℕ) (blackhole : Bool) (r : Run)
    → (q : Run) × (send timeout blackhole r ≡ some q)
      × (q.sent.errs ≤ max_send_errors)
      × (q.sent.api_errs + q.sent.timeouts ≤ 1)
      × (q.sent.files + count_acks is_final r.acks ≡ count_acks is_final q.acks)
      × (q.sent.bad_files + count_acks is_bad r.acks ≡ count_acks is_bad q.acks)
unfolding send EndsIn
send_ends timeout blackhole r =
    let (q, e, ended) =
      loop_ends (max_send_errors + 1) timeout blackhole (record r { sent = no_info }) (omega arith)
        (omega arith) refl in
    (
      record q { disconnects = q.disconnects + 1 },
      rw e,
      ended.errs,
      ended.halted,
      omega (arith, ended.files),
      omega (arith, ended.bad_files),
    )
