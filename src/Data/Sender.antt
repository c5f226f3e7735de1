-- ===== src/Data/Sender.antt =====
-- data/sender.go: the run that sends the files of the spool to the API.
-- The clock, the websocket client and the spool answer from lists in the state, one answer for
-- each call in order; a list that has run out gives a zero time, or an error. A file of the spool
-- is kept with what Read returns for it: its size, or an error. Status texts are left out.
pub mod Termination
pub mod Removal
pub mod Delivery
mod Tests
use mathlib.Core.Option
use percona_agent.Prelude.{
  ℕ, zero, suc, ◌+◌, ◌-◌, ◌*◌, ◌/◌, ◌%◌, ◌^◌, ◌≤◌, ◌<◌, min, String, ◌≡◌, refl, sym, ap, ◌∙◌, subst,
  ◌≢◌, ◌↔◌, ◌⊎◌, inl, inr, Bool, true, false, not, ◌&&◌, ◌||◌, Option, none, some, List, [], ◌∷◌,
  ◌++◌, map, arith, ltb, leb, ◌==◌, if◌then◌else◌, tests, Bool-cases, Option-cases, length,
  get_elem?, get_or, set, take, drop, replicate, All, length-append, length-set, length-take,
  length-replicate, take-append-drop, All-append, sum_of, sum_of-append, Eq, nat_key, string_key,
  lookup, insert, erase, lookup-insert, lookup-erase,
}

-- What happened in a run (data/stats.go has the same record, with the times of the run).
pub record SentInfo : Type 0 where
  pub send_time : ℕ
  pub files : ℕ
  pub bytes : ℕ
  pub errs : ℕ
  pub api_errs : ℕ
  pub timeouts : ℕ
  pub bad_files : ℕ

pub record Run : Type 0 where
  pub spool : List (String × Option ℕ)
  pub run_times : List ℕ
  pub connects : List Bool
  pub sends : List (Option ℕ)
  pub responses : List (Option ℕ)
  pub sent : SentInfo
  -- The files of which a response came, with its code, the latest first.
  pub acks : List (String × ℕ)
  pub disconnects : ℕ

abbrev pub max_send_errors : ℕ
max_send_errors = 3

abbrev pub no_info : SentInfo
no_info = record {
  send_time = 0;
  files = 0;
  bytes = 0;
  errs = 0;
  api_errs = 0;
  timeouts = 0;
  bad_files = 0;
}

pub next_or {ℓ} : {A : Type ℓ} → List A → A → A × List A
next_or [] d = (d, [])
next_or (x ∷ xs) d = (x, xs)

pub remove : Run → String → Run
remove r file = record r { spool = erase file r.spool }

-- How the work on one file ends: go on with the next one, return nil, or return an error.
pub data Verdict : Type 0 where
  next : Run → Verdict
  stop : Run → Verdict
  fail : Run → Verdict

-- The switch on the response code.
pub on_response : Run → String → ℕ → Verdict
on_response r file code =
    let info = r.sent in
    if leb 500 code
    then stop (record r { sent = record info { api_errs = info.api_errs + 1 } })
    else if leb 400 code
    then next (record (remove r file) {
      sent = record info { files = info.files + 1; bad_files = info.bad_files + 1 };
    })
    else if leb 300 code
    then fail r
    else if leb 200 code
    then next (record (remove r file) { sent = record info { files = info.files + 1 } })
    else fail r

pub on_answer : Run → String → Option ℕ → Verdict
on_answer r file none = fail r
on_answer r file (some code) = on_response (record r { acks = (file, code) ∷ r.acks }) file code

pub receive : Run → String → Verdict
receive r file =
    let (answer, rest) = next_or r.responses none in
    on_answer (record r { responses = rest }) file answer

pub on_sent : Run → String → ℕ → Option ℕ → Verdict
on_sent r file size none = fail r
on_sent r file size (some time) =
    let info = r.sent in
    receive
      (record r {
        sent = record info { send_time = info.send_time + time; bytes = info.bytes + size };
      })
      file

pub send_file : Run → String → ℕ → Verdict
send_file r file size =
    let (answer, rest) = next_or r.sends none in
    on_sent (record r { sends = rest }) file size answer

-- A file that Read returned an error for, or its size.
pub on_read : Bool → Run → String → Option (Option ℕ) → Verdict
on_read blackhole r file none = fail r
on_read blackhole r file (some none) = fail r
on_read blackhole r file (some (some size)) =
    if blackhole
    then next (remove r file)
    else if size == 0
    then next (remove r file)
    else send_file r file size

-- One round of the loop of sendAllFiles.
pub on_file : ℕ → Bool → Run → String → Verdict
on_file timeout blackhole r file =
    let (time, rest) = next_or r.run_times 0 in
    let r' = record r { run_times = rest } in
    let info = r'.sent in
    if ltb timeout time
    then stop (record r' { sent = record info { timeouts = info.timeouts + 1 } })
    else on_read blackhole r' file (lookup file r'.spool)

-- The second component is `err == nil`.
pub send_files : ℕ → Bool → List String → Run → Run × Bool
send_files timeout blackhole [] r = (r, true)
send_files timeout blackhole (file ∷ files) r = elim (on_file timeout blackhole r file) [
  | next r' ↦ send_files timeout blackhole files r'
  | stop r' ↦ (r', true)
  | fail r' ↦ (r', false)
]

pub send_all_files : ℕ → Bool → Run → Run × Bool
send_all_files timeout blackhole r = send_files timeout blackhole (map (λ f. f.0) r.spool) r

pub add_err : Run → Run
add_err r = record r { sent = record info { errs = info.errs + 1 } }
  where
    info : SentInfo
    info = r.sent

-- After sendAllFiles: the loop of send goes on after an error.
pub on_pass : Run × Bool → Bool × Run
on_pass (q, true) = (false, q)
on_pass (q, false) = (true, record (add_err q) { disconnects = q.disconnects + 1 })

-- After ConnectOnce.
pub on_connect : ℕ → Bool → Run → Bool → Bool × Run
on_connect timeout blackhole r true = on_pass (send_all_files timeout blackhole r)
on_connect timeout blackhole r false = (true, add_err r)

-- The body of the loop of send: whether it goes on, and the state.
pub try_send : ℕ → Bool → Run → Bool × Run
try_send timeout blackhole r =
    let (time, times) = next_or r.run_times 0 in
    let (connected, connects) = next_or r.connects false in
    let info = r.sent in
    if ltb timeout time
    then (
      false,
      record r { run_times = times; sent = record info { timeouts = info.timeouts + 1 } },
    )
    else on_connect timeout blackhole (record r { run_times = times; connects = connects })
        connected

pub may_go_on : SentInfo → Bool
may_go_on info = info.api_errs == 0 && ltb info.errs max_send_errors && info.timeouts == 0

-- The loop of send on fuel; `none` if the fuel runs out.
pub send_loop : ℕ → ℕ → Bool → Run → Option Run
send_loop zero timeout blackhole r = none
send_loop (suc fuel) timeout blackhole r =
    if may_go_on r.sent
    then (let (again, r') = try_send timeout blackhole r in
        elim again [ true ↦ send_loop fuel timeout blackhole r' | false ↦ some r' ])
    else some r

-- send, with the disconnect of its deferred function.
pub send : ℕ → Bool → Run → Option Run
send timeout blackhole r =
    Option.map {A = Run} (λ q. record q { disconnects = q.disconnects + 1 })
      (send_loop (max_send_errors + 1) timeout blackhole (record r { sent = no_info }))
