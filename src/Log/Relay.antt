-- ===== src/Log/Relay.antt =====
-- log/relay.go: the goroutine that takes log entries from a channel, writes them to a file and
-- sends them to the API, and buffers them while there is no connection.
-- The answers of the websocket client to Send are the list `results` of the state; `sent`,
-- `written`, `disconnects` and `connects` record the effects. The status texts are left out, and so
-- are the times of the entries that the relay itself makes.
pub mod Buffering
pub mod Away
pub mod Slots
pub mod Resending
pub mod Overwriting
pub mod Filtering
mod Tests
use percona_agent.Prelude.{
  ℕ, zero, suc, ◌+◌, ◌-◌, String, List, [], ◌∷◌, ◌++◌, Bool, true, false, not, ◌&&◌, ◌||◌, Option,
  none, some, ltb, if◌then◌else◌, get_or, set, replicate, string_key,
}

-- The levels of the package proto, a smaller one being more severe.
pub record Levels : Type 0 where
  pub emergency : ℕ
  pub warning : ℕ
  pub info : ℕ
  pub debug : ℕ

-- The texts that the relay makes itself keep their number.
pub data Message : Type 0 where
  text : String → Message
  lost_entries : ℕ → Message
  invalid_level : ℕ → Message

pub record Entry : Type 0 where
  pub service : String
  pub level : ℕ
  pub msg : Message
  pub offline : Bool

abbrev pub buffer_size : ℕ
buffer_size = 50

abbrev pub Slots : Type 0
Slots = List (Option Entry)

pub record Relay : Type 0 where
  pub log_level : ℕ
  pub log_file : String
  pub offline : Bool
  pub has_client : Bool
  pub connected : Bool
  pub has_logger : Bool
  pub first_buf : Slots
  pub first_buf_size : ℕ
  pub second_buf : Slots
  pub second_buf_size : ℕ
  pub lost : ℕ
  pub log_chan : List Entry
  pub results : List Bool
  pub sent : List Entry
  pub written : List Entry
  pub disconnects : ℕ
  pub connects : ℕ

pub new_relay : Bool → String → ℕ → Bool → Relay
new_relay has_client file level offline = record {
  log_level = level;
  log_file = file;
  offline = offline;
  has_client = has_client;
  connected = false;
  has_logger = false;
  first_buf = replicate buffer_size none;
  first_buf_size = 0;
  second_buf = replicate buffer_size none;
  second_buf_size = 0;
  lost = 0;
  log_chan = [];
  results = [];
  sent = [];
  written = [];
  disconnects = 0;
  connects = 0;
}

-- The relay's own entries go to the channel that it reads.
pub internal : Relay → Message → ℕ → Relay
internal r msg level = record r { log_chan = r.log_chan ++ entry ∷ [] }
  where
    entry : Entry
    entry = record { service = "log"; level = level; msg = msg; offline = false }

pub connect : Relay → Relay
connect r = if not r.has_client || r.offline then r else record r { connects = suc r.connects }

pub buffer : Relay → Entry → Relay
buffer r e =
    if ltb r.first_buf_size buffer_size
    then record r {
      first_buf = set r.first_buf r.first_buf_size (some e);
      first_buf_size = suc r.first_buf_size;
    }
    else if ltb r.second_buf_size buffer_size
    then record r {
      second_buf = set r.second_buf r.second_buf_size (some e);
      second_buf_size = suc r.second_buf_size;
    }
    else record r {
      lost = r.lost + r.second_buf_size;
      second_buf = set (replicate buffer_size none) 0 (some e);
      second_buf_size = 1;
    }

-- The client's next answer; `true` is a nil error.
pub answer : List Bool → Bool × List Bool
answer [] = (false, [])
answer (b ∷ bs) = (b, bs)

-- The second component is `err == nil`.
pub send : Relay → Entry → Bool → Relay × Bool
unfolding answer
send r e buffer_on_err =
    let (done, rest) = answer r.results in
    let r' = record r { results = rest } in
    let kept = if buffer_on_err then buffer r' e else r' in
    if r.connected
    then (if done
        then (record r' { sent = r'.sent ++ e ∷ [] }, true)
        else (record kept { disconnects = suc kept.disconnects }, false))
    else (buffer r e, true)

pub resend_first_slot : Relay → ℕ → Relay
resend_first_slot r i = elim (get_or r.first_buf i none) [
  | none ↦ r
  | some e ↦
      let (r', done) = send r e false in
      if done
      then record r' { first_buf = set r'.first_buf i none; first_buf_size = r'.first_buf_size - 1 }
      else r'
]

pub resend_second_slot : Relay → ℕ → Relay
resend_second_slot r i = elim (get_or r.second_buf i none) [
  | none ↦ r
  | some e ↦
      let (r', done) = send r e false in
      if done
      then record r' {
        second_buf = set r'.second_buf i none;
        second_buf_size = r'.second_buf_size - 1;
      }
      else r'
]

-- for i := 0; i < BUFFER_SIZE; i++, with the rounds left as the first argument.
pub each_slot : ℕ → ℕ → (Relay → ℕ → Relay) → Relay → Relay
each_slot zero i body r = r
each_slot (suc n) i body r = each_slot n (suc i) body (body r i)

pub lost_warning : Levels → ℕ → Entry
lost_warning levels n = record {
  service = "log";
  level = levels.warning;
  msg = lost_entries n;
  offline = false;
}

-- The warning is not buffered when it fails.
pub warn_lost : Levels → Relay → Relay
warn_lost levels r =
    if ltb 0 r.lost
    then (let (r', done) = send r (lost_warning levels r.lost) false in record r' { lost = 0 })
    else r

pub resend : Levels → Relay → Relay
resend levels r =
    each_slot buffer_size 0 resend_second_slot
      (warn_lost levels (each_slot buffer_size 0 resend_first_slot r))

pub set_log_level : Levels → Relay → ℕ → Relay
set_log_level levels r level =
    if ltb level levels.emergency || ltb levels.debug level
    then internal r (invalid_level level) levels.warning
    else record r { log_level = level }

-- `opened` is the name of the file that was opened, or the text of the error.
pub set_log_file : Levels → Relay → String → String → Option String → Relay
set_log_file levels r file error opened =
    if string_key.beq file ""
    then record r { has_logger = false; log_file = "" }
    else if string_key.beq file "STDOUT"
    then record r { has_logger = true; log_file = "/dev/stdout" }
    else if string_key.beq file "STDERR"
    then record r { has_logger = true; log_file = "/dev/stderr" }
    else elim opened [
      | none ↦ internal r (text error) levels.warning
      | some name ↦ record r { has_logger = true; log_file = name }
    ]

-- An entry from the log channel.
pub handle_entry : Relay → Entry → Relay
handle_entry r e =
    if ltb r.log_level e.level
    then r
    else let r' = if r.has_logger then record r { written = r.written ++ e ∷ [] } else r in
      if not r'.offline && not e.offline && r'.has_client then (send r' e true).0 else r'

-- A value from ConnectChan. `len(r.firstBuf) > 0` always holds: it is the length of the array.
pub handle_connect : Levels → Relay → Bool → Relay
handle_connect levels r is_connected =
    let r' = record r { connected = is_connected } in
    if is_connected
    then resend levels (internal r' (text "Connected to API") levels.info)
    else connect (internal r' (text "Lost connection to API") levels.warning)

pub data Event : Type 0 where
  entry_arrives : Entry → Event
  connection : Bool → Event
  new_file : String → String → Option String → Event
  new_level : ℕ → Event

-- One round of the select loop of Run.
pub step : Levels → Relay → Event → Relay
step levels r (entry_arrives e) = handle_entry r e
step levels r (connection c) = handle_connect levels r c
step levels r (new_file f err opened) = set_log_file levels r f err opened
step levels r (new_level l) = set_log_level levels r l

pub run : Levels → Relay → List Event → Relay
run levels r [] = r
run levels r (ev ∷ evs) = run levels (step levels r ev) evs
