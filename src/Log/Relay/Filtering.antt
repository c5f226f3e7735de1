-- ===== src/Log/Relay/Filtering.antt =====
-- The log level of log/relay.go.
use percona_agent.Prelude.{
  String, Option, ℕ, zero, suc, ◌≤◌, ◌≡◌, refl, ◌∙◌, inl, inr, Bool, true, false, none, List, [],
  ◌∷◌, ◌++◌, arith, Option-cases, get_or, nat_key, string_key,
}
use percona_agent.Log.Relay.{
  new_relay, Levels, text, Entry, buffer_size, Relay, internal, connect, buffer, answer, send,
  resend_first_slot, resend_second_slot, each_slot, lost_warning, warn_lost, resend, set_log_level,
  set_log_file, handle_entry, handle_connect, Event, entry_arrives, connection, new_file, new_level,
  step, run,
}

-- The level is one of those that proto defines.
abbrev pub IsLevel : Levels → ℕ → Type 0
IsLevel levels l = (levels.emergency ≤ l) × (l ≤ levels.debug)

buffer-log_level : (r : Relay) (e : Entry) → (buffer r e).log_level ≡ r.log_level
unfolding buffer
buffer-log_level r e = ground arith

send-log_level : (r : Relay) (e : Entry) (b : Bool) → (send r e b).0.log_level ≡ r.log_level
unfolding send
send-log_level r e b =
    ground (
      arith,
      buffer-log_level r e,
      buffer-log_level (record r { results = (answer r.results).1 }) e,
    )

first_slot-log_level : (r : Relay) (i : ℕ) → (resend_first_slot r i).log_level ≡ r.log_level
unfolding resend_first_slot
first_slot-log_level r i = elim (Option-cases (get_or r.first_buf i none)) [
  | inl e ↦ ground arith
  | inr (x, e) ↦ ground (arith, send-log_level r x false)
]

second_slot-log_level : (r : Relay) (i : ℕ) → (resend_second_slot r i).log_level ≡ r.log_level
unfolding resend_second_slot
second_slot-log_level r i = elim (Option-cases (get_or r.second_buf i none)) [
  | inl e ↦ ground arith
  | inr (x, e) ↦ ground (arith, send-log_level r x false)
]

each_slot-log_level :
    (slot : Relay → ℕ → Relay)
    → ((r : Relay) (i : ℕ) → (slot r i).log_level ≡ r.log_level)
    → (n i : ℕ) (r : Relay) → (each_slot n i slot r).log_level ≡ r.log_level
unfolding each_slot
each_slot-log_level slot h zero i r = refl
each_slot-log_level slot h (suc n) i r = each_slot-log_level slot h n (suc i) (slot r i) ∙ h r i

warn_lost-log_level : (levels : Levels) (r : Relay) → (warn_lost levels r).log_level ≡ r.log_level
unfolding warn_lost
warn_lost-log_level levels r = ground (arith, send-log_level r (lost_warning levels r.lost) false)

resend-log_level : (levels : Levels) (r : Relay) → (resend levels r).log_level ≡ r.log_level
unfolding resend
resend-log_level levels r =
    each_slot-log_level resend_second_slot second_slot-log_level buffer_size 0 _
    ∙ warn_lost-log_level levels _
    ∙ each_slot-log_level resend_first_slot first_slot-log_level buffer_size 0 r

pub new_relay-log_level :
    (b : Bool) (f : String) (l : ℕ) (off : Bool) → (new_relay b f l off).log_level ≡ l
unfolding new_relay
new_relay-log_level b f l off = refl

pub set_log_level-IsLevel :
    (levels : Levels) (r : Relay) (l : ℕ)
    → IsLevel levels l
    → (set_log_level levels r l).log_level ≡ l
unfolding set_log_level
set_log_level-IsLevel levels r l h = ground arith

pub set_log_file-log_level :
    (levels : Levels) (r : Relay) (f x : String) (o : Option String)
    → (set_log_file levels r f x o).log_level ≡ r.log_level
unfolding set_log_file internal
set_log_file-log_level levels r f x o = ground arith

pub handle_entry-log_level : (r : Relay) (e : Entry) → (handle_entry r e).log_level ≡ r.log_level
unfolding handle_entry
handle_entry-log_level r e = ground (
  arith,
  send-log_level r e true,
  send-log_level (record r { written = r.written ++ e ∷ [] }) e true,
)

pub connect-log_level : (r : Relay) → (connect r).log_level ≡ r.log_level
unfolding connect
connect-log_level r = ground arith

pub handle_connect-log_level :
    (levels : Levels) (r : Relay) (b : Bool) → (handle_connect levels r b).log_level ≡ r.log_level
unfolding handle_connect internal connect
handle_connect-log_level levels r true =
    resend-log_level levels
      (internal (record r { connected = true }) (text "Connected to API") levels.info)
handle_connect-log_level levels r false = ground arith

step-IsLevel :
    (levels : Levels) (r : Relay) (ev : Event)
    → IsLevel levels r.log_level
    → IsLevel levels (step levels r ev).log_level
unfolding step set_log_level set_log_file internal
step-IsLevel levels r (entry_arrives e) h = rw (handle_entry-log_level r e) h
step-IsLevel levels r (connection b) h = rw (handle_connect-log_level levels r b) h
step-IsLevel levels r (new_file f err opened) h = ground arith
step-IsLevel levels r (new_level l) h = ground arith

-- Whatever arrives on its channels, the relay filters by a level that proto defines: a level out of
-- range is refused, and nothing else changes the level.
pub run-IsLevel :
    (levels : Levels) (r : Relay) (evs : List Event)
    → IsLevel levels r.log_level
    → IsLevel levels (run levels r evs).log_level
unfolding run
run-IsLevel levels r [] h = h
run-IsLevel levels r (ev ∷ evs) h =
    run-IsLevel levels (step levels r ev) evs (step-IsLevel levels r ev h)
