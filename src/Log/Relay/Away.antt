-- ===== src/Log/Relay/Away.antt =====
-- How log/relay.go takes entries while there is no connection.
use percona_agent.Prelude.{
  ℕ, ◌≤◌, ◌≡◌, ◌∙◌, Bool, true, false, List, [], ◌∷◌, ◌++◌, map, arith, if◌then◌else◌, All, nat_key,
  string_key,
}
use percona_agent.Log.Relay.{
  Levels, Entry, Relay, buffer, send, handle_entry, entry_arrives, step, run,
}
use percona_agent.Log.Relay.Buffering.{Kept, Holds-record, place, place_all, Holds, buffer-Holds}

-- The relay has a client and is not connected; `r` is such a relay, with level, answers and sent
-- entries as given, that holds `k`.
pub record Away (r : Relay) (k : Kept) (level : ℕ) (results : List Bool) (sent : List Entry)
    : Type 0 where
  pub holds : Holds r k
  pub online : r.offline ≡ false
  pub client : r.has_client ≡ true
  pub unconnected : r.connected ≡ false
  pub level_kept : r.log_level ≡ level
  pub results_kept : r.results ≡ results
  pub sent_kept : r.sent ≡ sent

-- An entry that the relay is to send.
abbrev pub IsRelayed : ℕ → Entry → Type 0
IsRelayed level e = (e.level ≤ level) × (e.offline ≡ false)

buffer_keeps :
    (r : Relay) (e : Entry)
    → ((buffer r e).offline ≡ r.offline)
      × ((buffer r e).has_client ≡ r.has_client)
      × ((buffer r e).connected ≡ r.connected)
      × ((buffer r e).log_level ≡ r.log_level)
      × ((buffer r e).results ≡ r.results)
      × ((buffer r e).sent ≡ r.sent)
unfolding buffer
buffer_keeps r e = ground arith

send_away :
    (r : Relay) (e : Entry) (b : Bool) → r.connected ≡ false → send r e b ≡ (buffer r e, true)
unfolding send
send_away r e b h = rw h

pub handle_away :
    (r : Relay) (e : Entry)
    → r.offline ≡ false
    → r.has_client ≡ true
    → r.connected ≡ false
    → IsRelayed r.log_level e
    → handle_entry r e
      ≡ buffer (if r.has_logger then record r { written = r.written ++ e ∷ [] } else r) e
unfolding handle_entry
handle_away r e o c u h =
    ground
      (arith, send_away (record r { written = r.written ++ e ∷ [] }) e true, send_away r e true)

module _ {k : Kept} {level : ℕ} {results : List Bool} {sent : List Entry} where
  written-Away :
      (r : Relay) (ws : List Entry)
      → Away r k level results sent
      → Away (record r { written = ws }) k level results sent
  written-Away r ws a = record {
    holds = Holds-record r k r.connected r.log_chan r.results ws a.holds;
    online = a.online;
    client = a.client;
    unconnected = a.unconnected;
    level_kept = a.level_kept;
    results_kept = a.results_kept;
    sent_kept = a.sent_kept;
  }

  logged-Away :
      (r : Relay) (b : Bool) (ws : List Entry)
      → Away r k level results sent
      → Away (if b then record r { written = ws } else r) k level results sent
  logged-Away r true ws a = written-Away r ws a
  logged-Away r false ws a = a

  buffer-Away :
      (r : Relay) (e : Entry)
      → Away r k level results sent
      → Away (buffer r e) (place k e) level results sent
  buffer-Away r e a =
      let same = buffer_keeps r e in
      record {
        holds = buffer-Holds r k e a.holds;
        online = same.0 ∙ a.online;
        client = same.1 ∙ a.client;
        unconnected = same.2 ∙ a.unconnected;
        level_kept = same.3 ∙ a.level_kept;
        results_kept = same.4 ∙ a.results_kept;
        sent_kept = same.5 ∙ a.sent_kept;
      }

  handle-Away :
      (r : Relay) (e : Entry)
      → IsRelayed level e
      → Away r k level results sent
      → Away (handle_entry r e) (place k e) level results sent
  handle-Away r e h a =
      rw (handle_away r e a.online a.client a.unconnected (rw a.level_kept h))
        (buffer-Away _ e (logged-Away r r.has_logger _ a))

pub run-Away :
    (levels : Levels) (r : Relay) (k : Kept) (level : ℕ) (results : List Bool)
    (sent es : List Entry)
    → All (IsRelayed level) es
    → Away r k level results sent
    → Away (run levels r (map entry_arrives es)) (place_all k es) level results sent
unfolding run step place_all
run-Away levels r k level results sent [] h a = a
run-Away levels r k level results sent (e ∷ es) h a =
    run-Away levels (handle_entry r e) (place k e) level results sent es h.1 (handle-Away r e h.0 a)
